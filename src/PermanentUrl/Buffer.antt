-- ===== src/PermanentUrl/Buffer.antt =====
-- The buffer of append_entryid_section in server/lib/e2k-utils.c holds what is written to it.
use evolution_exchange.Prelude.{
  ℕ, zero, suc, ◌+◌, ◌-◌, ◌≤◌, ◌≡◌, ◌∙◌, ap, arith, refl, true, Option, none, some, [], ◌∷◌, ◌++◌,
  Bytes, length, drop, take, leb,
}
use evolution_exchange.Outcome.{ok}
use evolution_exchange.Props.{hex_value}
use evolution_exchange.Time.{zeros}
use evolution_exchange.Wire.{copy_bytes}
use evolution_exchange.PermanentUrl.{expand, fill_zeros, hex_span}

pub hex_span-length : (s : Bytes) → hex_span s ≤ length s
unfolding hex_span
hex_span-length [] = omega arith
hex_span-length (c ∷ s) = let ih = hex_span-length s in digit (hex_value c) ih
  where
    digit :
        (o : Option ℕ)
        → hex_span s ≤ length s
        → elim o [ some d ↦ suc (hex_span s) | none ↦ 0 ] ≤ suc (length s)
    digit none h = omega arith
    digit (some d) h = omega arith

-- What stands behind a byte of the string.
behind :
    (n : ℕ) (p : Bytes) (c : ℕ) (end : Bytes)
    → drop n p ≡ c ∷ end
    → (drop (suc n) p ≡ end) × (length p ≡ n + 1 + length end)
behind zero p c end e = (ap (drop 1) e, ap length e ∙ omega arith)
behind (suc n) [] c end e = absurd (ground arith)
behind (suc n) (b ∷ p) c end e = let (d, l) = behind n p c end e in (d, omega arith)

copy_bytes-ok : (n : ℕ) (mem : Bytes) → n ≤ length mem → copy_bytes n mem ≡ ok (take n mem)
unfolding copy_bytes
copy_bytes-ok n mem h = ground arith

pub expand_lem :
    (endlen c : ℕ) (p end : Bytes)
    → drop 32 p ≡ c ∷ end
    → endlen ≤ length end
    → endlen ≤ 12
    → expand endlen p ≡ ok (take 32 p ++ (zeros (12 - endlen) ++ take endlen end))
unfolding expand fill_zeros
expand_lem endlen c p end e h l =
    let (d, n) = behind 32 p c end e in
    let fits : leb endlen 12 ≡ true = ground arith in
    rw (copy_bytes-ok 32 p (omega arith), fits, d, copy_bytes-ok endlen end h) refl

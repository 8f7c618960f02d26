-- ===== src/Unicode.antt =====
-- UTF-16 strings in binary rules: e2k_rule_append_unicode and e2k_rule_extract_unicode of
-- server/lib/e2k-rule.c.
pub mod RoundTrip
pub mod Safe
use evolution_exchange.Prelude.{
  ℕ, zero, suc, ◌+◌, ◌-◌, ◌*◌, ◌/◌, ◌%◌, ◌^◌, Bool, true, false, ◌&&◌, Option, none, some, List, [],
  ◌∷◌, ◌++◌, ◌==◌, if◌then◌else◌, Bytes, take, bit_or,
}
use evolution_exchange.Outcome.{Outcome, ok, failed, fault, ◌>>=◌}
use evolution_exchange.Platform.{Platform}
use evolution_exchange.Wire.{Cursor, Reader, advance, append_uint16, rounds}

-- The loop `for (i = 0; utf16[i]; i++)` and the terminator behind it.
unfoldable pub append_units : List ℕ → Bytes
append_units [] = append_uint16 0
append_units (u ∷ us) =
    let rest = append_units us in if u == 0 then append_uint16 0 else append_uint16 u ++ rest

-- The loop over `*ptr`, two bytes a round while `*ptr < end - 1`: it gives `*ptr - start` behind
-- the terminator.
unfoldable pub scan_unicode : ℕ → Bytes → Outcome ℕ
scan_unicode (suc (suc left)) (a ∷ b ∷ mem) =
    let rest = scan_unicode left mem >>= λ n. ok (n + 2) in if a == 0 && b == 0 then ok 2 else rest
scan_unicode (suc (suc left)) _ = fault
scan_unicode _ _ = failed

-- A `gunichar2` as the machine loads it.
unfoldable pub load_unit : Bool → ℕ → ℕ → ℕ
load_unit true a b = bit_or (a * 2 ^ 8) b
load_unit false a b = bit_or a (b * 2 ^ 8)

-- The units before the terminator, as g_utf16_to_utf8 reads them from the copied memory.
unfoldable pub load_units : Bool → Bytes → List ℕ
load_units big (a ∷ b ∷ mem) =
    let rest = load_units big mem in let u = load_unit big a b in if u == 0 then [] else u ∷ rest
load_units big _ = []

module _ (p : Platform) where
  -- Nothing is appended for a string that GLib rejects (g_return_if_fail).
  unfoldable pub append_unicode : Bytes → Bytes
  append_unicode str = elim (p.utf8_to_utf16 str) [ some us ↦ append_units us | none ↦ [] ]

  -- `none` is a NULL string: the call returns TRUE also where GLib rejects the units.
  unfoldable pub extract_unicode : Reader (Option Bytes)
  extract_unicode c = scan_unicode (rounds c.len) c.ptr >>= λ n.
      ok (p.utf16_to_utf8 (load_units p.big_endian (take n c.ptr)), advance n c)

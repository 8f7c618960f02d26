-- ===== src/Unicode/Safe.antt =====
-- The UTF-16 reader stays inside its array.
use evolution_exchange.Prelude.{
  ℕ, zero, suc, ◌+◌, ◌≤◌, Bool-cases, inl, inr, [], ◌∷◌, ◌==◌, ◌&&◌, Bytes, arith, length, take,
}
use evolution_exchange.Outcome.{Outcome, ok, failed, fault, starved, ◌>>=◌}
use evolution_exchange.Platform.{Platform}
use evolution_exchange.Wire.{window, advance}
use evolution_exchange.Wire.Safe.{Within, Within-weaken, advance-Within}
use evolution_exchange.Unicode.{scan_unicode, load_units, extract_unicode}

-- The terminator lies inside the length.
abbrev EndsWithin : ℕ → Outcome ℕ → Type 0
EndsWithin n (ok k) = (2 ≤ k) × (k ≤ n)
EndsWithin n failed = Unit {0}
EndsWithin n fault = ⊥
EndsWithin n starved = ⊥

EndsWithin-more :
    (n : ℕ) (o : Outcome ℕ) → EndsWithin n o → EndsWithin (suc (suc n)) (o >>= λ k. ok (k + 2))
EndsWithin-more n (ok k) h = (omega arith, omega arith)
EndsWithin-more n failed h = tt
EndsWithin-more n fault h = h
EndsWithin-more n starved h = h

scan_unicode-EndsWithin : (n : ℕ) (mem : Bytes) → n ≤ length mem → EndsWithin n (scan_unicode n mem)
unfolding scan_unicode
scan_unicode-EndsWithin zero mem h = tt
scan_unicode-EndsWithin (suc zero) mem h = tt
scan_unicode-EndsWithin (suc (suc n)) [] h = absurd (omega arith)
scan_unicode-EndsWithin (suc (suc n)) (a ∷ []) h = absurd (omega arith)
scan_unicode-EndsWithin (suc (suc n)) (a ∷ b ∷ mem) h = elim (Bool-cases (a == 0 && b == 0)) [
  | inl here ↦ rw here (omega arith, omega arith)
  | inr more ↦
      rw more (EndsWithin-more n (scan_unicode n mem) (scan_unicode-EndsWithin n mem (omega arith)))
]

unicode_end-Within :
    {A : Type 0} (f : ℕ → A) (o : Outcome ℕ) (ptr : Bytes) (n : ℕ)
    → n ≤ length ptr
    → EndsWithin n o
    → Within 2 n (o >>= λ k. ok (f k, advance k (window ptr n)))
unicode_end-Within f (ok k) ptr n inside h =
    Within-weaken k 2 n n (ok (f k, advance k (window ptr n)))
      (advance-Within (f k) k ptr n inside h.1) (omega arith)
unicode_end-Within f failed ptr n inside h = tt
unicode_end-Within f fault ptr n inside h = h
unicode_end-Within f starved ptr n inside h = h

-- From every length that lies inside the array, e2k_rule_extract_unicode fails or succeeds, looks
-- at no byte outside the array, and leaves a length inside it that is smaller by at least 2.
pub unicode-IsSafe :
    (p : Platform) (ptr : Bytes) (n : ℕ)
    → n ≤ length ptr
    → Within 2 n (extract_unicode p (window ptr n))
unfolding extract_unicode
unicode-IsSafe p ptr n inside =
    unicode_end-Within (λ k. p.utf16_to_utf8 (load_units p.big_endian (take k ptr)))
      (scan_unicode n ptr) ptr n inside (scan_unicode-EndsWithin n ptr inside)

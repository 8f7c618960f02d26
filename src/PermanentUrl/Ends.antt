-- ===== src/PermanentUrl/Ends.antt =====
-- The loop of e2k_permanenturl_to_entryid in server/lib/e2k-utils.c ends.
use evolution_exchange.PermanentUrl.Buffer.{expand_lem, hex_span-length}
use evolution_exchange.Prelude.{
  ℕ, zero, suc, ◌<◌, ◌≤◌, Bool-cases, inl, inr, Option, none, some, [], ◌∷◌, ◌++◌, ◌==◌, ltb, Bytes,
  length, length-drop, drop, arith, ◌≡◌, refl, ltb→le,
}
use evolution_exchange.Outcome.{Outcome, ok, failed, fault, starved, ◌>>=◌}
use evolution_exchange.PermanentUrl.{
  hex_span, after_digits, append_entryid_section, append_sections, permanenturl_to_entryid,
  permanenturl_infix, strstr,
}

-- The call returns, and what it leaves of the string is no longer than `n`.
abbrev LeavesAtMost : ℕ → Outcome (Bytes × Bytes) → Type 0
LeavesAtMost n (ok (bytes, rest)) = length rest ≤ n
LeavesAtMost n failed = Unit {0}
LeavesAtMost n fault = ⊥
LeavesAtMost n starved = ⊥

after_digits-LeavesAtMost :
    (p s : Bytes) → drop 32 p ≡ s → LeavesAtMost (length s) (after_digits p s)
unfolding after_digits
after_digits-LeavesAtMost p [] q = tt
after_digits-LeavesAtMost p (c ∷ end) q = elim (Bool-cases (c == b'-')) [
  | inl e ↦ rw e (elim (Bool-cases (ltb 6 (hex_span end))) [
    | inl l ↦ rw l tt
    | inr l ↦
        let x =
          expand_lem (hex_span end) c p end q (hex_span-length end)
            (ground (arith, ltb→le 6 (hex_span end) l)) in
        rw (l, x) (omega (arith, length-drop (hex_span end) end))
  ])
  | inr e ↦ rw e tt
]

shorter : (m n : ℕ) (o : Outcome (Bytes × Bytes)) → m ≤ n → LeavesAtMost m o → LeavesAtMost n o
shorter m n (ok (bytes, rest)) h k = omega arith
shorter m n failed h k = tt
shorter m n fault h k = k
shorter m n starved h k = k

section-LeavesAtMost : (s : Bytes) → LeavesAtMost (length s) (append_entryid_section s)
unfolding append_entryid_section
section-LeavesAtMost s = elim (Bool-cases (hex_span s == 32)) [
  | inl e ↦ rw e (
      shorter (length (drop 32 s)) (length s) (after_digits s (drop 32 s))
        (omega (arith, length-drop 32 s)) (after_digits-LeavesAtMost s (drop 32 s) refl))
  | inr e ↦ rw e tt
]

-- The call returns, with an entry id or NULL, reads nothing outside its string, writes
-- nothing outside its buffer, and needs no more fuel.
abbrev pub Returns : Outcome Bytes → Type 0
Returns (ok bytes) = Unit {0}
Returns failed = Unit {0}
Returns fault = ⊥
Returns starved = ⊥

Returns-ok :
    (o : Outcome Bytes) (bytes : Bytes) → Returns o → Returns (o >>= λ more. ok (bytes ++ more))
Returns-ok (ok more) bytes h = tt
Returns-ok failed bytes h = tt
Returns-ok fault bytes h = h
Returns-ok starved bytes h = h

go_on :
    (fuel n : ℕ) (o : Outcome (Bytes × Bytes))
    → LeavesAtMost n o
    → ((rest : Bytes) → length rest ≤ n → Returns (append_sections fuel rest))
    → Returns (o >>= λ (bytes, rest). append_sections fuel rest >>= λ more. ok (bytes ++ more))
go_on fuel n (ok (bytes, rest)) k next = Returns-ok (append_sections fuel rest) bytes (next rest k)
go_on fuel n failed k next = tt
go_on fuel n fault k next = k
go_on fuel n starved k next = k

append_sections-Returns :
    (fuel : ℕ) (s : Bytes) → length s < fuel → Returns (append_sections fuel s)
unfolding append_sections
append_sections-Returns zero s h = absurd (omega arith)
append_sections-Returns (suc fuel) [] h = tt
append_sections-Returns (suc fuel) (c ∷ s) h = elim (Bool-cases (c == b'/')) [
  | inl e ↦ rw e (
      go_on fuel (length s) (append_entryid_section s) (section-LeavesAtMost s)
        (λ rest l. append_sections-Returns fuel rest (omega arith)))
  | inr e ↦ rw e tt
]

-- For every url e2k_permanenturl_to_entryid returns an entry id or NULL: its loop ends, what it
-- copies is copied from inside the string, and it writes nothing outside the 44 bytes of its
-- buffer.
pub permanenturl_to_entryid-Returns : (url : Bytes) → Returns (permanenturl_to_entryid url)
unfolding permanenturl_to_entryid
permanenturl_to_entryid-Returns url = found (strstr url permanenturl_infix)
  where
    found :
        (r : Option Bytes)
        → Returns (elim r [
          | none ↦ failed
          | some s ↦ append_sections (suc (length s)) (drop (length permanenturl_infix) s)
        ])
    found none = tt
    found (some s) =
        append_sections-Returns (suc (length s)) (drop (length permanenturl_infix) s)
          (omega (arith, length-drop (length permanenturl_infix) s))

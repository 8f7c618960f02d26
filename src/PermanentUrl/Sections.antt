-- ===== src/PermanentUrl/Sections.antt =====
-- Which sections of a permanent url are read back: those whose last part has at most six digits.
use evolution_exchange.PermanentUrl.Buffer.{expand_lem, hex_span-length}
use evolution_exchange.Prelude.{
  ℕ, ◌-◌, ◌/◌, ◌%◌, ◌<◌, ◌≡◌, refl, ap, ap₂, sym, ◌∙◌, Bool, true, false, [], ◌∷◌, ◌++◌,
  append_assoc, ltb, if◌then◌else◌, Bytes, length, take, drop, All-append, take-append, drop-append,
  arith, Bool-cases, inl, inr, ltb→le,
}
use evolution_exchange.Outcome.{Outcome, ok, failed}
use evolution_exchange.Props.{hex_digit, hex_value}
use evolution_exchange.Time.{zeros}
use evolution_exchange.PermanentUrl.{
  hex_pairs, append_permanenturl_section, hex_span, from_pairs, append_entryid_section,
  after_digits,
}
use evolution_exchange.PermanentUrl.Digits.{
  AreBytes, from_pairs-hex_pairs, hex_span-pairs, length-hex_pairs, digits, digits-expand,
  hex_span-digits, is_short, is_short-digits,
}

take_at : (n : ℕ) (xs ys : Bytes) → length xs ≡ n → take n (xs ++ ys) ≡ xs
take_at n xs ys h = ap (λ k. take k (xs ++ ys)) (sym h) ∙ take-append xs ys

drop_at : (n : ℕ) (xs ys : Bytes) → length xs ≡ n → drop n (xs ++ ys) ≡ ys
drop_at n xs ys h = ap (λ k. drop k (xs ++ ys)) (sym h) ∙ drop-append xs ys

hex_span-dash : (s : Bytes) → hex_span (b'-' ∷ s) ≡ 0
unfolding hex_span hex_value
hex_span-dash s = refl

hex_pairs-append : (xs ys : Bytes) → hex_pairs (xs ++ ys) ≡ hex_pairs xs ++ hex_pairs ys
unfolding hex_pairs
hex_pairs-append [] ys = refl
hex_pairs-append (x ∷ xs) ys =
    ap (λ t. hex_digit (x / 16) ∷ hex_digit (x % 16) ∷ t) (hex_pairs-append xs ys)

flip :
    {A : Type 0} (b : Bool) (x y : A)
    → (if (if b then false else true) then x else y) ≡ (if b then y else x)
flip true x y = refl
flip false x y = refl

-- What is done with 32 digits, a dash and a string behind it.
abbrev last_digits : Bytes → Bytes → Outcome (Bytes × Bytes)
last_digits xs s =
    if ltb 6 (hex_span s)
    then failed
    else ok
        (from_pairs (xs ++ (zeros (12 - hex_span s) ++ take (hex_span s) s)), drop (hex_span s) s)

section_at_dash :
    (xs s : Bytes)
    → length xs ≡ 32
    → hex_span (xs ++ b'-' ∷ s) ≡ 32
    → append_entryid_section (xs ++ b'-' ∷ s) ≡ last_digits xs s
unfolding append_entryid_section after_digits
section_at_dash xs s h e = rw e (
    ap (after_digits (xs ++ b'-' ∷ s)) (drop_at 32 xs (b'-' ∷ s) h)
    ∙ elim (Bool-cases (ltb 6 (hex_span s))) [
      | inl l ↦ rw l refl
      | inr l ↦
          let x =
            expand_lem (hex_span s) b'-' (xs ++ b'-' ∷ s) s (drop_at 32 xs (b'-' ∷ s) h)
              (hex_span-length s) (ground (arith, ltb→le 6 (hex_span s) l)) in
          rw (l, x, take_at 32 xs (b'-' ∷ s) h) refl
    ])

module _ (key : Bytes) (a b c d e f : ℕ) (rest : Bytes) where
  abbrev tail : Bytes
  tail = a ∷ b ∷ c ∷ d ∷ e ∷ f ∷ []

  section_text :
      length key ≡ 16
      → append_permanenturl_section (key ++ tail) ≡ hex_pairs key ++ b'-' ∷ digits tail
  unfolding append_permanenturl_section
  section_text h =
      ap₂ (λ xs ys. hex_pairs xs ++ b'-' ∷ digits (take 6 ys)) (take_at 16 key tail h)
        (drop_at 16 key tail h)

  both_parts :
      AreBytes key → AreBytes tail → from_pairs (hex_pairs key ++ hex_pairs tail) ≡ key ++ tail
  both_parts k t =
      ap from_pairs (sym (hex_pairs-append key tail))
      ∙ from_pairs-hex_pairs (key ++ tail) (All-append (λ b. b < 256) key tail k t)

  whole_section :
      hex_span (digits tail ++ rest) ≡ length (digits tail)
      → AreBytes key
      → AreBytes tail
      → last_digits (hex_pairs key) (digits tail ++ rest)
        ≡ (if is_short tail then ok (key ++ tail, rest) else failed)
  whole_section span k t =
      ap
        (λ n.
          if ltb 6 n
          then failed
          else ok (
            from_pairs (hex_pairs key ++ (zeros (12 - n) ++ take n (digits tail ++ rest))),
            drop n (digits tail ++ rest),
          ))
        span
      ∙ (ap₂
            (λ u v.
              answer (from_pairs (hex_pairs key ++ (zeros (12 - length (digits tail)) ++ u)), v))
            (take-append (digits tail) rest) (drop-append (digits tail) rest)
          ∙ (ap (λ u. answer (from_pairs (hex_pairs key ++ u), rest)) (digits-expand tail t)
              ∙ (ap (λ u. answer (u, rest)) (both_parts k t)
                  ∙ (ap (λ b. if b then failed else ok (key ++ tail, rest))
                        (is_short-digits a b c d e f)
                      ∙ flip (is_short tail) failed (ok (key ++ tail, rest))))))
    where
      answer : Bytes × Bytes → Outcome (Bytes × Bytes)
      answer r = if ltb 6 (length (digits tail)) then failed else ok r

  -- The section of a permanent url that is made of 22 bytes, with no digit behind it, is read
  -- back if the 17th to the 19th byte are zero, and refused otherwise.
  append_entryid_section-append_permanenturl_section :
      length key ≡ 16
      → AreBytes key
      → AreBytes tail
      → hex_span rest ≡ 0
      → append_entryid_section (append_permanenturl_section (key ++ tail) ++ rest)
        ≡ (if is_short tail then ok (key ++ tail, rest) else failed)
  append_entryid_section-append_permanenturl_section h k t r =
      ap (λ s. append_entryid_section (s ++ rest)) (section_text h)
      ∙ (ap append_entryid_section (append_assoc (hex_pairs key) (b'-' ∷ digits tail) rest)
          ∙ (section_at_dash (hex_pairs key) (digits tail ++ rest)
                (omega (arith, length-hex_pairs key))
                (hex_span-pairs key (b'-' ∷ (digits tail ++ rest)) k
                  ∙ omega (arith, length-hex_pairs key, hex_span-dash (digits tail ++ rest)))
              ∙ whole_section (hex_span-digits tail rest t r) k t))

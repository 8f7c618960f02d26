-- ===== src/Sid/Decimal.antt =====
-- Decimal numbers as printf writes them and strtoul reads them, in server/lib/e2k-sid.c.
use evolution_exchange.Prelude.{
  ℕ, zero, suc, ◌+◌, ◌*◌, ◌/◌, ◌%◌, ◌^◌, ◌<◌, ◌≤◌, true, false, [], ◌∷◌, ◌++◌, ltb, ◌==◌, Bytes,
  ◌≡◌, refl, sym, ap, ◌∙◌, arith, append_assoc, Bool-cases, inl, inr, ltb→lt, ltb→le, lt→ltb,
  length, le→ltb, length-append,
}
use native.Mathlib.Nat.{pow-suc}
use evolution_exchange.Props.{is_space, skip_spaces}
use evolution_exchange.Sid.{
  print_digits, print_decimal, is_digit, read_digits, unsigned_decimal, signed_decimal,
  strtoul_decimal, count_dashes,
}

read_digit :
    (acc d : ℕ) (s : Bytes)
    → d < 10
    → read_digits acc ((b'0' + d) ∷ s) ≡ read_digits (acc * 10 + d) s
unfolding read_digits is_digit
read_digit acc d s h = ground arith

read_digits-print :
    (digits n : ℕ) (s : Bytes)
    → n < 10 ^ digits
    → read_digits 0 (print_digits digits n ++ s) ≡ read_digits n s
unfolding print_digits
read_digits-print zero n s h = ap (λ k. read_digits k s) (omega arith)
read_digits-print (suc digits) n s h = elim (Bool-cases (ltb n 10)) [
  | inl e ↦ rw e (read_digit 0 n s (ltb→lt n 10 e) ∙ ap (λ k. read_digits k s) (omega arith))
  | inr e ↦
      rw (e, append_assoc (print_digits digits (n / 10)) ((b'0' + n % 10) ∷ []) s)
        (read_digits-print digits (n / 10) ((b'0' + n % 10) ∷ s) (omega (arith, pow-suc 10 digits))
          ∙ read_digit (n / 10) (n % 10) s (omega arith)
          ∙ ap (λ k. read_digits k s) (omega arith))
]

-- The text goes on with something that is no digit.
abbrev pub Ends : Bytes → Type 0
Ends [] = Unit {0}
Ends (c ∷ s) = is_digit c ≡ false

read_digits-Ends : (n : ℕ) (s : Bytes) → Ends s → read_digits n s ≡ (n, s)
unfolding read_digits
read_digits-Ends n [] h = refl
read_digits-Ends n (c ∷ s) h = rw h refl

-- What is printed starts with a digit.
print_digits-head :
    (digits n : ℕ)
    → (c : ℕ) × (t : Bytes) × (print_digits (suc digits) n ≡ c ∷ t) × (is_digit c ≡ true)
unfolding print_digits is_digit
print_digits-head zero n = elim (Bool-cases (ltb n 10)) [
  | inl e ↦ (b'0' + n, [], rw e refl, ground (arith, ltb→lt n 10 e))
  | inr e ↦ (b'0' + n % 10, [], rw e refl, ground (arith, ltb→le n 10 e))
]
print_digits-head (suc digits) n = elim (Bool-cases (ltb n 10)) [
  | inl e ↦ (b'0' + n, [], rw e refl, ground (arith, ltb→lt n 10 e))
  | inr e ↦
      let (c, t, p, d) = print_digits-head digits (n / 10) in
      (c, t ++ (b'0' + n % 10) ∷ [], rw e (ap (λ r. r ++ (b'0' + n % 10) ∷ []) p), d)
]

digit_facts :
    (c : ℕ)
    → is_digit c ≡ true
    → (is_space c ≡ false) × ((c == b'-') ≡ false) × ((c == b'+') ≡ false)
unfolding is_digit is_space
digit_facts c h = (ground arith, ground arith, ground arith)

strtoul_decimal_lem :
    (c : ℕ) (t s : Bytes) (n : ℕ)
    → is_digit c ≡ true
    → read_digits 0 (c ∷ t) ≡ (n, s)
    → n < 2 ^ 64
    → strtoul_decimal (c ∷ t) ≡ (n, s)
unfolding strtoul_decimal signed_decimal unsigned_decimal skip_spaces
strtoul_decimal_lem c t s n d r h =
    let (x, y, z) = digit_facts c d in rw (x, y, z, r, d, lt→ltb n (2 ^ 64) h) refl

pub strtoul_decimal-print_decimal :
    (n : ℕ) (s : Bytes) → n < 2 ^ 32 → Ends s → strtoul_decimal (print_decimal n ++ s) ≡ (n, s)
unfolding print_decimal
strtoul_decimal-print_decimal n s h g =
    let (c, t, p, d) = print_digits-head 9 n in
    let r = read_digits-print 10 n s (omega arith) ∙ read_digits-Ends n s g in
    ap (λ x. strtoul_decimal (x ++ s)) p
    ∙ strtoul_decimal_lem c (t ++ s) s n d (sym (ap (λ x. read_digits 0 (x ++ s)) p) ∙ r)
        (omega arith)

digit_dashes : (d : ℕ) (s : Bytes) → d < 10 → count_dashes ((b'0' + d) ∷ s) ≡ count_dashes s
unfolding count_dashes
digit_dashes d s h = ground arith

count_dashes-print_digits :
    (digits n : ℕ) (s : Bytes) → count_dashes (print_digits digits n ++ s) ≡ count_dashes s
unfolding print_digits
count_dashes-print_digits zero n s = refl
count_dashes-print_digits (suc digits) n s = elim (Bool-cases (ltb n 10)) [
  | inl e ↦ rw e (digit_dashes n s (ltb→lt n 10 e))
  | inr e ↦
      rw (e, append_assoc (print_digits digits (n / 10)) ((b'0' + n % 10) ∷ []) s)
        (count_dashes-print_digits digits (n / 10) ((b'0' + n % 10) ∷ s)
          ∙ digit_dashes (n % 10) s (omega arith))
]

pub count_dashes-print_decimal :
    (n : ℕ) (s : Bytes) → count_dashes (print_decimal n ++ s) ≡ count_dashes s
unfolding print_decimal
count_dashes-print_decimal n s = count_dashes-print_digits 10 n s

pub length-print_decimal : (n : ℕ) → 1 ≤ length (print_decimal n)
unfolding print_decimal
length-print_decimal n = let (c, t, p, d) = print_digits-head 9 n in rw p (omega arith)

pub print_decimal_long : (n : ℕ) → 10 ≤ n → 2 ≤ length (print_decimal n)
unfolding print_decimal print_digits
print_decimal_long n h =
    let (c, t, p, d) = print_digits-head 8 (n / 10) in
    rw (le→ltb n 10 h, p) (omega (arith, length-append (c ∷ t) ((b'0' + n % 10) ∷ [])))

-- ===== src/PermanentUrl/Digits.antt =====
-- The digits of a section of a permanent url, as e2k_entryid_to_permanenturl of
-- server/lib/e2k-utils.c writes them and e2k_permanenturl_to_entryid counts and reads them.
use evolution_exchange.Prelude.{
  ℕ, zero, suc, ◌+◌, ◌-◌, ◌*◌, ◌/◌, ◌%◌, ◌<◌, ◌≤◌, ◌≡◌, ◌≢◌, refl, ap, ap₂, sym, ◌∙◌, All, Bool,
  true, false, ◌&&◌, some, [], ◌∷◌, ◌++◌, ◌==◌, ltb, if◌then◌else◌, Bytes, length, arith,
  Bool-cases, ne→==, inl, inr, ltb→le,
}
use evolution_exchange.Props.{hex_digit, hex_value}
use evolution_exchange.Time.{zeros}
use evolution_exchange.PermanentUrl.{hex_pairs, skip_zeros, last_part, hex_span, hexval, from_pairs}

abbrev pub AreBytes : Bytes → Type 0
AreBytes = All (λ b. b < 256)

pub hexval_facts : (d : ℕ) → d < 16 → (hex_value (hex_digit d) ≡ some d)
unfolding hex_digit hex_value
hexval_facts d h = ground arith

pub hexval-hex_digit : (d : ℕ) → d < 16 → hexval (hex_digit d) ≡ d
unfolding hexval
hexval-hex_digit d h = rw (hexval_facts d h, hexval) refl

pub from_pairs-hex_pairs : (bs : Bytes) → AreBytes bs → from_pairs (hex_pairs bs) ≡ bs
unfolding from_pairs hex_pairs
from_pairs-hex_pairs [] h = refl
from_pairs-hex_pairs (b ∷ bs) h =
    rw
      (
        hexval-hex_digit (b / 16) (omega arith),
        hexval-hex_digit (b % 16) (omega arith),
        from_pairs-hex_pairs bs h.1,
      )
      (ap (λ n. n ∷ bs) (omega arith))

hex_span-digit : (d : ℕ) (s : Bytes) → d < 16 → hex_span (hex_digit d ∷ s) ≡ suc (hex_span s)
unfolding hex_span
hex_span-digit d s h = rw (hexval_facts d h, hex_span) refl

pub hex_span-pairs :
    (bs s : Bytes) → AreBytes bs → hex_span (hex_pairs bs ++ s) ≡ length (hex_pairs bs) + hex_span s
unfolding hex_pairs
hex_span-pairs [] s h = omega arith
hex_span-pairs (b ∷ bs) s h =
    rw
      (
        hex_span-digit (b / 16) _ (omega arith),
        hex_span-digit (b % 16) (hex_pairs bs ++ s) (omega arith),
      )
      (omega (arith, hex_span-pairs bs s h.1))

pub length-hex_pairs : (bs : Bytes) → length (hex_pairs bs) ≡ 2 * length bs
unfolding hex_pairs
length-hex_pairs [] = omega arith
length-hex_pairs (b ∷ bs) = omega (arith, length-hex_pairs bs)

-- The digits of the last part.
abbrev pub digits : Bytes → Bytes
digits t = last_part (skip_zeros t)

digits-small : (b : ℕ) (t : Bytes) → 0 < b → b < 16 → digits (b ∷ t) ≡ hex_digit b ∷ hex_pairs t
unfolding skip_zeros last_part
digits-small b t h k = rw (ne→== b 0 (omega arith), less b k) refl
  where
    less : (n : ℕ) → n < 16 → ltb n 16 ≡ true
    less n l = ground arith

digits-large : (b : ℕ) (t : Bytes) → 16 ≤ b → digits (b ∷ t) ≡ hex_pairs (b ∷ t)
unfolding skip_zeros last_part
digits-large b t h = rw (ne→== b 0 (omega arith), more b h) refl
  where
    more : (n : ℕ) → 16 ≤ n → ltb n 16 ≡ false
    more n l = ground arith

-- Zero, one digit or two.
data Size (b : ℕ) : Type 0 where
  none_ : b ≡ 0 → Size b
  small : 0 < b → b < 16 → Size b
  large : 16 ≤ b → Size b

Size-of : (b : ℕ) → Size b
Size-of zero = none_ refl
Size-of (suc b) = elim (Bool-cases (ltb (suc b) 16)) [
  | inl e ↦ small (omega arith) (ground arith)
  | inr e ↦ large (ltb→le (suc b) 16 e)
]

digits-zero : (b : ℕ) (t : Bytes) → b ≡ 0 → digits (b ∷ t) ≡ digits t
unfolding skip_zeros
digits-zero b t e = rw e refl

-- The last part has at most the digits of the plain form.
digits-short : (t : Bytes) → length (digits t) ≤ 2 * length t
unfolding skip_zeros last_part
digits-short [] = omega arith
digits-short (b ∷ t) = elim (Size-of b) [
  | none_ e ↦ omega (arith, digits-short t, ap length (digits-zero b t e))
  | small h k ↦ omega (arith, ap length (digits-small b t h k), length-hex_pairs t)
  | large h ↦ omega (arith, ap length (digits-large b t h), length-hex_pairs (b ∷ t))
]

-- With zeros in front it is the plain form.
pub digits-expand :
    (t : Bytes) → AreBytes t → zeros (2 * length t - length (digits t)) ++ digits t ≡ hex_pairs t
unfolding hex_pairs zeros skip_zeros last_part hex_digit
digits-expand [] h = refl
digits-expand (b ∷ t) h = elim (Size-of b) [
  | none_ e ↦
      rw (digits-zero b t e, two_more)
        (ap (λ z. hex_digit 0 ∷ hex_digit 0 ∷ z) (digits-expand t h.1)
          ∙ ap (λ n. hex_digit (n / 16) ∷ hex_digit (n % 16) ∷ hex_pairs t) (sym e))
  | small l k ↦
      rw (digits-small b t l k, one_more)
        (ap₂ (λ x y. hex_digit x ∷ hex_digit y ∷ hex_pairs t) (high k) (low k))
  | large l ↦ rw (digits-large b t l, no_more) refl
]
  where
    high : b < 16 → 0 ≡ b / 16
    high k = omega arith

    low : b < 16 → b ≡ b % 16
    low k = omega arith

    two_more : 2 * suc (length t) - length (digits t) ≡ suc (suc (2 * length t - length (digits t)))
    two_more = omega (arith, digits-short t)

    one_more : 2 * suc (length t) - suc (length (hex_pairs t)) ≡ suc zero
    one_more = omega (arith, length-hex_pairs t)

    no_more : 2 * suc (length t) - length (hex_pairs (b ∷ t)) ≡ zero
    no_more = omega (arith, length-hex_pairs (b ∷ t))

pub hex_span-digits :
    (t s : Bytes) → AreBytes t → hex_span s ≡ 0 → hex_span (digits t ++ s) ≡ length (digits t)
unfolding skip_zeros last_part
hex_span-digits [] s h e = e
hex_span-digits (b ∷ t) s h e = elim (Size-of b) [
  | none_ z ↦ rw (digits-zero b t z) (hex_span-digits t s h.1 e)
  | small l k ↦
      rw (digits-small b t l k, hex_span-digit b (hex_pairs t ++ s) k)
        (omega (arith, hex_span-pairs t s h.1))
  | large l ↦ rw (digits-large b t l) (omega (arith, hex_span-pairs (b ∷ t) s h))
]

-- At least as many digits as the bytes from a nonzero one on need.
digits-long : (b : ℕ) (t : Bytes) → b ≢ 0 → 2 * length t < length (digits (b ∷ t))
digits-long b t h = elim (Size-of b) [
  | none_ e ↦ absurd (h e)
  | small l k ↦ omega (arith, ap length (digits-small b t l k), length-hex_pairs t)
  | large l ↦ omega (arith, ap length (digits-large b t l), length-hex_pairs (b ∷ t))
]

-- Are the first three bytes zero?
abbrev pub is_short : Bytes → Bool
is_short (a ∷ b ∷ c ∷ t) = a == 0 && (b == 0 && c == 0)
is_short _ = true

few : (n : ℕ) → n ≤ 6 → ltb 6 n ≡ false
few n h = ground arith

many : (n : ℕ) → 6 < n → ltb 6 n ≡ true
many n h = ground arith

three : (d e f : ℕ) → ltb 6 (length (digits (d ∷ e ∷ f ∷ []))) ≡ false
three d e f = few (length (digits (d ∷ e ∷ f ∷ []))) (omega (arith, digits-short (d ∷ e ∷ f ∷ [])))

-- Six digits are exceeded if one of the first three bytes is not zero.
pub is_short-digits :
    (a b c d e f : ℕ)
    → ltb 6 (length (digits (a ∷ b ∷ c ∷ d ∷ e ∷ f ∷ [])))
      ≡ (if is_short (a ∷ b ∷ c ∷ d ∷ e ∷ f ∷ []) then false else true)
is_short-digits (suc a) b c d e f =
    many (length (digits (suc a ∷ b ∷ c ∷ d ∷ e ∷ f ∷ [])))
      (omega (arith, digits-long (suc a) (b ∷ c ∷ d ∷ e ∷ f ∷ []) (λ z. absurd (omega arith))))
    ∙ ground arith
is_short-digits zero (suc b) c d e f = rw (digits-zero 0 (suc b ∷ c ∷ d ∷ e ∷ f ∷ []) refl) (
    many (length (digits (suc b ∷ c ∷ d ∷ e ∷ f ∷ [])))
      (omega (arith, digits-long (suc b) (c ∷ d ∷ e ∷ f ∷ []) (λ z. absurd (omega arith))))
    ∙ ground arith)
is_short-digits zero zero (suc c) d e f =
    ap (λ t. ltb 6 (length t))
      (digits-zero 0 (zero ∷ suc c ∷ d ∷ e ∷ f ∷ []) refl
        ∙ digits-zero 0 (suc c ∷ d ∷ e ∷ f ∷ []) refl)
    ∙ (many (length (digits (suc c ∷ d ∷ e ∷ f ∷ [])))
          (omega (arith, digits-long (suc c) (d ∷ e ∷ f ∷ []) (λ z. absurd (omega arith))))
        ∙ ground arith)
is_short-digits zero zero zero d e f =
    ap (λ t. ltb 6 (length t))
      (digits-zero 0 (zero ∷ zero ∷ d ∷ e ∷ f ∷ []) refl
        ∙ (digits-zero 0 (zero ∷ d ∷ e ∷ f ∷ []) refl ∙ digits-zero 0 (d ∷ e ∷ f ∷ []) refl))
    ∙ three d e f

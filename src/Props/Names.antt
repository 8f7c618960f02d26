-- ===== src/Props/Names.antt =====
-- The name that is made for a proptag is one that gives this proptag.
use evolution_exchange.Prelude.{
  ℕ, ◌+◌, ◌*◌, ◌/◌, ◌%◌, ◌^◌, ◌<◌, ◌≡◌, refl, ap, ◌∙◌, false, none, some, [], ◌∷◌, ◌++◌, ◌==◌,
  Bytes, codes, arith, ==-self, All,
}
use evolution_exchange.Outcome.{ok}
use evolution_exchange.Props.{
  strrchr, get_div, prop_property_name, is_space, hex_value, skip_spaces, hex_digits, skip_0x,
  strtoul_unsigned, strtoul_signed, strtoul, short_name_proptag, prop_proptag, hex_digit, hex8,
  ns_mapi_proptag, proptag_prop,
}

-- What the scanners of strtoul need of a printed digit.
hex_digit_facts :
    (d : ℕ)
    → d < 16
    → (hex_value (hex_digit d) ≡ some d)
      × (is_space (hex_digit d) ≡ false)
      × ((hex_digit d == b'-') ≡ false)
      × ((hex_digit d == b'+') ≡ false)
      × ((hex_digit d == b'x') ≡ false)
      × ((hex_digit d == b'X') ≡ false)
      × ((hex_digit d == b'/') ≡ false)
unfolding hex_digit hex_value is_space
hex_digit_facts d h = ground arith

hex_digits-cons :
    (acc d : ℕ) (s : Bytes)
    → d < 16
    → hex_digits acc (hex_digit d ∷ s) ≡ hex_digits (acc * 16 + d) s
unfolding hex_digits
hex_digits-cons acc d s h = rw ((hex_digit_facts d h).0, hex_digits)

hex_digits-nil : (acc : ℕ) → hex_digits acc [] ≡ acc
unfolding hex_digits
hex_digits-nil acc = refl

hex_digits-hex8 : (n : ℕ) → n < 2 ^ 32 → hex_digits 0 (hex8 n) ≡ n
unfolding hex8
hex_digits-hex8 n h =
    simp
      (
        hex_digits-cons 0 ((n / 2 ^ 28) % 16) _ (omega arith),
        hex_digits-cons _ ((n / 2 ^ 24) % 16) _ (omega arith),
        hex_digits-cons _ ((n / 2 ^ 20) % 16) _ (omega arith),
        hex_digits-cons _ ((n / 2 ^ 16) % 16) _ (omega arith),
        hex_digits-cons _ ((n / 2 ^ 12) % 16) _ (omega arith),
        hex_digits-cons _ ((n / 2 ^ 8) % 16) _ (omega arith),
        hex_digits-cons _ ((n / 2 ^ 4) % 16) _ (omega arith),
        hex_digits-cons _ (n % 16) _ (omega arith),
      )
      (hex_digits-nil _ ∙ omega arith)

pub strrchr-append :
    (p s : Bytes) (c : ℕ) → strrchr s c ≡ none → strrchr (p ++ c ∷ s) c ≡ some (c ∷ s)
unfolding strrchr
strrchr-append [] s c h = rw (h, ==-self c)
strrchr-append (b ∷ p) s c h = rw (strrchr-append p s c h)

strrchr-none : (s : Bytes) (c : ℕ) → All (λ b. (b == c) ≡ false) s → strrchr s c ≡ none
unfolding strrchr
strrchr-none [] c h = refl
strrchr-none (b ∷ s) c h = rw (strrchr-none s c h.1, h.0)

skip_0x_digit :
    (a b : ℕ) (s : Bytes)
    → (b == b'x') ≡ false
    → (b == b'X') ≡ false
    → skip_0x (a ∷ b ∷ s) ≡ a ∷ b ∷ s
unfolding skip_0x
skip_0x_digit a b s lower upper = ground arith

strtoul_unsigned-hex8 : (n : ℕ) → n < 2 ^ 32 → strtoul_unsigned (hex8 n) ≡ n
unfolding strtoul_unsigned
strtoul_unsigned-hex8 n h = rw (no_prefix, hex_digits-hex8 n h) (ground arith)
  where
    second : (d : ℕ) → d < 16 → ((hex_digit d == b'x') ≡ false) × ((hex_digit d == b'X') ≡ false)
    second d h = let f = hex_digit_facts d h in (f.4, f.5)

    no_prefix : skip_0x (hex8 n) ≡ hex8 n
    no_prefix =
        let f = second ((n / 2 ^ 24) % 16) (omega arith) in
        unfold hex8 in skip_0x_digit _ _ _ f.0 f.1

-- A text that begins with neither a space nor a sign.
strtoul_plain :
    (c : ℕ) (s : Bytes)
    → is_space c ≡ false
    → (c == b'-') ≡ false
    → (c == b'+') ≡ false
    → strtoul (c ∷ s) ≡ strtoul_unsigned (c ∷ s)
unfolding strtoul strtoul_signed skip_spaces
strtoul_plain c s space minus plus = rw (space, minus, plus)

strtoul-hex8 : (n : ℕ) → n < 2 ^ 32 → strtoul (hex8 n) ≡ n
strtoul-hex8 n h = plain ∙ strtoul_unsigned-hex8 n h
  where
    first :
        (d : ℕ)
        → d < 16
        → (is_space (hex_digit d) ≡ false)
          × ((hex_digit d == b'-') ≡ false)
          × ((hex_digit d == b'+') ≡ false)
    first d h = let f = hex_digit_facts d h in (f.1, f.2, f.3)

    plain : strtoul (hex8 n) ≡ strtoul_unsigned (hex8 n)
    plain =
        let f = first ((n / 2 ^ 28) % 16) (omega arith) in
        unfold hex8 in strtoul_plain _ _ f.0 f.1 f.2

hex8-no_slash : (n : ℕ) → All (λ b. (b == b'/') ≡ false) (hex8 n)
unfolding hex8
hex8-no_slash n =
    let all : (d : ℕ) → ((d % 16) < 16) = λ d. omega arith in
    (
      digit _ (all _),
      (
        digit _ (all _),
        (
          digit _ (all _),
          (
            digit _ (all _),
            (digit _ (all _), (digit _ (all _), (digit _ (all _), (digit _ (all _), tt)))),
          ),
        ),
      ),
    )
  where
    digit : (d : ℕ) → d < 16 → (hex_digit d == b'/') ≡ false
    digit d h = (hex_digit_facts d h).6

prop_property_name-proptag_prop : (n : ℕ) → prop_property_name (proptag_prop n) ≡ ok (b'x' ∷ hex8 n)
unfolding prop_property_name get_div proptag_prop
prop_property_name-proptag_prop n = rw (slash, prop_property_name)
  where
    host : Bytes
    host = codes "http://schemas.microsoft.com/mapi/proptag"

    slash : strrchr (proptag_prop n) b'/' ≡ some (b'/' ∷ b'x' ∷ hex8 n)
    slash =
        unfold ns_mapi_proptag in
        strrchr-append host (b'x' ∷ hex8 n) b'/' (strrchr-none _ b'/' (refl, hex8-no_slash n))

-- The tag of the name that e2k_proptag_prop makes for a 32-bit tag is that tag.
pub prop_proptag-proptag_prop : (n : ℕ) → n < 2 ^ 32 → prop_proptag (proptag_prop n) ≡ ok n
unfolding prop_proptag
prop_proptag-proptag_prop n h = rw (prop_property_name-proptag_prop n) (ap ok tag)
  where
    tag : short_name_proptag (b'x' ∷ hex8 n) ≡ n
    tag = unfold short_name_proptag in rw (strtoul-hex8 n h) (omega arith)

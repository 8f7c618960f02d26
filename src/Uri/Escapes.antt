-- ===== src/Uri/Escapes.antt =====
-- Escaped strings of server/lib/e2k-uri.c are decoded to what they stand for.
use evolution_exchange.Prelude.{
  ℕ, ◌/◌, ◌%◌, ◌<◌, ◌≤◌, ◌≡◌, ◌≢◌, refl, ap, ◌∙◌, true, false, ◌&&◌, Bool-cases, inl, inr, Option,
  [], ◌∷◌, ◌++◌, ◌==◌, ne→==, Bytes, length, arith,
}
use evolution_exchange.Props.{hex_digit}
use evolution_exchange.PermanentUrl.Digits.{AreBytes, hexval_facts, hexval-hex_digit}
use evolution_exchange.Uri.{
  is_xdigit, uri_decode, uri_encoded_char, entry_at, escape, is_extra, encode_char,
  uri_append_encoded, uri_encode,
}

is_xdigit-hex_digit : (d : ℕ) → d < 16 → is_xdigit (hex_digit d) ≡ true
unfolding is_xdigit
is_xdigit-hex_digit d h = rw (hexval_facts d h, is_xdigit) refl

uri_decode-escape : (c : ℕ) (s : Bytes) → c < 256 → uri_decode (escape c ++ s) ≡ c ∷ uri_decode s
unfolding uri_decode escape
uri_decode-escape c s h =
    rw
      (
        is_xdigit-hex_digit (c / 16) (omega arith),
        is_xdigit-hex_digit (c % 16) (omega arith),
        hexval-hex_digit (c / 16) (omega arith),
        hexval-hex_digit (c % 16) (omega arith),
      )
      (ap (λ b. b ∷ uri_decode s) (omega arith))

uri_decode-cons : (c : ℕ) (s : Bytes) → c ≢ b'%' → uri_decode (c ∷ s) ≡ c ∷ uri_decode s
unfolding uri_decode
uri_decode-cons c [] h = refl
uri_decode-cons c (x ∷ []) h = refl
uri_decode-cons c (x ∷ y ∷ s) h = rw (ne→== c b'%' h) refl

-- The percent sign is always escaped.
class_percent : uri_encoded_char b'%' ≡ 1
unfolding uri_encoded_char entry_at
class_percent = refl

not_percent : (c : ℕ) → (uri_encoded_char c == 1) ≡ false → c ≢ b'%'
not_percent c e z = absurd (ground (arith, ap uri_encoded_char z, class_percent))

uri_decode-encode_char :
    (extra : Option Bytes) (c : ℕ) (s : Bytes)
    → c < 256
    → uri_decode (encode_char false extra c ++ s) ≡ c ∷ uri_decode s
unfolding encode_char
uri_decode-encode_char extra c s h = elim (Bool-cases (is_extra extra c)) [
  | inl e ↦ rw e (uri_decode-escape c s h)
  | inr e ↦ rw e (elim (Bool-cases (uri_encoded_char c == 2)) [
    | inl e₂ ↦ rw e₂ (uri_decode-escape c s h)
    | inr e₂ ↦ rw e₂ (elim (Bool-cases (uri_encoded_char c == 1)) [
      | inl e₁ ↦ rw e₁ (uri_decode-escape c s h)
      | inr e₁ ↦ rw e₁ (uri_decode-cons c s (not_percent c e₁))
    ])
  ])
]

-- Every string of bytes is given back by decoding its encoding without the Web Storage System's
-- rules, whatever other characters are escaped.
pub uri_decode-uri_encode :
    (s : Bytes) (extra : Option Bytes) → AreBytes s → uri_decode (uri_encode s false extra) ≡ s
unfolding uri_encode uri_append_encoded
uri_decode-uri_encode [] extra h = unfold uri_decode in refl
uri_decode-uri_encode (c ∷ s) extra h =
    uri_decode-encode_char extra c (uri_append_encoded s false extra) h.0
    ∙ ap (λ t. c ∷ t) (uri_decode-uri_encode s extra h.1)

-- Decoding in place never writes more bytes than it has read.
pub length-uri_decode : (s : Bytes) → length (uri_decode s) ≤ length s
unfolding uri_decode
length-uri_decode [] = omega arith
length-uri_decode (a ∷ []) = omega arith
length-uri_decode (a ∷ b ∷ []) = omega arith
length-uri_decode (a ∷ b ∷ c ∷ s) = elim (Bool-cases (a == b'%' && (is_xdigit b && is_xdigit c))) [
  | inl e ↦ rw e (omega (arith, length-uri_decode s))
  | inr e ↦ rw e (omega (arith, length-uri_decode (b ∷ c ∷ s)))
]

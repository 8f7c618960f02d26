-- ===== src/Uri.antt =====
-- Pieces of uris in server/lib/e2k-uri.c: escaping, paths, and relative uris. A string is the list of
-- its bytes, without the terminator.
pub mod Escapes
pub mod Relative
use evolution_exchange.Prelude.{
  ℕ, zero, suc, ◌+◌, ◌*◌, ◌/◌, ◌%◌, Bool, true, false, ◌&&◌, ◌||◌, Option, none, some, List, [],
  ◌∷◌, ◌++◌, ◌==◌, if◌then◌else◌, Bytes, codes,
}
use evolution_exchange.Props.{hex_digit, hex_value, strrchr}
use evolution_exchange.PermanentUrl.{hexval}
use evolution_exchange.Text.{slashed}

-- isxdigit
unfoldable pub is_xdigit : ℕ → Bool
is_xdigit c = elim (hex_value c) [ some d ↦ true | none ↦ false ]

-- In place; the bytes that are written.
unfoldable pub uri_decode : Bytes → Bytes
uri_decode [] = []
uri_decode (a ∷ []) = a ∷ []
uri_decode (a ∷ b ∷ []) = a ∷ b ∷ []
uri_decode (a ∷ b ∷ c ∷ s) =
    let after = uri_decode s in
    let next = uri_decode (b ∷ c ∷ s) in
    if a == b'%' && (is_xdigit b && is_xdigit c)
    then (hexval b * 16 + hexval c) ∷ after
    else a ∷ next

-- uri_encoded_char, up to 0x7f; it is 1 from there on.
abbrev pub uri_encoded_row : Bytes
uri_encoded_row =
    1 ∷ 1 ∷ 1 ∷ 1 ∷ 1 ∷ 1 ∷ 1 ∷ 1 ∷ 1 ∷ 1 ∷ 1 ∷ 1 ∷ 1 ∷ 1 ∷ 1 ∷ 1 ∷ 1 ∷ 1 ∷ 1 ∷ 1 ∷ 1 ∷ 1 ∷ 1 ∷ 1
    ∷ 1 ∷ 1 ∷ 1 ∷ 1 ∷ 1 ∷ 1 ∷ 1 ∷ 1 ∷ 1 ∷ 0 ∷ 1 ∷ 1 ∷ 0 ∷ 1 ∷ 1 ∷ 0 ∷ 0 ∷ 0 ∷ 0 ∷ 0 ∷ 0 ∷ 0 ∷ 0 ∷ 2
    ∷ 0 ∷ 0 ∷ 0 ∷ 0 ∷ 0 ∷ 0 ∷ 0 ∷ 0 ∷ 0 ∷ 0 ∷ 0 ∷ 0 ∷ 1 ∷ 0 ∷ 1 ∷ 2 ∷ 0 ∷ 0 ∷ 0 ∷ 0 ∷ 0 ∷ 0 ∷ 0 ∷ 0
    ∷ 0 ∷ 0 ∷ 0 ∷ 0 ∷ 0 ∷ 0 ∷ 0 ∷ 0 ∷ 0 ∷ 0 ∷ 0 ∷ 0 ∷ 0 ∷ 0 ∷ 0 ∷ 0 ∷ 0 ∷ 0 ∷ 0 ∷ 1 ∷ 2 ∷ 1 ∷ 1 ∷ 0
    ∷ 1 ∷ 0 ∷ 0 ∷ 0 ∷ 0 ∷ 0 ∷ 0 ∷ 0 ∷ 0 ∷ 0 ∷ 0 ∷ 0 ∷ 0 ∷ 0 ∷ 0 ∷ 0 ∷ 0 ∷ 0 ∷ 0 ∷ 0 ∷ 0 ∷ 0 ∷ 0 ∷ 0
    ∷ 0 ∷ 0 ∷ 0 ∷ 1 ∷ 1 ∷ 1 ∷ 2 ∷ 1 ∷ []

unfoldable pub entry_at : Bytes → ℕ → ℕ
entry_at [] n = 1
entry_at (x ∷ xs) zero = x
entry_at (x ∷ xs) (suc n) = entry_at xs n

unfoldable pub uri_encoded_char : ℕ → ℕ
uri_encoded_char c = entry_at uri_encoded_row c

-- "%%%02x"
unfoldable pub escape : ℕ → Bytes
escape c = b'%' ∷ hex_digit (c / 16) ∷ hex_digit (c % 16) ∷ []

-- The Web Storage System's names for the four characters.
unfoldable pub wss_name : ℕ → Bytes
wss_name c =
    if c == b'/'
    then codes "_xF8FF_"
    else if c == b'?'
    then codes "_x003F_"
    else if c == b'\\'
    then codes "_xF8FE_"
    else if c == b'~'
    then codes "_x007E_"
    else []

-- strchr, on a string that may be NULL; `c` is no terminator.
unfoldable pub is_extra : Option Bytes → ℕ → Bool
is_extra none c = false
is_extra (some []) c = false
is_extra (some (x ∷ xs)) c = x == c || is_extra (some xs) c

-- One round of the loop.
unfoldable pub encode_char : Bool → Option Bytes → ℕ → Bytes
encode_char wss_encode extra_enc_chars c =
    if is_extra extra_enc_chars c
    then escape c
    else if uri_encoded_char c == 2
    then (if wss_encode then wss_name c else escape c)
    else if uri_encoded_char c == 1
    then escape c
    else c ∷ []

-- What is appended.
unfoldable pub uri_append_encoded : Bytes → Bool → Option Bytes → Bytes
uri_append_encoded [] wss_encode extra_enc_chars = []
uri_append_encoded (c ∷ s) wss_encode extra_enc_chars =
    encode_char wss_encode extra_enc_chars c ++ uri_append_encoded s wss_encode extra_enc_chars

unfoldable pub uri_encode : Bytes → Bool → Option Bytes → Bytes
uri_encode s wss_encode extra_enc_chars = uri_append_encoded s wss_encode extra_enc_chars

unfoldable pub uri_concat : Bytes → Bytes → Bytes
uri_concat uri_prefix tail = slashed uri_prefix (strrchr uri_prefix b'/') ++ tail

-- The string behind a prefix, where it has the prefix (strncmp).
unfoldable pub behind_prefix : Bytes → Bytes → Option Bytes
behind_prefix [] uri = some uri
behind_prefix (c ∷ cs) [] = none
behind_prefix (c ∷ cs) (d ∷ ds) = if c == d then behind_prefix cs ds else none

unfoldable pub skip_slashes : Bytes → Bytes
skip_slashes [] = []
skip_slashes (c ∷ s) = let rest = skip_slashes s in if c == b'/' then rest else c ∷ s

unfoldable pub uri_relative : Bytes → Bytes → Bytes
uri_relative uri_prefix uri = elim (behind_prefix uri_prefix uri) [
  | some rest ↦ skip_slashes rest
  | none ↦ uri
]

-- ===== src/Ntlm/Authenticate.antt =====
-- NTLM messages of type 3: xntlm_authenticate of server/xntlm/xntlm.c, and what a server reads in
-- them.
use evolution_exchange.Prelude.{
  ℕ, zero, suc, ◌+◌, ◌*◌, ◌/◌, ◌%◌, ◌^◌, ◌<◌, Option, none, some, [], ◌∷◌, ◌++◌, length, take, drop,
  Bytes, codes, ◌≡◌, refl, arith, ap, ◌∙◌, sym, append_assoc, drop-append, length-append,
  take-append, append-nil,
}
use evolution_exchange.Outcome.{Outcome, ok, fault, ◌>>=◌}
use evolution_exchange.Ntlm.{get_shorty}
use evolution_exchange.Ntlm.Hash.{lanmanager_hash, nt_hash, calc_response}

-- data[pos] = b
unfoldable pub put : ℕ → ℕ → Bytes → Outcome Bytes
put pos b [] = fault
put zero b (c ∷ buf) = ok (b ∷ buf)
put (suc pos) b (c ∷ buf) = put pos b buf >>= λ rest. ok (c ∷ rest)

-- ntlm_set_string of the whole of `text`.
unfoldable pub set_string : Bytes → ℕ → Bytes → Outcome Bytes
set_string ba offset text =
    let len = length text in
    put offset (len % 2 ^ 8) ba >>= λ m. put (offset + 2) (len % 2 ^ 8) m >>= λ m.
    put (offset + 1) (len / 2 ^ 8 % 2 ^ 8) m >>= λ m.
    put (offset + 3) (len / 2 ^ 8 % 2 ^ 8) m >>= λ m.
    put (offset + 4) (length ba % 2 ^ 8) m >>= λ m.
    put (offset + 5) (length ba / 2 ^ 8 % 2 ^ 8) m >>= λ m. ok (m ++ text)

-- NTLM_RESPONSE_MESSAGE_HEADER, and zeros up to NTLM_RESPONSE_BASE_SIZE.
unfoldable pub response_base : Bytes
response_base =
    codes "NTLMSSP"
    ++ 0x00 ∷ 0x03 ∷ 0x00 ∷ 0x00 ∷ 0x00 ∷ 0x02 ∷ 0x82 ∷ 0x00 ∷ 0x00 ∷ 0x00 ∷ 0x00 ∷ 0x00 ∷ 0x00
      ∷ 0x00 ∷ 0x00 ∷ 0x00 ∷ 0x00 ∷ 0x00 ∷ 0x00 ∷ 0x00 ∷ 0x00 ∷ 0x00 ∷ 0x00 ∷ 0x00 ∷ 0x00 ∷ 0x00
      ∷ 0x00 ∷ 0x00 ∷ 0x00 ∷ 0x00 ∷ 0x00 ∷ 0x00 ∷ 0x00 ∷ 0x00 ∷ 0x00 ∷ 0x00 ∷ 0x00 ∷ 0x00 ∷ 0x00
      ∷ 0x00 ∷ 0x00 ∷ 0x00 ∷ 0x00 ∷ 0x00 ∷ 0x00 ∷ 0x00 ∷ 0x00 ∷ 0x00 ∷ 0x00 ∷ 0x00 ∷ 0x00 ∷ 0x00
      ∷ 0x00 ∷ 0x00 ∷ 0x00 ∷ 0x00 ∷ 0x00 ∷ []

abbrev pub workstation_or_empty : Option Bytes → Bytes
workstation_or_empty none = []
workstation_or_empty (some w) = w

-- The part that writes the strings.
unfoldable pub set_strings : Bytes → Bytes → Bytes → Bytes → Bytes → Outcome Bytes
set_strings domain user workstation lm_resp nt_resp = set_string response_base 28 domain >>= λ m.
    set_string m 36 user >>= λ m.
    set_string m 44 workstation >>= λ m. set_string m 12 lm_resp >>= λ m. set_string m 20 nt_resp

module _ {Schedule : Type 0} (xntlm_deskey : Bytes → Schedule)
    (xntlm_des : Schedule → Bytes → Bytes) (toupper : ℕ → ℕ) where
  unfoldable pub authenticate : Bytes → Bytes → Bytes → Bytes → Option Bytes → Outcome Bytes
  authenticate nonce domain user password workstation =
      lanmanager_hash xntlm_deskey xntlm_des toupper password >>= λ hash.
      calc_response xntlm_deskey xntlm_des toupper hash nonce >>= λ lm_resp.
      let hash = nt_hash password in
      calc_response xntlm_deskey xntlm_des toupper hash nonce >>= λ nt_resp.
      set_strings domain user (workstation_or_empty workstation) lm_resp nt_resp

-- What a server reads: a length, and where in the message so many bytes stand.
abbrev pub read_string : Bytes → ℕ → Outcome Bytes
read_string message pos = get_shorty message pos >>= λ len.
    get_shorty message (pos + 4) >>= λ start. ok (take len (drop start message))

get_shorty_of_length : (n : ℕ) → n < 2 ^ 16 → n % 2 ^ 8 + n / 2 ^ 8 % 2 ^ 8 * 2 ^ 8 ≡ n
get_shorty_of_length n h = omega arith

-- A length and an offset as ntlm_set_string writes them.
abbrev buffer : ℕ → ℕ → Bytes → Bytes
buffer len start rest =
    len % 256
    ∷ len / 256 % 256
    ∷ len % 256
    ∷ len / 256 % 256
    ∷ start % 256
    ∷ start / 256 % 256
    ∷ 0
    ∷ 0
    ∷ rest

-- How long the message is with so much behind its fixed part.
unfoldable data_end : Bytes → ℕ
data_end written = length (response_base ++ written)

abbrev laid_out : Bytes → Bytes → Bytes → Bytes → Bytes → Bytes
laid_out d u w l n =
    codes "NTLMSSP"
    ++ 0
      ∷ 3
      ∷ 0
      ∷ 0
      ∷ 0
      ∷ buffer (length l) (data_end ((d ++ u) ++ w)) (
          buffer (length n) (data_end (((d ++ u) ++ w) ++ l)) (
            buffer (length d) 64 (
              buffer (length u) (data_end d) (
                buffer (length w) (data_end (d ++ u))
                  (0 ∷ 0 ∷ 0 ∷ 0 ∷ 0 ∷ 0 ∷ 0 ∷ 0 ∷ 0 ∷ 0 ∷ 0 ∷ 0 ∷ (((d ++ u) ++ w) ++ l) ++ n)))))

set_strings_lem : (d u w l n : Bytes) → set_strings d u w l n ≡ ok (laid_out d u w l n)
unfolding set_strings set_string put response_base data_end
set_strings_lem d u w l n = refl

get_of_length :
    (n pos : ℕ) (message : Bytes)
    → get_shorty message pos ≡ ok (n % 256 + n / 256 % 256 * 256)
    → n < 2 ^ 16
    → get_shorty message pos ≡ ok n
get_of_length n pos message g h = g ∙ ap ok (get_shorty_of_length n h)

drop-nil : (n : ℕ) → drop {A = ℕ} n [] ≡ []
drop-nil zero = refl
drop-nil (suc n) = refl

drop-drop : (m n : ℕ) (xs : Bytes) → drop (m + n) xs ≡ drop n (drop m xs)
drop-drop zero n xs = ap (λ k. drop k xs) (omega arith)
drop-drop (suc m) n (x ∷ xs) =
    let e : suc m + n ≡ suc (m + n) = omega arith in ap (λ k. drop k (x ∷ xs)) e ∙ drop-drop m n xs
drop-drop (suc m) n [] = drop-nil (suc m + n) ∙ sym (drop-nil n)

read_string_lem :
    (message : Bytes) (pos : ℕ) (text pre post : Bytes)
    → get_shorty message pos ≡ ok (length text)
    → get_shorty message (pos + 4) ≡ ok (64 + length pre)
    → drop 64 message ≡ pre ++ text ++ post
    → read_string message pos ≡ ok text
read_string_lem message pos text pre post l g d =
    rw (l, g)
      (ap (λ b. ok (take (length text) b))
          (drop-drop 64 (length pre) message
            ∙ ap (drop (length pre)) (d ∙ append_assoc pre text post)
            ∙ drop-append pre (text ++ post))
        ∙ ap ok (take-append text post))

data_end_lem : (written : Bytes) → data_end written ≡ 64 + length written
unfolding data_end response_base
data_end_lem written = ground arith

get_end :
    (written message : Bytes) (pos : ℕ)
    → get_shorty message pos ≡ ok (data_end written % 256 + data_end written / 256 % 256 * 256)
    → 64 + length written < 2 ^ 16
    → get_shorty message pos ≡ ok (64 + length written)
get_end written message pos g h =
    get_of_length (64 + length written) pos message (rw (sym (data_end_lem written)) g) h

pub set_strings-read_string :
    (domain user workstation lm_resp nt_resp : Bytes)
    → 64 + length domain + length user + length workstation + length lm_resp + length nt_resp
      < 2 ^ 16
    → (m : Bytes) × (set_strings domain user workstation lm_resp nt_resp ≡ ok m)
      × (read_string m 28 ≡ ok domain)
      × (read_string m 36 ≡ ok user)
      × (read_string m 44 ≡ ok workstation)
      × (read_string m 12 ≡ ok lm_resp)
      × (read_string m 20 ≡ ok nt_resp)
unfolding get_shorty
set_strings-read_string d u w l n h =
    let m = laid_out d u w l n in
    (
      m,
      set_strings_lem d u w l n,
      read_string_lem m 28 d [] (u ++ w ++ l ++ n)
          (get_of_length (length d) 28 m refl (omega arith)) refl (simp append_assoc refl),
      read_string_lem m 36 u d (w ++ l ++ n) (get_of_length (length u) 36 m refl (omega arith))
          (get_end d m 40 refl (omega arith)) (simp append_assoc refl),
      read_string_lem m 44 w (d ++ u) (l ++ n) (get_of_length (length w) 44 m refl (omega arith))
          (get_end (d ++ u) m 48 refl (omega (arith, length-append d u))) (simp append_assoc refl),
      read_string_lem m 12 l (d ++ u ++ w) n (get_of_length (length l) 12 m refl (omega arith))
          (get_end (d ++ u ++ w) m 16 refl
            (omega (arith, length-append d u, length-append (d ++ u) w)))
          (simp append_assoc refl),
      read_string_lem m 20 n (d ++ u ++ w ++ l) []
          (get_of_length (length n) 20 m refl (omega arith))
          (get_end (d ++ u ++ w ++ l) m 24 refl (
            omega
              (arith, length-append d u, length-append (d ++ u) w, length-append (d ++ u ++ w) l)))
          (simp (append_assoc, append-nil) refl),
    )

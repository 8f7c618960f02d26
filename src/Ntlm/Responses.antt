-- ===== src/Ntlm/Responses.antt =====
-- What xntlm_authenticate of server/xntlm/xntlm.c answers to a challenge.
use evolution_exchange.Prelude.{
  ℕ, zero, suc, ◌+◌, ◌^◌, ◌≤◌, ◌<◌, Option, [], ◌∷◌, ◌++◌, length, take, drop, leb, length-append,
  length-drop, Bytes, ◌≡◌, refl, arith, true,
}
use evolution_exchange.Outcome.{ok, ◌>>=◌}
use evolution_exchange.Ntlm.Md4.{md4sum, length-md4sum}
use evolution_exchange.Ntlm.Hash.{
  setup_schedule, encrypt, lm_password, lm_password_magic, lanmanager_hash, nt_hash, calc_response,
  widen,
}
use evolution_exchange.Ntlm.Authenticate.{
  authenticate, workstation_or_empty, read_string, set_strings-read_string,
}

-- DES keeps the length of a block.
pub record AreSized {Schedule : Type 0} (xntlm_des : Schedule → Bytes → Bytes) : Type 0 where
  pub block : (ks : Schedule) (b : Bytes) → length b ≡ 8 → length (xntlm_des ks b) ≡ 8

le→leb : (a b : ℕ) → a ≤ b → leb a b ≡ true
le→leb a b h = ground arith

length-take : (n : ℕ) (xs : Bytes) → n ≤ length xs → length (take n xs) ≡ n
length-take zero xs h = refl
length-take (suc n) [] h = absurd (omega arith)
length-take (suc n) (x ∷ xs) h = omega (arith, length-take n xs (omega arith))

length-lm_password :
    (toupper : ℕ → ℕ) (n : ℕ) (s : Bytes) → length (lm_password toupper n s) ≡ n + 1
unfolding lm_password
length-lm_password toupper zero s = refl
length-lm_password toupper (suc n) [] = omega (arith, length-lm_password toupper n [])
length-lm_password toupper (suc n) (c ∷ s) = omega (arith, length-lm_password toupper n s)

length-nt_hash : (password : Bytes) → length (nt_hash password) ≡ 21
unfolding nt_hash
length-nt_hash password = omega (
  arith,
  length-append (md4sum (widen password)) (0 ∷ 0 ∷ 0 ∷ 0 ∷ 0 ∷ []),
  length-md4sum (widen password),
)

setup_schedule-ok : (key : Bytes) → 7 ≤ length key → (k : Bytes) × setup_schedule key ≡ ok k
unfolding setup_schedule
setup_schedule-ok (a ∷ b ∷ c ∷ d ∷ e ∷ f ∷ g ∷ rest) h = (_, refl)
setup_schedule-ok _ h = absurd (omega arith)

module _ {Schedule : Type 0} (xntlm_deskey : Bytes → Schedule)
    (xntlm_des : Schedule → Bytes → Bytes) (toupper : ℕ → ℕ) (sized : AreSized xntlm_des) where
  encrypt-ok :
      (key : Bytes) (from pos : ℕ) (buf : Bytes)
      → from + 7 ≤ length key
      → pos + 8 ≤ length buf
      → (r : Bytes) × (encrypt xntlm_deskey xntlm_des toupper key from pos buf ≡ ok r)
        × (length r ≡ length buf)
  unfolding encrypt
  encrypt-ok key from pos buf h l =
      let (k, e) = setup_schedule-ok (drop from key) (omega (arith, length-drop from key)) in
      let block = take 8 (drop pos buf) in
      let b = length-take 8 (drop pos buf) (omega (arith, length-drop pos buf)) in
      let out = xntlm_des (xntlm_deskey k) block in
      (
        take pos buf ++ out ++ drop (pos + 8) buf,
        rw (e, le→leb (pos + 8) (length buf) l) refl,
        omega (
          arith,
          length-append (take pos buf ++ out) (drop (pos + 8) buf),
          length-append (take pos buf) out,
          length-take pos buf (omega arith),
          length-drop (pos + 8) buf,
          sized.block (xntlm_deskey k) block b,
        ),
      )

  calc_response-ok :
      (key plaintext : Bytes)
      → 21 ≤ length key
      → 8 ≤ length plaintext
      → (r : Bytes) × (calc_response xntlm_deskey xntlm_des toupper key plaintext ≡ ok r)
        × (length r ≡ 24)
  unfolding calc_response
  calc_response-ok key plaintext h l =
      let block = take 8 plaintext in
      let b = length-take 8 plaintext l in
      let three : length (block ++ block ++ block) ≡ 24 =
        omega (arith, length-append block block, length-append (block ++ block) block) in
      let (r0, e0, l0) = encrypt-ok key 0 0 (block ++ block ++ block) (omega arith) (omega arith) in
      let (r1, e1, l1) = encrypt-ok key 7 8 r0 (omega arith) (omega arith) in
      let (r2, e2, l2) = encrypt-ok key 14 16 r1 (omega arith) (omega arith) in
      (r2, rw (le→leb 8 (length plaintext) l, e0, e1) e2, omega arith)

  lanmanager_hash-ok :
      (password : Bytes)
      → (r : Bytes) × (lanmanager_hash xntlm_deskey xntlm_des toupper password ≡ ok r)
        × (length r ≡ 21)
  unfolding lanmanager_hash lm_password_magic
  lanmanager_hash-ok password =
      let key = lm_password toupper 14 password in
      let k = length-lm_password toupper 14 password in
      let (r0, e0, l0) = encrypt-ok key 0 0 lm_password_magic (omega arith) (omega arith) in
      let (r1, e1, l1) = encrypt-ok key 7 8 r0 (omega arith) (omega arith) in
      (r1, rw e0 e1, omega arith)

-- With a nonce of eight bytes, and names short enough for the message to stay below 65,536 bytes,
-- xntlm_authenticate makes a message in which a reader of its lengths and offsets finds the
-- domain, the user, the workstation (empty for NULL) and the two responses computed from the
-- password's hashes, where DES keeps a block's length.
pub authenticate-read_string :
    {Schedule : Type 0} (xntlm_deskey : Bytes → Schedule) (xntlm_des : Schedule → Bytes → Bytes)
    (toupper : ℕ → ℕ)
    → AreSized xntlm_des
    → (nonce domain user password : Bytes) (workstation : Option Bytes) → 8 ≤ length nonce
    → 112 + length domain + length user + length (workstation_or_empty workstation) < 2 ^ 16
    → (message lm_resp nt_resp : Bytes) × (authenticate xntlm_deskey xntlm_des toupper nonce domain
          user password workstation
        ≡ ok message)
      × ((lanmanager_hash xntlm_deskey xntlm_des toupper password >>= λ hash.
            calc_response xntlm_deskey xntlm_des toupper hash nonce)
          ≡ ok lm_resp)
      × (calc_response xntlm_deskey xntlm_des toupper (nt_hash password) nonce ≡ ok nt_resp)
      × (read_string message 28 ≡ ok domain)
      × (read_string message 36 ≡ ok user)
      × (read_string message 44 ≡ ok (workstation_or_empty workstation))
      × (read_string message 12 ≡ ok lm_resp)
      × (read_string message 20 ≡ ok nt_resp)
unfolding authenticate
authenticate-read_string deskey des upper sized nonce domain user password workstation h l =
    let (hash, a, b) = lanmanager_hash-ok deskey des upper sized password in
    let (lm, c, d) = calc_response-ok deskey des upper sized hash nonce (omega arith) h in
    let e = length-nt_hash password in
    let (nt, f, g) =
      calc_response-ok deskey des upper sized (nt_hash password) nonce (omega arith) h in
    let (m, k, r1, r2, r3, r4, r5) =
      set_strings-read_string domain user (workstation_or_empty workstation) lm nt (omega arith) in
    (m, lm, nt, rw (a, c, f) k, rw a c, f, r1, r2, r3, r4, r5)

-- ===== src/Ntlm/Hash.antt =====
-- The keys and the responses of NTLM: server/xntlm/xntlm.c. DES is another project's code
-- (xntlm-des.c) and so a parameter.
use evolution_exchange.Ntlm.Md4.{md4sum}
use evolution_exchange.Prelude.{
  ℕ, zero, suc, ◌+◌, ◌-◌, ◌*◌, ◌/◌, ◌%◌, ◌^◌, bit_or, [], ◌∷◌, ◌++◌, length, take, drop, leb, ◌==◌,
  if◌then◌else◌, Bytes, map,
}
use evolution_exchange.Outcome.{Outcome, ok, fault, ◌>>=◌}

-- How many bits of a byte are 1.
unfoldable pub count_bits : ℕ → ℕ → ℕ
count_bits zero b = 0
count_bits (suc n) b = b % 2 + count_bits n (b / 2)

-- `key[i] ^= 0x01` if the count is even.
unfoldable pub fix_parity : ℕ → ℕ
fix_parity b = if count_bits 8 b % 2 == 0 then (if b % 2 == 0 then b + 1 else b - 1) else b

-- key[i] for 0 < i < 7: the low bits of one byte over the high bits of the next.
abbrev pub key_byte : ℕ → ℕ → ℕ → ℕ
key_byte i before b = bit_or (b / 2 ^ i) (before * 2 ^ (8 - i) % 2 ^ 8)

-- `key` before its parity is fixed.
abbrev pub spread : (a b c d e f g : ℕ) → Bytes
spread a b c d e f g =
    a
    ∷ key_byte 1 a b
    ∷ key_byte 2 b c
    ∷ key_byte 3 c d
    ∷ key_byte 4 d e
    ∷ key_byte 5 e f
    ∷ key_byte 6 f g
    ∷ g * 2 % 2 ^ 8
    ∷ []

-- The key that setup_schedule gives to xntlm_deskey.
unfoldable pub setup_schedule : Bytes → Outcome Bytes
setup_schedule (a ∷ b ∷ c ∷ d ∷ e ∷ f ∷ g ∷ _) = ok (map fix_parity (spread a b c d e f g))
setup_schedule _ = fault

-- LM_PASSWORD_MAGIC
unfoldable pub lm_password_magic : Bytes
lm_password_magic =
    0x4B ∷ 0x47 ∷ 0x53 ∷ 0x21 ∷ 0x40 ∷ 0x23 ∷ 0x24 ∷ 0x25 ∷ 0x4B ∷ 0x47 ∷ 0x53 ∷ 0x21 ∷ 0x40 ∷ 0x23
    ∷ 0x24 ∷ 0x25 ∷ 0x00 ∷ 0x00 ∷ 0x00 ∷ 0x00 ∷ 0x00 ∷ []

-- The loops over lm_password, with so many of the 14 bytes left to fill, and the last byte.
unfoldable pub lm_password : (ℕ → ℕ) → ℕ → Bytes → Bytes
lm_password toupper zero s = 0 ∷ []
lm_password toupper (suc n) [] = 0 ∷ lm_password toupper n []
lm_password toupper (suc n) (c ∷ s) = toupper c ∷ lm_password toupper n s

-- The buffer that ntlm_nt_hash fills.
unfoldable pub widen : Bytes → Bytes
widen [] = []
widen (c ∷ s) = c ∷ 0 ∷ widen s

unfoldable pub nt_hash : Bytes → Bytes
nt_hash password = md4sum (widen password) ++ 0 ∷ 0 ∷ 0 ∷ 0 ∷ 0 ∷ []

-- xntlm_deskey for encryption, xntlm_des on one block of 8 bytes, and toupper of C.
module _ {Schedule : Type 0} (xntlm_deskey : Bytes → Schedule)
    (xntlm_des : Schedule → Bytes → Bytes) (toupper : ℕ → ℕ) where
  -- setup_schedule with the bytes of a buffer from `from` on, then xntlm_des on the block at `pos`.
  unfoldable pub encrypt : Bytes → ℕ → ℕ → Bytes → Outcome Bytes
  encrypt key from pos buf = setup_schedule (drop from key) >>= λ k.
      if leb (pos + 8) (length buf)
      then ok
          (take pos buf ++ xntlm_des (xntlm_deskey k) (take 8 (drop pos buf)) ++ drop (pos + 8) buf)
      else fault

  unfoldable pub lanmanager_hash : Bytes → Outcome Bytes
  lanmanager_hash password =
      let key = lm_password toupper 14 password in
      encrypt key 0 0 lm_password_magic >>= λ hash. encrypt key 7 8 hash

  unfoldable pub calc_response : Bytes → Bytes → Outcome Bytes
  calc_response key plaintext =
      if leb 8 (length plaintext)
      then (let block = take 8 plaintext in
          encrypt key 0 0 (block ++ block ++ block) >>= λ results.
          encrypt key 7 8 results >>= λ results. encrypt key 14 16 results)
      else fault

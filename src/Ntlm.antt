-- ===== src/Ntlm.antt =====
-- NTLM messages: server/xntlm/xntlm.c. A buffer is the list of its bytes, and a read or a write
-- outside of one is a fault.
pub mod Authenticate
pub mod Parsing
pub mod Responses
pub mod Hash
pub mod Keys
pub mod Md4
use evolution_exchange.Prelude.{
  ℕ, zero, suc, ◌+◌, ◌-◌, ◌*◌, ◌/◌, ◌%◌, ◌^◌, bit_or, Bool, true, false, not, ◌&&◌, ◌||◌, Option,
  none, some, List, [], ◌∷◌, ◌++◌, length, take, drop, ltb, leb, ◌==◌, if◌then◌else◌, Bytes, codes,
}
use evolution_exchange.Outcome.{Outcome, ok, failed, fault, starved, ◌>>=◌}

-- NTLM_NEGOTIATE_MESSAGE
unfoldable pub negotiate : Bytes
negotiate =
    codes "NTLMSSP"
    ++ 0x00 ∷ 0x01 ∷ 0x00 ∷ 0x00 ∷ 0x00 ∷ 0x06 ∷ 0x82 ∷ 0x00 ∷ 0x00 ∷ 0x00 ∷ 0x00 ∷ 0x00 ∷ 0x00
      ∷ 0x00 ∷ 0x00 ∷ 0x00 ∷ 0x00 ∷ 0x00 ∷ 0x00 ∷ 0x00 ∷ 0x00 ∷ 0x00 ∷ 0x00 ∷ 0x00 ∷ 0x00 ∷ 0x00
      ∷ 0x00 ∷ 0x00 ∷ 0x00 ∷ 0x30 ∷ 0x00 ∷ 0x00 ∷ 0x00 ∷ 0x00 ∷ 0x00 ∷ 0x00 ∷ 0x00 ∷ 0x30 ∷ 0x00
      ∷ 0x00 ∷ 0x00 ∷ []

abbrev pub first : Bytes → Outcome ℕ
first [] = fault
first (b ∷ bs) = ok b

-- GET_SHORTY
unfoldable pub get_shorty : Bytes → ℕ → Outcome ℕ
get_shorty mem pos =
    first (drop pos mem) >>= λ low. first (drop (suc pos) mem) >>= λ high. ok (low + high * 2 ^ 8)

-- The loop of strip_dup with `len` bytes left to go, and the terminator: `used` of the buffer's
-- `size` bytes are written. An odd `len` ends below 0.
unfoldable pub strip_from : ℕ → ℕ → Bytes → ℕ → Outcome Bytes
strip_from size used mem zero = if ltb used size then ok [] else fault
strip_from size used mem (suc zero) = first mem >>= λ c.
    (if ltb used size then ok c else fault) >>= λ c.
    (if ltb (suc used) size then ok (c ∷ []) else fault)
strip_from size used mem (suc (suc n)) = first mem >>= λ c.
    (if ltb used size then ok c else fault) >>= λ c.
    strip_from size (suc used) (drop 2 mem) n >>= λ rest. ok (c ∷ rest)

unfoldable pub strip_dup : Bytes → ℕ → Outcome Bytes
strip_dup mem len = strip_from (len / 2 + 1) 0 mem len

-- The return variables: `none` is one that is not set.
pub record Challenge : Type 0 where
  pub nonce : Option Bytes
  pub nt_domain : Option Bytes
  pub w2k_domain : Option Bytes

abbrev pub type_nt_domain : ℕ
type_nt_domain = 2

abbrev pub type_w2k_domain : ℕ
type_w2k_domain = 4

-- `want_nt` and `want_w2k`: whether the caller gives the variables.
module _ (want_nt want_w2k : Bool) where
  -- The switch.
  unfoldable pub read_field : Bytes → ℕ → ℕ → Challenge → Outcome Challenge
  read_field mem type dlen c =
      if type == type_nt_domain
      then if want_nt
        then (strip_dup mem dlen >>= λ s. ok (record c { nt_domain = some s }))
        else ok c
      else if type == type_w2k_domain
      then if want_w2k
        then (strip_dup mem dlen >>= λ s. ok (record c { w2k_domain = some s }))
        else ok c
      else ok c

  -- The loop, one unit of fuel for each round.
  unfoldable pub read_fields : ℕ → Bytes → ℕ → ℕ → Challenge → Outcome Challenge
  read_fields zero chall len off c = starved
  read_fields (suc fuel) chall len off c =
      if ltb off (len - 4)
      then (get_shorty chall off >>= λ type. get_shorty chall (off + 2) >>= λ dlen.
          if ltb len (off + 4 + dlen)
          then ok c
          else (read_field (drop (off + 4) chall) type dlen c >>= λ c'.
              read_fields fuel chall len (off + 4 + dlen) c'))
      else ok c

-- g_memdup of the 8 bytes at 24, if the caller wants them.
unfoldable pub copy_nonce : Bool → Bytes → Outcome (Option Bytes)
copy_nonce false chall = ok none
copy_nonce true chall = if leb 32 (length chall) then ok (some (take 8 (drop 24 chall))) else fault

-- `failed` is FALSE. Every round passes four bytes at least, so that the length is fuel enough.
unfoldable pub parse_challenge : Bool → Bool → Bool → Bytes → ℕ → Outcome Challenge
parse_challenge want_nonce want_nt want_w2k chall len =
    if ltb len 48
    then failed
    else get_shorty chall 44 >>= λ off. get_shorty chall 40 >>= λ dlen.
        if ltb len (off + dlen)
        then failed
        else copy_nonce want_nonce chall >>= λ nonce.
            let c : Challenge = record { nonce = nonce; nt_domain = none; w2k_domain = none } in
            if not want_nt && not want_w2k
            then ok c
            else read_fields want_nt want_w2k (suc len) chall len off c

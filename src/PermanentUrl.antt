-- ===== src/PermanentUrl.antt =====
-- Permanent urls: e2k_entryid_to_permanenturl and e2k_permanenturl_to_entryid of
-- server/lib/e2k-utils.c. A string is the list of its bytes, without the terminator.
pub mod Digits
pub mod Buffer
pub mod Sections
pub mod Ends
use evolution_exchange.Prelude.{
  ℕ, zero, suc, ◌+◌, ◌-◌, ◌*◌, ◌/◌, ◌%◌, Bool, true, false, ◌&&◌, ◌||◌, Option, none, some, List,
  [], ◌∷◌, ◌++◌, ◌==◌, ltb, leb, if◌then◌else◌, Bytes, codes, length, take, drop,
}
use evolution_exchange.Outcome.{Outcome, ok, failed, fault, starved, ◌>>=◌}
use evolution_exchange.Props.{hex_digit, hex_value}
use evolution_exchange.Time.{zeros}
use evolution_exchange.Wire.{copy_bytes}

-- printf's %02x for each byte.
unfoldable pub hex_pairs : Bytes → Bytes
hex_pairs [] = []
hex_pairs (b ∷ bs) = hex_digit (b / 16) ∷ hex_digit (b % 16) ∷ hex_pairs bs

unfoldable pub skip_zeros : Bytes → Bytes
skip_zeros [] = []
skip_zeros (b ∷ bs) = let rest = skip_zeros bs in if b == 0 then rest else b ∷ bs

-- "Last part": one digit is enough for a small first byte.
unfoldable pub last_part : Bytes → Bytes
last_part [] = []
last_part (b ∷ bs) = if ltb b 16 then hex_digit b ∷ hex_pairs bs else hex_pairs (b ∷ bs)

-- The 22 bytes from the pointer.
unfoldable pub append_permanenturl_section : Bytes → Bytes
append_permanenturl_section entryid =
    hex_pairs (take 16 entryid) ++ b'-' ∷ last_part (skip_zeros (take 6 (drop 16 entryid)))

abbrev pub permanenturl_infix : Bytes
permanenturl_infix = codes "-FlatUrlSpace-"

unfoldable pub ends_in_slash : Bytes → Outcome Bool
ends_in_slash [] = fault
ends_in_slash (c ∷ []) = ok (c == b'/')
ends_in_slash (c ∷ d ∷ s) = ends_in_slash (d ∷ s)

-- `none` is NULL. An empty base uri is read in front of its first byte.
unfoldable pub entryid_to_permanenturl : Bytes → Bytes → Outcome (Option Bytes)
entryid_to_permanenturl entryid base_uri =
    if length entryid == 22 || length entryid == 44
    then (ends_in_slash base_uri >>= λ slash. ok (
        some (
          base_uri
          ++ ((if slash then [] else codes "/")
              ++ (permanenturl_infix
                  ++ (codes "/"
                      ++ (append_permanenturl_section entryid
                          ++ (if ltb 22 (length entryid)
                              then codes "/" ++ append_permanenturl_section (drop 22 entryid)
                              else []))))))))
    else ok none

-- strspn (p, "0123456789abcdefABCDEF")
unfoldable pub hex_span : Bytes → ℕ
hex_span [] = 0
hex_span (c ∷ s) = let more = hex_span s in elim (hex_value c) [ some d ↦ suc more | none ↦ 0 ]

-- HEXVAL, which is used on hexadecimal digits only.
unfoldable pub hexval : ℕ → ℕ
hexval c = elim (hex_value c) [ some d ↦ d | none ↦ 0 ]

unfoldable pub from_pairs : Bytes → Bytes
from_pairs (a ∷ b ∷ s) = (hexval a * 16 + hexval b) % 256 ∷ from_pairs s
from_pairs _ = []

-- memset of `sizeof (buf) - 32 - endlen` bytes; a size below 0 is a huge size_t.
unfoldable pub fill_zeros : ℕ → Outcome Bytes
fill_zeros endlen = if leb endlen 12 then ok (zeros (12 - endlen)) else fault

-- "Expand to the full form": the 44 bytes of buf, which the three writes cover one after the other.
-- The string ends behind its last byte; `fault` is a read behind that or a write outside of buf.
unfoldable pub expand : ℕ → Bytes → Outcome Bytes
expand endlen p = copy_bytes 32 p >>= λ head. fill_zeros endlen >>= λ middle.
    copy_bytes endlen (drop 33 p) >>= λ last. ok (head ++ (middle ++ last))

-- From the `-` on.
unfoldable pub after_digits : Bytes → Bytes → Outcome (Bytes × Bytes)
after_digits p [] = failed
after_digits p (c ∷ end) =
    if c == b'-'
    then (if ltb 6 (hex_span end)
        then failed
        else (expand (hex_span end) p >>= λ full. ok (from_pairs full, drop (hex_span end) end)))
    else failed

-- The bytes that are added to the entryid, and the string behind them.
unfoldable pub append_entryid_section : Bytes → Outcome (Bytes × Bytes)
append_entryid_section p = if hex_span p == 32 then after_digits p (drop 32 p) else failed

unfoldable pub starts_with : Bytes → Bytes → Bool
starts_with [] s = true
starts_with (c ∷ cs) [] = false
starts_with (c ∷ cs) (d ∷ s) = c == d && starts_with cs s

-- strstr
unfoldable pub strstr : Bytes → Bytes → Option Bytes
strstr [] needle = if starts_with needle [] then some [] else none
strstr (c ∷ s) needle =
    let later = strstr s needle in if starts_with needle (c ∷ s) then some (c ∷ s) else later

-- The loop over sections. Each of them uses up a byte, so the length is enough fuel.
unfoldable pub append_sections : ℕ → Bytes → Outcome Bytes
append_sections zero s = starved
append_sections (suc fuel) [] = ok []
append_sections (suc fuel) (c ∷ s) =
    if c == b'/'
    then (append_entryid_section s >>= λ (bytes, rest).
        append_sections fuel rest >>= λ more. ok (bytes ++ more))
    else ok []

-- `failed` is NULL.
unfoldable pub permanenturl_to_entryid : Bytes → Outcome Bytes
permanenturl_to_entryid url = elim (strstr url permanenturl_infix) [
  | none ↦ failed
  | some s ↦ append_sections (suc (length s)) (drop (length permanenturl_infix) s)
]

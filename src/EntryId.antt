-- ===== src/EntryId.antt =====
-- Entry ids of recipients: e2k_entryid_* and e2k_search_key_generate of server/lib/e2k-utils.c.
pub mod Local
use evolution_exchange.Prelude.{
  ℕ, zero, suc, ◌+◌, Bool, true, false, Option, none, some, List, [], ◌∷◌, ◌++◌, ◌==◌,
  if◌then◌else◌, Bytes, codes, length,
}
use evolution_exchange.Outcome.{Outcome, ok, fault, ◌>>=◌}
use evolution_exchange.Platform.{Platform}
use evolution_exchange.Wire.{append_uint32, append_uint16, append_string}
use evolution_exchange.Unicode.{append_unicode}

-- The bytes of a list, the last one first, in front of others.
abbrev pub reverse_onto : Bytes → Bytes → Bytes
reverse_onto [] acc = acc
reverse_onto (b ∷ bs) acc = reverse_onto bs (b ∷ acc)

-- The loop back over the bytes in front of the terminator, nearest first; what it has passed is the
-- string. At the array's start it reads the byte in front of it.
unfoldable pub back_to_zero : Bytes → Bytes → Outcome Bytes
back_to_zero [] passed = fault
back_to_zero (b ∷ before) passed = if b == 0 then ok passed else back_to_zero before (b ∷ passed)

abbrev pub if_slash : Bytes → Option Bytes
if_slash [] = none
if_slash (c ∷ s) = if c == b'/' then some (c ∷ s) else none

unfoldable pub last_string : Bytes → Outcome (Option Bytes)
last_string [] = fault
last_string (b ∷ before) =
    if b == 0 then (back_to_zero before [] >>= λ s. ok (if_slash s)) else ok none

-- `none` is NULL.
unfoldable pub entryid_to_dn : Bytes → Outcome (Option Bytes)
entryid_to_dn entryid = last_string (reverse_onto entryid [])

unfoldable pub mapi_one_off_uid : Bytes
mapi_one_off_uid =
    0x81 ∷ 0x2b ∷ 0x1f ∷ 0xa4 ∷ 0xbe ∷ 0xa3 ∷ 0x10 ∷ 0x19 ∷ 0x9d ∷ 0x6e ∷ 0x00 ∷ 0xdd ∷ 0x01 ∷ 0x0f
    ∷ 0x54 ∷ 0x02 ∷ []

unfoldable pub mapi_local_uid : Bytes
mapi_local_uid =
    0xdc ∷ 0xa7 ∷ 0x40 ∷ 0xc8 ∷ 0xc0 ∷ 0x42 ∷ 0x10 ∷ 0x1a ∷ 0xb4 ∷ 0xb9 ∷ 0x08 ∷ 0x00 ∷ 0x2b ∷ 0x2f
    ∷ 0xe1 ∷ 0x82 ∷ []

unfoldable pub mapi_contact_uid : Bytes
mapi_contact_uid =
    0xfe ∷ 0x42 ∷ 0xaa ∷ 0x0a ∷ 0x18 ∷ 0xc7 ∷ 0x1a ∷ 0x10 ∷ 0xe8 ∷ 0x85 ∷ 0x0b ∷ 0x65 ∷ 0x1c ∷ 0x24
    ∷ 0x00 ∷ 0x00 ∷ []

-- The flags are MAPI_ONE_OFF_NO_RICH_INFO, MYSTERY_FLAG and UNICODE.
unfoldable pub entryid_generate_oneoff : Platform → Bytes → Bytes → Bool → Bytes
entryid_generate_oneoff p display_name email unicode =
    append_uint32 0
    ++ (mapi_one_off_uid
        ++ (append_uint16 0
            ++ (append_uint16 (0x0001 + 0x1000 + (if unicode then 0x8000 else 0))
                ++ (if unicode
                    then append_unicode p display_name
                      ++ (append_unicode p (codes "SMTP") ++ append_unicode p email)
                    else append_string display_name
                      ++ (append_string (codes "SMTP") ++ append_string email)))))

unfoldable pub entryid_generate_local : Bytes → Bytes
entryid_generate_local exchange_dn =
    append_uint32 0
    ++ (mapi_local_uid ++ (append_uint16 1 ++ (append_uint16 0 ++ append_string exchange_dn)))

unfoldable pub entryid_generate_contact : Bytes → ℕ → Bytes
entryid_generate_contact contact_entryid nth_address =
    append_uint32 0
    ++ (mapi_contact_uid
        ++ (append_uint32 3
            ++ (append_uint32 4
                ++ (append_uint32 nth_address
                    ++ (append_uint32 (length contact_entryid) ++ contact_entryid)))))

-- g_ascii_toupper of GLib, on the bytes up to the first zero.
unfoldable pub upcase : (ℕ → ℕ) → Bytes → Bytes
upcase g_ascii_toupper [] = []
upcase g_ascii_toupper (c ∷ s) =
    let rest = upcase g_ascii_toupper s in if c == 0 then c ∷ s else g_ascii_toupper c ∷ rest

unfoldable pub search_key_generate : (ℕ → ℕ) → Bytes → Bytes → Bytes
search_key_generate g_ascii_toupper addrtype address =
    upcase g_ascii_toupper (addrtype ++ (codes ":" ++ (address ++ 0 ∷ [])))

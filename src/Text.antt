-- ===== src/Text.antt =====
-- Strings in server/lib/e2k-utils.c: line ends, trailing slashes and hashing without case. A string is
-- the list of its bytes, without the terminator.
pub mod Laws
use evolution_exchange.Prelude.{
  ℕ, zero, suc, ◌+◌, ◌-◌, ◌*◌, ◌%◌, ◌^◌, Bool, true, false, Option, none, some, List, [], ◌∷◌, ◌++◌,
  ◌==◌, if◌then◌else◌, Bytes, codes,
}
use evolution_exchange.Props.{strrchr}

-- The loop that copies.
unfoldable pub lf_to_crlf : Bytes → Bytes
lf_to_crlf [] = []
lf_to_crlf (c ∷ s) = let rest = lf_to_crlf s in if c == b'\n' then b'\r' ∷ c ∷ rest else c ∷ rest

-- The length that is allocated, less the terminator: strlen, and one for each LF that strchr finds.
unfoldable pub crlf_length : Bytes → ℕ
crlf_length [] = 0
crlf_length (c ∷ s) = let rest = crlf_length s in if c == b'\n' then suc (suc rest) else suc rest

unfoldable pub crlf_to_lf : Bytes → Bytes
crlf_to_lf [] = []
crlf_to_lf (c ∷ s) = let rest = crlf_to_lf s in if c == b'\r' then rest else c ∷ rest

-- "%s/", unless the last slash ends the path.
abbrev pub slashed : Bytes → Option Bytes → Bytes
slashed path (some (c ∷ [])) = path
slashed path p = path ++ codes "/"

-- `none` is NULL.
unfoldable pub strdup_with_trailing_slash : Bytes → Option Bytes
strdup_with_trailing_slash [] = none
strdup_with_trailing_slash (c ∷ s) = some (slashed (c ∷ s) (strrchr (c ∷ s) b'/'))

-- g_ascii_tolower of GLib, its gchar as a number of 32 bits.
module _ (g_ascii_tolower : ℕ → ℕ) where
  -- The loop, on a guint of 32 bits.
  unfoldable pub hash_from : ℕ → Bytes → ℕ
  hash_from h [] = h
  hash_from h (c ∷ s) = hash_from ((h * 32 + 2 ^ 32 - h + g_ascii_tolower c) % 2 ^ 32) s

  -- The first byte is read even if it is the terminator.
  unfoldable pub ascii_strcase_hash : Bytes → ℕ
  ascii_strcase_hash [] = g_ascii_tolower 0
  ascii_strcase_hash (c ∷ s) = let h = g_ascii_tolower c in if h == 0 then h else hash_from h s

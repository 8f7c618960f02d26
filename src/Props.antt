-- ===== src/Props.antt =====
-- MAPI property names and tags: e2k_prop_proptag, e2k_proptag_prop and what they call in
-- server/lib/e2k-properties.c, and e2k_rule_prop_set of server/lib/e2k-rule.c.
-- `known_properties` interns names: an entry is made from its name alone, so that the proptag
-- does not depend on what the table holds, and `pi->name` is a copy of the name looked up.
pub mod Names
use evolution_exchange.Prelude.{
  ℕ, zero, suc, ◌+◌, ◌-◌, ◌*◌, ◌/◌, ◌%◌, ◌^◌, Bool, ◌&&◌, ◌||◌, Option, none, some, [], ◌∷◌, ◌++◌,
  ltb, leb, ◌==◌, if◌then◌else◌, Bytes, codes,
}
use evolution_exchange.Outcome.{Outcome, ok, fault, ◌>>=◌}

-- strrchr: the string from the last occurrence on, `none` for NULL.
unfoldable pub strrchr : Bytes → ℕ → Option Bytes
strrchr [] c = none
strrchr (b ∷ s) c = elim (strrchr s c) [
  | some t ↦ some t
  | none ↦ if b == c then some (b ∷ s) else none
]

unfoldable pub get_div : Bytes → Option Bytes
get_div propname = elim (strrchr propname b'/') [
  | some div ↦ some div
  | none ↦ strrchr propname b':'
]

-- `get_div (prop) + 1`; a name with neither separator gives NULL + 1, which is then read.
unfoldable pub prop_property_name : Bytes → Outcome Bytes
prop_property_name prop = elim (get_div prop) [ some (b ∷ short) ↦ ok short | _ ↦ fault ]

unfoldable pub is_space : ℕ → Bool
is_space c = c == 32 || (leb 9 c && leb c 13)

unfoldable pub hex_value : ℕ → Option ℕ
hex_value c =
    if leb b'0' c && leb c b'9'
    then some (c - b'0')
    else if leb b'a' c && leb c b'f'
    then some (c - b'a' + 10)
    else if leb b'A' c && leb c b'F'
    then some (c - b'A' + 10)
    else none

-- strtoul (s, NULL, 16) of the C library: spaces, a sign, "0x", digits; too large gives ULONG_MAX.
unfoldable pub skip_spaces : Bytes → Bytes
skip_spaces [] = []
skip_spaces (c ∷ s) = let rest = skip_spaces s in if is_space c then rest else c ∷ s

unfoldable pub hex_digits : ℕ → Bytes → ℕ
hex_digits acc [] = acc
hex_digits acc (c ∷ s) = elim (hex_value c) [ some d ↦ hex_digits (acc * 16 + d) s | none ↦ acc ]

unfoldable pub skip_0x : Bytes → Bytes
skip_0x (a ∷ b ∷ s) = if a == b'0' && (b == b'x' || b == b'X') then s else a ∷ b ∷ s
skip_0x s = s

unfoldable pub strtoul_unsigned : Bytes → ℕ
strtoul_unsigned s = let n = hex_digits 0 (skip_0x s) in if ltb n (2 ^ 64) then n else 2 ^ 64 - 1

unfoldable pub strtoul_signed : Bytes → ℕ
strtoul_signed [] = 0
strtoul_signed (c ∷ s) =
    if c == b'-'
    then (let n = hex_digits 0 (skip_0x s) in
        if ltb n (2 ^ 64) then (2 ^ 64 - n) % 2 ^ 64 else 2 ^ 64 - 1)
    else if c == b'+'
    then strtoul_unsigned s
    else strtoul_unsigned (c ∷ s)

unfoldable pub strtoul : Bytes → ℕ
strtoul s = strtoul_signed (skip_spaces s)

-- The `proptag` of a new entry of get_propinfo, from its `short_name`.
unfoldable pub short_name_proptag : Bytes → ℕ
short_name_proptag [] = 0
short_name_proptag (c ∷ s) = if c == b'x' then strtoul s % 2 ^ 32 else 0

unfoldable pub prop_proptag : Bytes → Outcome ℕ
prop_proptag prop = prop_property_name prop >>= λ short. ok (short_name_proptag short)

-- printf's %x, one digit.
unfoldable pub hex_digit : ℕ → ℕ
hex_digit d = if ltb d 10 then b'0' + d else b'a' + (d - 10)

-- printf's %08x of a 32-bit number.
unfoldable pub hex8 : ℕ → Bytes
hex8 n =
    hex_digit ((n / 2 ^ 28) % 16)
    ∷ hex_digit ((n / 2 ^ 24) % 16)
    ∷ hex_digit ((n / 2 ^ 20) % 16)
    ∷ hex_digit ((n / 2 ^ 16) % 16)
    ∷ hex_digit ((n / 2 ^ 12) % 16)
    ∷ hex_digit ((n / 2 ^ 8) % 16)
    ∷ hex_digit ((n / 2 ^ 4) % 16)
    ∷ hex_digit (n % 16)
    ∷ []

-- E2K_NS_MAPI_PROPTAG
unfoldable pub ns_mapi_proptag : Bytes
ns_mapi_proptag = codes "http://schemas.microsoft.com/mapi/proptag/"

unfoldable pub proptag_prop : ℕ → Bytes
proptag_prop proptag = ns_mapi_proptag ++ b'x' ∷ hex8 proptag

-- E2kRuleProp
pub record RuleProp : Type 0 where
  pub name : Bytes
  pub proptag : ℕ

unfoldable pub rule_prop_set : Bytes → Outcome RuleProp
rule_prop_set propname =
    prop_proptag propname >>= λ tag. ok (record { name = propname; proptag = tag })

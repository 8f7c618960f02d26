-- ===== src/Sid.antt =====
-- Windows security identifiers: server/lib/e2k-sid.c. A string is the list of its bytes before the
-- terminator, a binary identifier the memory from its first byte on.
pub mod Decimal
pub mod RoundTrip
pub mod Nameless
use evolution_exchange.Prelude.{
  ℕ, zero, suc, ◌+◌, ◌-◌, ◌*◌, ◌/◌, ◌%◌, ◌^◌, Bool, true, false, not, ◌&&◌, ◌||◌, Option, none,
  some, List, [], ◌∷◌, ◌++◌, length, take, drop, ltb, leb, ◌==◌, if◌then◌else◌, Bytes, codes,
}
use evolution_exchange.Outcome.{Outcome, ok, failed, fault, starved, ◌>>=◌}
use evolution_exchange.Strings.{same_bytes}
use evolution_exchange.Wire.{append_uint32, read_uint32}
use evolution_exchange.Props.{skip_spaces}

-- "%u" and "%lu" of a number below 10 ^ n, which takes `n` digits at most.
unfoldable pub print_digits : ℕ → ℕ → Bytes
print_digits zero n = []
print_digits (suc digits) n =
    let rest = print_digits digits (n / 10) in
    if ltb n 10 then (b'0' + n) ∷ [] else rest ++ (b'0' + n % 10) ∷ []

-- For a number of 32 bits.
unfoldable pub print_decimal : ℕ → Bytes
print_decimal n = print_digits 10 n

unfoldable pub is_digit : ℕ → Bool
is_digit c = leb b'0' c && leb c b'9'

-- The number that the digits at the front continue, and what is behind them.
unfoldable pub read_digits : ℕ → Bytes → ℕ × Bytes
read_digits acc [] = (acc, [])
read_digits acc (c ∷ s) =
    let rest = read_digits (acc * 10 + (c - b'0')) s in if is_digit c then rest else (acc, c ∷ s)

-- strtoul (s, &end, 10) of the C library: the value and `end`. Without digits `end` is `s`; a number
-- that is too large gives ULONG_MAX.
unfoldable pub unsigned_decimal : Bool → Bytes → Bytes → ℕ × Bytes
unsigned_decimal minus s [] = (0, s)
unsigned_decimal minus s (c ∷ t) =
    let (n, end) = read_digits 0 (c ∷ t) in
    if is_digit c
    then (if ltb n (2 ^ 64) then (if minus then (2 ^ 64 - n) % 2 ^ 64 else n) else 2 ^ 64 - 1, end)
    else (0, s)

unfoldable pub signed_decimal : Bytes → Bytes → ℕ × Bytes
signed_decimal s [] = (0, s)
signed_decimal s (c ∷ t) =
    if c == b'-'
    then unsigned_decimal true s t
    else if c == b'+'
    then unsigned_decimal false s t
    else unsigned_decimal false s (c ∷ t)

unfoldable pub strtoul_decimal : Bytes → ℕ × Bytes
strtoul_decimal s = signed_decimal s (skip_spaces s)

pub data SidType : Type 0 where
  invalid user alias group well_known_group domain deleted_account unknown computer : SidType

pub record Sid : Type 0 where
  pub type : SidType
  pub binary_sid : Option Bytes
  pub string_sid : Option Bytes
  pub display_name : Option Bytes

-- The loop over SubAuthority in e2k_sid_get_string_sid.
unfoldable pub print_subauthorities : ℕ → Bytes → Outcome Bytes
print_subauthorities zero mem = ok []
print_subauthorities (suc count) mem = read_uint32 mem >>= λ v.
    print_subauthorities count (drop 4 mem) >>= λ rest. ok (codes "-" ++ print_decimal v ++ rest)

unfoldable pub print_sid : Bytes → Outcome Bytes
print_sid (revision ∷ count ∷ _ ∷ _ ∷ _ ∷ _ ∷ _ ∷ authority ∷ mem) =
    print_subauthorities count mem >>= λ rest.
    ok (codes "S-" ++ print_decimal revision ++ codes "-" ++ print_decimal authority ++ rest)
print_sid _ = fault

-- The string, and the identifier that keeps it.
unfoldable pub get_string_sid : Sid → Outcome (Bytes × Sid)
get_string_sid sid = elim sid.string_sid [
  | some s ↦ ok (s, sid)
  | none ↦ elim sid.binary_sid [
    | some b ↦ print_sid b >>= λ s. ok (s, record sid { string_sid = some s })
    | none ↦ fault
  ]
]

-- How many '-' strchr finds.
unfoldable pub count_dashes : Bytes → ℕ
count_dashes [] = 0
count_dashes (c ∷ s) = (if c == b'-' then 1 else 0) + count_dashes s

unfoldable pub zeros : ℕ → Bytes
zeros zero = []
zeros (suc n) = 0 ∷ zeros n

-- The loop over SubAuthority in e2k_sid_get_binary_sid, on memory that is zero.
unfoldable pub write_subauthorities : ℕ → Bytes → Bytes
write_subauthorities zero p = []
write_subauthorities (suc count) [] = zeros (4 + count * 4)
write_subauthorities (suc count) (c ∷ p) =
    let (v, end) = strtoul_decimal p in
    let rest = write_subauthorities count end in
    if c == b'-' then append_uint32 v ++ rest else zeros (4 + count * 4)

unfoldable pub parse_sid : Bytes → Outcome Bytes
parse_sid s =
    if ltb (length s) 4
    then fault
    else (let count = count_dashes (drop 4 s) in
        let (authority, p) = strtoul_decimal (drop 4 s) in
        ok (
          1 ∷ count % 2 ^ 8 ∷ 0 ∷ 0 ∷ 0 ∷ 0 ∷ 0 ∷ authority % 2 ^ 8 ∷ write_subauthorities count p))

unfoldable pub get_binary_sid : Sid → Outcome (Bytes × Sid)
get_binary_sid sid = elim sid.binary_sid [
  | some b ↦ ok (b, sid)
  | none ↦ elim sid.string_sid [
    | some s ↦ parse_sid s >>= λ b. ok (b, record sid { binary_sid = some b })
    | none ↦ fault
  ]
]

-- E2K_SID_BINARY_SID_LEN
unfoldable pub binary_sid_len : Bytes → Outcome ℕ
binary_sid_len (_ ∷ count ∷ _) = ok (8 + count * 4)
binary_sid_len _ = fault

-- g_memdup and memcmp of so many bytes.
abbrev pub front : ℕ → Bytes → Outcome Bytes
front n mem = if leb n (length mem) then ok (take n mem) else fault

unfoldable pub copy_binary : Option Bytes → Outcome (Option Bytes)
copy_binary none = ok none
copy_binary (some b) = binary_sid_len b >>= λ n. front n b >>= λ c. ok (some c)

-- The name of a well-known group, of the string that the caller gives: strcmp follows it.
unfoldable pub well_known_name : Option Bytes → Outcome (Option Bytes)
well_known_name none = fault
well_known_name (some s) =
    if same_bytes s (codes "S-1-5-7")
    then ok (some (codes "Anonymous"))
    else if same_bytes s (codes "S-1-1-0")
    then ok (some (codes "Default"))
    else ok (some s)

unfoldable pub name_of : SidType → Option Bytes → Outcome (Option Bytes)
name_of well_known_group string_sid = well_known_name string_sid
name_of _ string_sid = ok string_sid

-- sid_new_internal, where the first of the three cases copies the string, and the second prints it.
unfoldable pub fill_string : Option Bytes → Option Bytes → Sid → Outcome Sid
fill_string (some s) display_name sid = ok (record sid { string_sid = some s })
fill_string none (some n) sid = ok sid
fill_string none none sid = get_string_sid sid >>= λ r. ok r.1

unfoldable pub choose_name : SidType → Option Bytes → Option Bytes → Outcome (Option Bytes)
choose_name type string_sid (some n) = ok (some n)
choose_name type string_sid none = name_of type string_sid

unfoldable pub sid_new_internal : SidType → Option Bytes → Option Bytes → Option Bytes → Outcome Sid
sid_new_internal type display_name string_sid binary_sid = copy_binary binary_sid >>= λ b.
    let sid : Sid = record {
      type = type;
      binary_sid = b;
      string_sid = none;
      display_name = none;
    } in
    fill_string string_sid display_name sid >>= λ sid.
    choose_name type string_sid display_name >>= λ n. ok (record sid { display_name = n })

-- `failed` is NULL.
unfoldable pub new_from_string_sid : SidType → Bytes → Option Bytes → Outcome Sid
new_from_string_sid type s display_name =
    if ltb (length s) 6 || not (same_bytes (take 4 s) (codes "S-1-"))
    then failed
    else sid_new_internal type display_name (some s) none

unfoldable pub new_from_binary_sid : SidType → Bytes → Option Bytes → Outcome Sid
new_from_binary_sid type b display_name = sid_new_internal type display_name none (some b)

-- memcmp, of identifiers whose lengths agree.
unfoldable pub binary_sid_equal : Bytes → Bytes → Outcome Bool
binary_sid_equal a b = binary_sid_len a >>= λ n. binary_sid_len b >>= λ m.
    if n == m then (front n a >>= λ x. front n b >>= λ y. ok (same_bytes x y)) else ok false

-- `guint32_of` reads a number in the machine's byte order.
unfoldable pub binary_sid_hash : (Bytes → ℕ) → Bytes → Outcome ℕ
binary_sid_hash guint32_of b =
    binary_sid_len b >>= λ n. front 4 (drop (n - 4) b) >>= λ s. ok (guint32_of s)

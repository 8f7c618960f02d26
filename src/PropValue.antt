-- ===== src/PropValue.antt =====
-- Property values in binary rules: e2k_rule_{append,extract}_{proptag,propvalue} of
-- server/lib/e2k-rule.c.
pub mod RoundTrip
pub mod Safe
pub mod Dates
use evolution_exchange.Prelude.{
  ℕ, zero, suc, ◌+◌, ◌-◌, ◌*◌, ◌/◌, ◌%◌, ◌^◌, Bool, true, false, ◌||◌, Option, none, some, List, [],
  ◌∷◌, ◌++◌, ◌==◌, if◌then◌else◌, Bytes, bit_or, below,
}
use evolution_exchange.Outcome.{Outcome, ok, failed, fault, ◌>>=◌}
use evolution_exchange.Platform.{Platform}
use evolution_exchange.Props.{RuleProp, proptag_prop}
use evolution_exchange.Time.{filetime_to_time_t, make_timestamp}
use evolution_exchange.Unicode.{append_unicode, extract_unicode}
use evolution_exchange.Wire.{
  Cursor, Reader, advance, append_uint32, extract_uint32, read_uint32, append_byte, extract_byte,
  append_binary, extract_binary,
}

-- E2K_PROPTAG_TYPE and E2K_PROPTAG_ID
abbrev pub proptag_type : ℕ → ℕ
proptag_type proptag = proptag % 2 ^ 16

abbrev pub proptag_id : ℕ → ℕ
proptag_id proptag = proptag / 2 ^ 16 * 2 ^ 16

abbrev pub pt_long : ℕ
pt_long = 0x0003

abbrev pub pt_boolean : ℕ
pt_boolean = 0x000b

abbrev pub pt_string8 : ℕ
pt_string8 = 0x001e

abbrev pub pt_unicode : ℕ
pt_unicode = 0x001f

abbrev pub pt_systime : ℕ
pt_systime = 0x0040

abbrev pub pt_binary : ℕ
pt_binary = 0x0102

abbrev pub pt_unicode_rule : ℕ
pt_unicode_rule = 0x84b0

-- `type` and `value` of an E2kPropValue: the constructor is the type. A string may be NULL.
pub data Value : Type 0 where
  string : Option Bytes → Value
  binary : Bytes → Value
  date : Bytes → Value
  int : ℕ → Value
  bool : ℕ → Value

pub record PropValue : Type 0 where
  pub prop : RuleProp
  pub value : Value

-- The tag that is written in place of `proptag`.
unfoldable pub rule_proptag : ℕ → ℕ
rule_proptag proptag =
    if proptag_type proptag == pt_string8 || proptag_type proptag == pt_unicode
    then bit_or (proptag_id proptag) pt_unicode_rule
    else proptag

unfoldable pub append_proptag : RuleProp → Bytes
append_proptag prop = append_uint32 (rule_proptag prop.proptag)

-- The tag that is kept in place of the one that was read.
unfoldable pub unrule_proptag : ℕ → ℕ
unrule_proptag proptag =
    if proptag_type proptag == pt_unicode_rule
    then bit_or (proptag_id proptag) pt_unicode
    else proptag

unfoldable pub extract_proptag : Reader RuleProp
extract_proptag c = extract_uint32 c >>= λ (read, c₁).
    let tag = unrule_proptag read in ok (record { name = proptag_prop tag; proptag = tag }, c₁)

-- `pv->value` used as a string, a byte array, a number. Any other use reads memory through a
-- pointer to something else.
unfoldable pub as_string : Value → Outcome Bytes
as_string (string (some s)) = ok s
as_string (date s) = ok s
as_string _ = fault

unfoldable pub as_binary : Value → Outcome Bytes
as_binary (binary b) = ok b
as_binary _ = fault

unfoldable pub as_number : Value → Outcome ℕ
as_number (int n) = ok n
as_number (bool n) = ok n
as_number _ = fault

-- memcpy of 8 bytes and GUINT64_FROM_LE.
unfoldable pub read_uint64 : Bytes → Outcome ℕ
read_uint64 (a ∷ b ∷ c ∷ d ∷ e ∷ f ∷ g ∷ h ∷ rest) =
    ok (a + b * 2 ^ 8 + c * 2 ^ 16 + d * 2 ^ 24 + e * 2 ^ 32 + f * 2 ^ 40 + g * 2 ^ 48 + h * 2 ^ 56)
read_uint64 _ = fault

unfoldable pub extract_uint64 : Reader ℕ
extract_uint64 c =
    if below c.len 8 then failed else (read_uint64 c.ptr >>= λ val. ok (val, advance 8 c))

module _ (p : Platform) where
  -- The switch of e2k_rule_append_propvalue. A PT_SYSTIME falls under the default.
  unfoldable pub append_value : ℕ → Value → Outcome Bytes
  append_value type v =
      if type == pt_unicode || type == pt_string8
      then (as_string v >>= λ s. ok (append_unicode p s))
      else if type == pt_binary
      then (as_binary v >>= λ b. ok (append_binary b))
      else if type == pt_long
      then (as_number v >>= λ n. ok (append_uint32 n))
      else if type == pt_boolean
      then (as_number v >>= λ n. ok (append_byte n))
      else ok []

  -- A zero tag is refused (g_return_if_fail): nothing is appended.
  unfoldable pub append_propvalue : PropValue → Outcome Bytes
  append_propvalue pv =
      if pv.prop.proptag == 0
      then ok []
      else (append_value (proptag_type pv.prop.proptag) pv.value >>= λ bytes.
          ok (append_proptag pv.prop ++ bytes))

  -- The switch of e2k_rule_extract_propvalue.
  unfoldable pub extract_value : ℕ → Reader Value
  extract_value type c =
      if type == pt_unicode || type == pt_string8
      then (extract_unicode p c >>= λ (s, c₁). ok (string s, c₁))
      else if type == pt_binary
      then (extract_binary c >>= λ (b, c₁). ok (binary b, c₁))
      else if type == pt_systime
      then (extract_uint64 c >>= λ (t, c₁). ok (date (make_timestamp p (filetime_to_time_t t)), c₁))
      else if type == pt_long
      then (extract_uint32 c >>= λ (n, c₁). ok (int n, c₁))
      else if type == pt_boolean
      then (extract_byte c >>= λ (n, c₁). ok (bool n, c₁))
      else failed

  unfoldable pub extract_propvalue : Reader PropValue
  extract_propvalue c = extract_proptag c >>= λ (prop, c₁).
      extract_value (proptag_type prop.proptag) c₁ >>= λ (v, c₂).
      ok (record { prop = prop; value = v }, c₂)

-- ===== src/PropValue/RoundTrip.antt =====
-- Property tags and values are read back as written.
use evolution_exchange.Prelude.{
  ℕ, ◌+◌, ◌/◌, ◌^◌, ◌<◌, ◌≡◌, ◌≢◌, ap, sym, ◌∙◌, false, ◌||◌, none, some, List, [], ◌++◌, ◌==◌,
  if◌then◌else◌, Bytes, bit_or_high, arith, length, ne→==,
}
use evolution_exchange.Outcome.{ok, ◌>>=◌}
use evolution_exchange.Platform.{Platform, HasUnicode}
use evolution_exchange.Props.{RuleProp, proptag_prop}
use evolution_exchange.Unicode.{append_unicode, extract_unicode}
use evolution_exchange.Unicode.RoundTrip.{unicode-Reads}
use evolution_exchange.Wire.{
  window, append_uint32, extract_uint32, append_byte, extract_byte, append_binary, extract_binary,
}
use evolution_exchange.Wire.Reads.{Reads, Reads-bind, Reads-map, ReadsBack}
use evolution_exchange.Wire.RoundTrip.{uint32-Reads_fits, byte-Reads_fits, binary-Reads}
use evolution_exchange.PropValue.{
  proptag_type, proptag_id, pt_long, pt_boolean, pt_string8, pt_unicode, pt_binary, pt_unicode_rule,
  Value, string, binary, date, int, bool, PropValue, rule_proptag, append_proptag, unrule_proptag,
  extract_proptag, append_value, append_propvalue, extract_value, extract_propvalue, as_string,
  as_binary, as_number,
}

-- What a tag becomes when it is written and read: a STRING8 turns into a UNICODE.
abbrev pub reread_proptag : ℕ → ℕ
reread_proptag tag =
    if proptag_type tag == pt_string8 || proptag_type tag == pt_unicode_rule
    then proptag_id tag + pt_unicode
    else tag

unrule-rule_proptag :
    (tag : ℕ) → tag < 2 ^ 32 → unrule_proptag (rule_proptag tag) ≡ reread_proptag tag
unfolding unrule_proptag rule_proptag
unrule-rule_proptag tag h =
    ground (
      arith,
      bit_or_high 16 (tag / 2 ^ 16) pt_unicode_rule,
      bit_or_high 16 (tag / 2 ^ 16) pt_unicode,
    )

rule_proptag-lt : (tag : ℕ) → tag < 2 ^ 32 → rule_proptag tag < 2 ^ 32
unfolding rule_proptag
rule_proptag-lt tag h = ground (arith, bit_or_high 16 (tag / 2 ^ 16) pt_unicode_rule)

abbrev pub prop_of : ℕ → RuleProp
prop_of tag = record { name = proptag_prop tag; proptag = tag }

-- A 32-bit tag that is written is read back with the name that belongs to it, where a STRING8
-- tag, and one of the rules' own string type, has become a UNICODE tag.
pub proptag-Reads_reread :
    (prop : RuleProp)
    → prop.proptag < 2 ^ 32
    → Reads extract_proptag (append_proptag prop) (prop_of (reread_proptag prop.proptag))
unfolding extract_proptag append_proptag
proptag-Reads_reread prop h rest n =
    rw (uint32-Reads_fits (rule_proptag prop.proptag) (rule_proptag-lt prop.proptag h) rest n)
      (ap (λ t. ok (prop_of t, window rest n)) (unrule-rule_proptag prop.proptag h))

-- A property as e2k_rule_extract_proptag makes it: a 32-bit tag with its own name, of a type that
-- is not written as another one.
pub record IsCanonical (prop : RuleProp) : Type 0 where
  pub named : prop.name ≡ proptag_prop prop.proptag
  pub fits : prop.proptag < 2 ^ 32
  pub not_string8 : proptag_type prop.proptag ≢ pt_string8
  pub not_rule : proptag_type prop.proptag ≢ pt_unicode_rule

pub proptag-Reads :
    (prop : RuleProp) → IsCanonical prop → Reads extract_proptag (append_proptag prop) prop
proptag-Reads prop c rest n =
    proptag-Reads_reread prop c.fits rest n ∙ ap (λ r. ok (r, window rest n)) same
  where
    kept : reread_proptag prop.proptag ≡ prop.proptag
    kept = rw (ne→== _ _ c.not_string8, ne→== _ _ c.not_rule)

    same : prop_of (reread_proptag prop.proptag) ≡ prop
    same = ap prop_of kept ∙ λ i. record { name = sym c.named i; proptag = prop.proptag }

module _ (p : Platform) where
  -- The value has the C type that the tag's type stands for, and fits its field.
  abbrev pub Fits : ℕ → Value → Type 0
  Fits type (string (some s)) =
      (type ≡ pt_unicode) × ((us : List ℕ) × (p.utf8_to_utf16 s ≡ some us))
  Fits type (string none) = ⊥
  Fits type (binary b) = (type ≡ pt_binary) × (length b < 2 ^ 16)
  Fits type (date s) = ⊥
  Fits type (int n) = (type ≡ pt_long) × (n < 2 ^ 32)
  Fits type (bool n) = (type ≡ pt_boolean) × (n < 256)

  pub record IsStorable (pv : PropValue) : Type 0 where
    pub canonical : IsCanonical pv.prop
    pub fitting : Fits (proptag_type pv.prop.proptag) pv.value

  -- What is appended for a value, as bytes.
  unfoldable pub written_value : Value → Bytes
  written_value (string (some s)) = append_unicode p s
  written_value (string none) = []
  written_value (binary b) = append_binary b
  written_value (date s) = []
  written_value (int n) = append_uint32 n
  written_value (bool n) = append_byte n

  append_value-Fits :
      (type : ℕ) (v : Value) → Fits type v → append_value p type v ≡ ok (written_value v)
  unfolding append_value written_value as_string as_binary as_number
  append_value-Fits type (string (some s)) h = rw h.0
  append_value-Fits type (string none) h = absurd h
  append_value-Fits type (binary b) h = rw h.0
  append_value-Fits type (date s) h = absurd h
  append_value-Fits type (int n) h = rw h.0
  append_value-Fits type (bool n) h = rw h.0

  Fits-ne-zero : (type : ℕ) (v : Value) → Fits type v → type ≢ 0
  Fits-ne-zero type (string (some s)) h = λ e. absurd (omega (arith, h.0))
  Fits-ne-zero type (string none) h = absurd h
  Fits-ne-zero type (binary b) h = λ e. absurd (omega (arith, h.0))
  Fits-ne-zero type (date s) h = absurd h
  Fits-ne-zero type (int n) h = λ e. absurd (omega (arith, h.0))
  Fits-ne-zero type (bool n) h = λ e. absurd (omega (arith, h.0))

  unfoldable pub written : PropValue → Bytes
  written pv = append_proptag pv.prop ++ written_value pv.value

  pub append_propvalue-IsStorable :
      (pv : PropValue) → IsStorable pv → append_propvalue p pv ≡ ok (written pv)
  unfolding append_propvalue written
  append_propvalue-IsStorable pv s = rw (ne→== _ 0 tag, append_value-Fits _ pv.value s.fitting)
    where
      tag : pv.prop.proptag ≢ 0
      tag e = Fits-ne-zero _ pv.value s.fitting (ap proptag_type e)

  module _ (laws : HasUnicode p) (little : p.big_endian ≡ false) where
    value-Reads :
        (type : ℕ) (v : Value) → Fits type v → Reads (extract_value p type) (written_value v) v
    unfolding extract_value written_value
    value-Reads type (string (some s)) h = rw h.0 (
        Reads-map (extract_unicode p) string (append_unicode p s) (some s)
          (unicode-Reads p s h.1.0 laws little h.1.1))
    value-Reads type (string none) h = absurd h
    value-Reads type (binary b) h =
        rw h.0 (Reads-map extract_binary binary (append_binary b) b (binary-Reads b h.1))
    value-Reads type (date s) h = absurd h
    value-Reads type (int n) h =
        rw h.0 (Reads-map extract_uint32 int (append_uint32 n) n (uint32-Reads_fits n h.1))
    value-Reads type (bool n) h =
        rw h.0 (Reads-map extract_byte bool (append_byte n) n (byte-Reads_fits n h.1))

    pub written-Reads :
        (pv : PropValue) → IsStorable pv → Reads (extract_propvalue p) (written pv) pv
    unfolding extract_propvalue written
    written-Reads pv s =
        Reads-bind extract_proptag
          (λ prop c. extract_value p (proptag_type prop.proptag) c >>= λ (v, c₂).
            ok (record { prop = prop; value = v }, c₂))
          (append_proptag pv.prop) (written_value pv.value) pv.prop pv
          (proptag-Reads pv.prop s.canonical)
          (Reads-map (extract_value p (proptag_type pv.prop.proptag))
            (λ v. record { prop = pv.prop; value = v }) (written_value pv.value) pv.value
            (value-Reads _ pv.value s.fitting))

    -- A storable property value is written, and read back from its bytes wherever they stand in
    -- an array, on a little-endian machine where GLib converts valid strings without loss.
    pub extract_propvalue-append_propvalue :
        (pv : PropValue)
        → IsStorable pv
        → ReadsBack (append_propvalue p pv) (extract_propvalue p) pv
    extract_propvalue-append_propvalue pv s =
        (written pv, append_propvalue-IsStorable pv s, written-Reads pv s)

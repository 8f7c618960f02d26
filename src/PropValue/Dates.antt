-- ===== src/PropValue/Dates.antt =====
-- Dates in binary rules: server/lib/e2k-rule.c reads them, and does not write them.
use evolution_exchange.Prelude.{
  ℕ, ◌^◌, ◌<◌, ◌≡◌, ◌≢◌, ap, ne→==, refl, length, [], append-nil, arith,
}
use evolution_exchange.Outcome.{ok, failed, ◌>>=◌}
use evolution_exchange.Platform.{Platform}
use evolution_exchange.Wire.Reads.{Reads-whole}
use evolution_exchange.Wire.{window}
use evolution_exchange.PropValue.{
  proptag_type, pt_systime, append_proptag, extract_proptag, append_value, extract_value,
  append_propvalue, extract_propvalue, PropValue, extract_uint64,
}
use evolution_exchange.PropValue.RoundTrip.{reread_proptag, prop_of, proptag-Reads_reread}

date_tag : (tag : ℕ) → proptag_type tag ≡ pt_systime → reread_proptag tag ≡ tag
date_tag tag h = rw h refl

module _ (p : Platform) where
  no_value : append_value p pt_systime ≡ λ v. ok []
  unfolding append_value
  no_value = refl

  tag_only :
      (pv : PropValue)
      → proptag_type pv.prop.proptag ≡ pt_systime
      → append_propvalue p pv ≡ ok (append_proptag pv.prop)
  unfolding append_propvalue
  tag_only pv h =
      rw (ne→== pv.prop.proptag 0 nonzero, h, no_value)
        (ap ok (append-nil (append_proptag pv.prop)))
    where
      nonzero : pv.prop.proptag ≢ 0
      nonzero e = absurd (omega arith)

  nothing_left : extract_value p pt_systime (window [] 0) ≡ failed
  unfolding extract_value extract_uint64
  nothing_left = refl

  -- Of a property whose 32-bit tag has the type PT_SYSTIME e2k_rule_append_propvalue writes the
  -- tag and nothing behind it, and reading that back fails.
  pub extract_propvalue-append_propvalue_date :
      (pv : PropValue)
      → proptag_type pv.prop.proptag ≡ pt_systime
      → pv.prop.proptag < 2 ^ 32
      → (append_propvalue p pv ≡ ok (append_proptag pv.prop))
        × ((append_propvalue p pv >>= λ bytes. extract_propvalue p (window bytes (length bytes)))
            ≡ failed)
  unfolding extract_propvalue
  extract_propvalue-append_propvalue_date pv h fits = (
    tag_only pv h,
    rw
        (
          tag_only pv h,
          Reads-whole extract_proptag (append_proptag pv.prop)
              (prop_of (reread_proptag pv.prop.proptag)) (proptag-Reads_reread pv.prop fits),
          date_tag pv.prop.proptag h,
          h,
          nothing_left,
        )
        refl,
  )

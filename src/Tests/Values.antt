-- ===== src/Tests/Values.antt =====
-- The results on primitives, names, times and property values, applied to concrete inputs.
use evolution_exchange.PropValue.Dates.{extract_propvalue-append_propvalue_date}
use evolution_exchange.Outcome.{◌>>=◌, failed, ok}
use evolution_exchange.PropValue.Safe.{propvalue-IsSafe}
use evolution_exchange.Prelude.{◌≡◌, ◌∷◌, [], arith, refl, length}
use evolution_exchange.PropValue.RoundTrip.{extract_propvalue-append_propvalue}
use evolution_exchange.Wire.Safe.{Within}
use evolution_exchange.PropValue.{append_propvalue, extract_propvalue, append_proptag}
use evolution_exchange.Wire.Reads.{ReadsBack}
use evolution_exchange.Wire.{window}
use evolution_exchange.Tests.{machine, machine_unicode, subject, delivered, subject-IsStorable}

propvalue_example : ReadsBack (append_propvalue machine subject) (extract_propvalue machine) subject
propvalue_example =
    extract_propvalue-append_propvalue machine machine_unicode refl subject subject-IsStorable

propvalue_safe_example :
    Within 5 6 (extract_propvalue machine (window (0x1f ∷ 0 ∷ 0x37 ∷ 0 ∷ 104 ∷ 0 ∷ []) 6))
propvalue_safe_example =
    propvalue-IsSafe machine (0x1f ∷ 0 ∷ 0x37 ∷ 0 ∷ 104 ∷ 0 ∷ []) 6 (omega arith)

date_example :
    (append_propvalue machine delivered ≡ ok (append_proptag delivered.prop))
    × ((append_propvalue machine delivered >>= λ bytes.
          extract_propvalue machine (window bytes (length bytes)))
        ≡ failed)
date_example = extract_propvalue-append_propvalue_date machine delivered refl (omega arith)

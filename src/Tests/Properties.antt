-- ===== src/Tests/Properties.antt =====
-- The results on property sets, applied to concrete ones.
use evolution_exchange.Props.{prop_property_name, get_div, strrchr}
use evolution_exchange.Prelude.{some, [], ◌∷◌, ◌≡◌, ◌↔◌, inl, refl, arith, Bytes, List, codes, ◌∙◌}
use evolution_exchange.Outcome.{ok, fault}
use evolution_exchange.Strings.{same_bytes, same_bytes_iff, same_bytes_self}
use evolution_exchange.Tables.{HashTable, IsIn}
use evolution_exchange.Tables.Listed.{listed}
use evolution_exchange.PropertySet.{
  PropType, string, binary, Stored, text, null, PropInfo, Properties, properties_new,
  properties_copy, properties_foreach, properties_free,
}
use evolution_exchange.PropertySet.Typed.{fits, IsTyped}
use evolution_exchange.PropertySet.Refines.{
  Request, set, remove, AreTyped, plans, replay, run, untouched, run-properties_new, AreKnownAs,
}
use evolution_exchange.PropertySet.Copied.{properties_copy-IsTyped}
use evolution_exchange.PropertySet.Faults.{properties_copy-fault}
use evolution_exchange.PropertySet.Uses.{properties_foreach-IsTyped, all_owned}

abbrev glib : (V : Type 0) → HashTable Bytes V same_bytes
glib V = listed same_bytes same_bytes_iff

abbrev subject : Bytes
subject = codes "a:s"

abbrev body : Bytes
body = codes "a:b"

abbrev types : Bytes → PropType
types k = string

abbrev requests : List Request
requests = set string subject (text (codes "hi")) ∷ remove body ∷ []

requests-AreTyped : AreTyped types requests
requests-AreTyped = (
  (codes "s", unfold prop_property_name get_div strrchr in refl),
  refl,
  unfold fits in refl,
  ((codes "b", unfold prop_property_name get_div strrchr in refl), tt),
)

-- Nothing is known of any property.
abbrev nothing : (glib PropInfo).Table
nothing = (glib PropInfo).empty

nothing-AreKnownAs : AreKnownAs glib types nothing
nothing-AreKnownAs k pi l = ground (arith, (glib PropInfo).lookup-empty k)

run_example :
    (p : Properties glib) × (run glib requests (properties_new glib nothing) ≡ ok p)
    × IsTyped glib types p
    × (plans glib p ≡ replay requests (λ j. untouched))
run_example = run-properties_new glib types requests nothing nothing-AreKnownAs requests-AreTyped

-- The properties that the requests make.
built :
    (p : Properties glib) × (run glib requests (properties_new glib nothing) ≡ ok p)
    × IsTyped glib types p
    × (plans glib p ≡ replay requests (λ j. untouched))
built = run-properties_new glib types requests nothing nothing-AreKnownAs requests-AreTyped

abbrev made : Properties glib
made = built.0

copy_example :
    (p' : Properties glib) × (properties_copy glib (λ n. n) made ≡ ok p')
    × ((k : Bytes) → (glib Stored).lookup k p'.set ≡ (glib Stored).lookup k made.set)
    × ((k : Bytes) → (glib Stored).lookup k p'.removed ≡ (glib Stored).lookup k made.removed)
copy_example =
    properties_copy-IsTyped glib (λ n. n) types made built.2 (λ n. refl) (λ k v l. refl)
      (λ k v l. refl)

foreach_example :
    ((k : Bytes) (t : PropType) (v : Stored)
      → IsIn (k, t, v) (properties_foreach glib made)
        ↔ (((glib Stored).lookup k made.set ≡ some v) × (t ≡ types k)))
    × (properties_free glib made ≡ ok (all_owned ((glib Stored).entries made.set)))
foreach_example = properties_foreach-IsTyped glib types made built.2

-- The body, which is binary, is to be removed.
abbrev info : PropInfo
info = record { prop_type = binary; proptag = 0 }

abbrev without_body : Properties glib
without_body = record {
  set = (glib Stored).empty;
  removed = (glib Stored).insert body null (glib Stored).empty;
  known = (glib PropInfo).insert body info nothing;
}

fault_example : properties_copy glib (λ n. n) without_body ≡ fault
fault_example =
    properties_copy-fault glib (λ n. n) without_body body info
      ((glib PropInfo).lookup-insert body body info nothing ∙ rw (same_bytes_self body))
      (inl (
        (glib Stored).lookup-insert body body null (glib Stored).empty ∙ rw (same_bytes_self body),
        refl,
      ))

-- ===== src/PropertySet/Typed.antt =====
-- Property sets of server/lib/e2k-properties.c in which every name has one type.
use evolution_exchange.Prelude.{
  Bool, true, false, Option, none, some, ◌≡◌, ◌⊎◌, inl, inr, Bytes, refl, arith, Bool-cases, ◌∙◌,
  ap, List, [], ◌∷◌,
}
use evolution_exchange.Outcome.{ok}
use evolution_exchange.Props.{prop_property_name, short_name_proptag}
use evolution_exchange.Strings.{same_bytes, same_bytes→eq}
use evolution_exchange.Tables.{HashTable}
use evolution_exchange.PropertySet.{
  PropType, unknown, binary, string_array, binary_array, xml, int_array, Stored, null, text, texts,
  bytes, byte_arrays, node, PropInfo, Properties, free_prop, or_null, retyped, propinfo_entry,
  short_name_proptag,
}

-- The value is no NULL pointer, and points to what the type says.
unfoldable pub fits : PropType → Stored → Bool
fits unknown _ = false
fits binary_array (byte_arrays v) = true
fits binary_array _ = false
fits string_array (texts v) = true
fits string_array _ = false
fits int_array (texts v) = true
fits int_array _ = false
fits binary (bytes v) = true
fits binary _ = false
fits xml (node v) = true
fits xml _ = false
fits _ (text v) = true
fits _ _ = false

-- The name has a separator, behind which its short name stands.
abbrev pub IsNamed : Bytes → Type 0
IsNamed name = (short : Bytes) × (prop_property_name name ≡ ok short)

-- A value that is not NULL.
abbrev pub owned : Stored → List Stored
owned null = []
owned v = v ∷ []

pub free_prop-fits : (t : PropType) (v : Stored) → fits t v ≡ true → free_prop t v ≡ ok (owned v)
unfolding fits free_prop
free_prop-fits t v h = ground arith

pub true_not_false : {b : Bool} → b ≡ true → b ≡ false → ⊥
true_not_false t f = cc

module _ (glib : (V : Type 0) → HashTable Bytes V same_bytes) (ty : Bytes → PropType) where
  pub record IsTyped (p : Properties glib) : Type 0 where
    pub known_as :
        (k : Bytes) (pi : PropInfo)
        → (glib PropInfo).lookup k p.known ≡ some pi
        → (pi.prop_type ≡ unknown) ⊎ (pi.prop_type ≡ ty k)
    pub set_as :
        (k : Bytes) (v : Stored)
        → (glib Stored).lookup k p.set ≡ some v
        → (fits (ty k) v ≡ true)
          × ((pi : PropInfo) × ((glib PropInfo).lookup k p.known ≡ some pi) × (pi.prop_type ≡ ty k))
    pub removed_as :
        (k : Bytes) (v : Stored)
        → (glib Stored).lookup k p.removed ≡ some v
        → (v ≡ null)
          × ((glib Stored).lookup k p.set ≡ none)
          × ((pi : PropInfo) × ((glib PropInfo).lookup k p.known ≡ some pi))

  retyped-typed :
      (t : PropType) (pi : PropInfo) (k : Bytes)
      → (pi.prop_type ≡ unknown) ⊎ (pi.prop_type ≡ ty k)
      → (t ≡ unknown) ⊎ (t ≡ ty k)
      → ((retyped t pi).prop_type ≡ unknown) ⊎ ((retyped t pi).prop_type ≡ ty k)
  retyped-typed t pi k h u = ground arith

  retyped-same :
      (t : PropType) (pi : PropInfo) (k : Bytes)
      → (pi.prop_type ≡ unknown) ⊎ (pi.prop_type ≡ ty k)
      → t ≡ ty k
      → (retyped t pi).prop_type ≡ ty k
  retyped-same t pi k h u = ground arith

  retyped-kept :
      (t : PropType) (pi : PropInfo) (k : Bytes)
      → (t ≡ unknown) ⊎ (t ≡ ty k)
      → pi.prop_type ≡ ty k
      → (retyped t pi).prop_type ≡ ty k
  retyped-kept t pi k u h = ground arith

  -- The entry that is found or made, which has the name's type if that is asked for or was known.
  pub entry_typed :
      (k : Bytes) (t : PropType) (o : Option PropInfo)
      → IsNamed k
      → ((pi : PropInfo) → o ≡ some pi → (pi.prop_type ≡ unknown) ⊎ (pi.prop_type ≡ ty k))
      → (t ≡ unknown) ⊎ (t ≡ ty k)
      → (pi : PropInfo) × (propinfo_entry glib t k o ≡ ok pi)
        × ((pi.prop_type ≡ unknown) ⊎ (pi.prop_type ≡ ty k))
        × (t ≡ ty k → pi.prop_type ≡ ty k)
        × ((old : PropInfo) → o ≡ some old → old.prop_type ≡ ty k → pi.prop_type ≡ ty k)
  unfolding propinfo_entry
  entry_typed k t none (short, e) h u =
      (record { prop_type = t; proptag = short_name_proptag short }, rw e, u, λ q. q, λ old q. cc)
  entry_typed k t (some pi) named h u = (
    retyped t pi,
    refl,
    retyped-typed t pi k (h pi refl) u,
    λ q. retyped-same t pi k (h pi refl) q,
    λ old q w. retyped-kept t pi k u (ground arith),
  )

  pub freed_ok :
      (k : Bytes) (t : PropType) (o : Option Stored)
      → ((v : Stored) → o ≡ some v → fits t v ≡ true)
      → free_prop t (or_null o) ≡ ok (owned (or_null o))
  unfolding free_prop
  freed_ok k t none h = ground arith
  freed_ok k t (some v) h = free_prop-fits t v (h v refl)

  abbrev pub Known : Type 0
  Known = (glib PropInfo).Table

  abbrev pub IsKnown : Bytes → Known → Type 0
  IsKnown k t = (pi : PropInfo) × ((glib PropInfo).lookup k t ≡ some pi)

  abbrev pub HasType : Bytes → Known → Type 0
  HasType k t = (pi : PropInfo) × ((glib PropInfo).lookup k t ≡ some pi) × (pi.prop_type ≡ ty k)

  insert_self :
      (j k : Bytes) (pi : PropInfo) (t : Known)
      → same_bytes k j ≡ true
      → (glib PropInfo).lookup j ((glib PropInfo).insert k pi t) ≡ some pi
  insert_self j k pi t s = ground (arith, (glib PropInfo).lookup-insert j k pi t)

  insert_ne :
      (j k : Bytes) (pi : PropInfo) (t : Known)
      → same_bytes k j ≡ false
      → (glib PropInfo).lookup j ((glib PropInfo).insert k pi t) ≡ (glib PropInfo).lookup j t
  insert_ne j k pi t s = ground (arith, (glib PropInfo).lookup-insert j k pi t)

  pub insert-HasType :
      (j k : Bytes) (pi : PropInfo) (t : Known)
      → (same_bytes k j ≡ true → pi.prop_type ≡ ty k)
      → (same_bytes k j ≡ false → HasType j t)
      → HasType j ((glib PropInfo).insert k pi t)
  insert-HasType j k pi t a b = elim (Bool-cases (same_bytes k j)) [
    | inl s ↦ (pi, insert_self j k pi t s, a s ∙ ap ty (same_bytes→eq k j s))
    | inr s ↦ let (x, l, e) = b s in (x, insert_ne j k pi t s ∙ l, e)
  ]

  pub insert-IsKnown :
      (j k : Bytes) (pi : PropInfo) (t : Known)
      → (same_bytes k j ≡ false → IsKnown j t)
      → IsKnown j ((glib PropInfo).insert k pi t)
  insert-IsKnown j k pi t b = elim (Bool-cases (same_bytes k j)) [
    | inl s ↦ (pi, insert_self j k pi t s)
    | inr s ↦ let (x, l) = b s in (x, insert_ne j k pi t s ∙ l)
  ]

  pub remove-some :
      (j k : Bytes) (w : Stored) (t : (glib Stored).Table)
      → (glib Stored).lookup j ((glib Stored).remove k t) ≡ some w
      → (same_bytes k j ≡ false) × ((glib Stored).lookup j t ≡ some w)
  remove-some j k w t l = ground (arith, (glib Stored).lookup-remove j k t)

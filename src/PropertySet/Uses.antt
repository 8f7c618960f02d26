-- ===== src/PropertySet/Uses.antt =====
-- What the callbacks and the freeing of server/lib/e2k-properties.c meet in a typed property set.
use evolution_exchange.Prelude.{
  true, some, [], ◌∷◌, ◌≡◌, ◌↔◌, inl, inr, refl, arith, List, Bytes, ap, ◌++◌,
}
use evolution_exchange.Outcome.{ok}
use evolution_exchange.Strings.{same_bytes}
use evolution_exchange.Tables.{HashTable, IsIn}
use evolution_exchange.PropertySet.{
  PropType, Stored, PropInfo, Properties, free_known, free_props, properties_free, foreach_callback,
  foreach_calls, properties_foreach,
}
use evolution_exchange.PropertySet.Typed.{fits, free_prop-fits, IsTyped, owned}

-- The values, without NULL, in their order.
abbrev pub all_owned : List (Bytes × Stored) → List Stored
all_owned [] = []
all_owned (p ∷ ps) = owned p.1 ++ all_owned ps

module _ (glib : (V : Type 0) → HashTable Bytes V same_bytes) (ty : Bytes → PropType) where
  foreach_calls-IsIn :
      (known : (glib PropInfo).Table) (l : List (Bytes × Stored)) (k : Bytes) (t : PropType)
      (v : Stored)
      → ((k : Bytes) (v : Stored)
          → IsIn (k, v) l
          → (pi : PropInfo) × ((glib PropInfo).lookup k known ≡ some pi) × (pi.prop_type ≡ ty k))
      → IsIn (k, t, v) (foreach_calls glib known l) ↔ (IsIn (k, v) l × (t ≡ ty k))
  unfolding foreach_calls foreach_callback
  foreach_calls-IsIn known [] k t v h = (λ i. absurd i, λ i. absurd i.0)
  foreach_calls-IsIn known ((j, w) ∷ l) k t v h =
      let (pi, e, q) = h j w (inl refl) in
      let ih = foreach_calls-IsIn known l k t v (λ k v i. h k v (inr i)) in
      rw e (
        λ i. ground (arith, ih, ap ty {x = j} {y = k}),
        λ i. ground (arith, ih, ap ty {x = j} {y = k}),
      )

  free_props-ok :
      (known : (glib PropInfo).Table) (l : List (Bytes × Stored))
      → ((k : Bytes) (v : Stored)
          → IsIn (k, v) l
          → (fits (ty k) v ≡ true)
            × ((pi : PropInfo) × ((glib PropInfo).lookup k known ≡ some pi)
                × (pi.prop_type ≡ ty k)))
      → free_props glib known l ≡ ok (all_owned l)
  unfolding free_props free_known
  free_props-ok known [] h = refl
  free_props-ok known ((k, v) ∷ l) h =
      let (f, (pi, e, q)) = h k v (inl refl) in
      rw e (
        rw (free_prop-fits pi.prop_type v (rw q f))
          (rw (free_props-ok known l (λ k v i. h k v (inr i))) refl))

  -- In a property set in which every name has one type the callback of e2k_properties_foreach is
  -- called for exactly the properties that are set, each with its type, and e2k_properties_free
  -- releases the value of each entry that is not NULL, once and as what it is, in the order of
  -- the table, and nothing else.
  pub properties_foreach-IsTyped :
      (p : Properties glib)
      → IsTyped glib ty p
      → ((k : Bytes) (t : PropType) (v : Stored)
          → IsIn (k, t, v) (properties_foreach glib p)
            ↔ (((glib Stored).lookup k p.set ≡ some v) × (t ≡ ty k)))
        × (properties_free glib p ≡ ok (all_owned ((glib Stored).entries p.set)))
  unfolding properties_foreach properties_free
  properties_foreach-IsTyped p h =
      let found = (λ (k : Bytes) (v : Stored) (i : IsIn (k, v) ((glib Stored).entries p.set)).
        h.set_as k v (((glib Stored).entries_iff k v p.set).0 i)) in
      (
        λ k t v.
            let e =
              foreach_calls-IsIn p.known ((glib Stored).entries p.set) k t v
                (λ k v i. (found k v i).1) in
            let d = (glib Stored).entries_iff k v p.set in
            (λ i. (d.0 (e.0 i).0, (e.0 i).1), λ q. e.1 (d.1 q.0, q.1)),
        free_props-ok p.known ((glib Stored).entries p.set) found,
      )

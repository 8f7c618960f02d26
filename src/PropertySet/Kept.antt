-- ===== src/PropertySet/Kept.antt =====
-- Setting and removing a property (server/lib/e2k-properties.c) keep the types, and touch one name.
use evolution_exchange.PropertySet.Typed.{
  IsTyped, IsNamed, fits, entry_typed, freed_ok, remove-some, insert-HasType, insert-IsKnown,
  true_not_false,
}
use evolution_exchange.Prelude.{true, inl, inr, refl, arith, Bytes, ◌≡◌, ap, Bool-cases}
use evolution_exchange.Outcome.{ok}
use evolution_exchange.Strings.{same_bytes, same_bytes_iff, same_bytes→eq}
use evolution_exchange.Tables.{HashTable}
use evolution_exchange.PropertySet.{
  PropType, unknown, Stored, null, PropInfo, Properties, get_propinfo, properties_set,
  properties_remove,
}

module _ (glib : (V : Type 0) → HashTable Bytes V same_bytes) (ty : Bytes → PropType) where
  pub properties_set-IsTyped :
      (t : PropType) (k : Bytes) (v : Stored) (p : Properties glib)
      → IsTyped glib ty p
      → IsNamed k
      → t ≡ ty k
      → fits t v ≡ true
      → (p' : Properties glib) × (properties_set glib t k v p ≡ ok p')
        × IsTyped glib ty p'
        × (p'.set ≡ (glib Stored).insert k v p.set)
        × (p'.removed ≡ (glib Stored).remove k p.removed)
  unfolding properties_set get_propinfo
  properties_set-IsTyped t k v p h named q f =
      let (pi, e, u, same, kept) =
        entry_typed glib ty k t ((glib PropInfo).lookup k p.known) named (h.known_as k) (inr q) in
      (
        record {
          set = (glib Stored).insert k v p.set;
          removed = (glib Stored).remove k p.removed;
          known = (glib PropInfo).insert k pi p.known;
        },
        rw e (
            rw (
              freed_ok glib ty k pi.prop_type ((glib Stored).lookup k p.set)
                (λ w o. rw (same q) ((h.set_as k w o).0)))),
        record {
          known_as = λ j pi' l. ground (
            arith,
            (glib PropInfo).lookup-insert j k pi p.known,
            same_bytes_iff k j,
            h.known_as j pi',
          );
          set_as = λ j w l. (
            ground (
              arith,
              (glib Stored).lookup-insert j k v p.set,
              same_bytes→eq k j,
              ap ty {x = k} {y = j},
              h.set_as j w,
            ),
            insert-HasType glib ty j k pi p.known (λ s. same q)
                (λ s. (h.set_as j w (ground (arith, (glib Stored).lookup-insert j k v p.set))).1),
          );
          removed_as = λ j w l.
              let (s, l') = remove-some glib ty j k w p.removed l in
              let (z, o, x) = h.removed_as j w l' in
              (
                z,
                ground (arith, (glib Stored).lookup-insert j k v p.set),
                insert-IsKnown glib ty j k pi p.known (λ _. x),
              );
        },
        refl,
        refl,
      )

  pub properties_remove-IsTyped :
      (k : Bytes) (p : Properties glib)
      → IsTyped glib ty p
      → IsNamed k
      → (p' : Properties glib) × (properties_remove glib k p ≡ ok p')
        × IsTyped glib ty p'
        × (p'.set ≡ (glib Stored).remove k p.set)
        × (p'.removed ≡ (glib Stored).insert k null p.removed)
  unfolding properties_remove get_propinfo
  properties_remove-IsTyped k p h named =
      let (pi, e, u, same, kept) =
        entry_typed glib ty k unknown ((glib PropInfo).lookup k p.known) named (h.known_as k)
          (inl refl) in
      (
        record {
          set = (glib Stored).remove k p.set;
          removed = (glib Stored).insert k null p.removed;
          known = (glib PropInfo).insert k pi p.known;
        },
        rw e (
            rw (
              freed_ok glib ty k pi.prop_type ((glib Stored).lookup k p.set)
                (λ w o. let (f, (x, l, q)) = h.set_as k w o in rw (kept x l q) f))),
        record {
          known_as = λ j pi' l. ground (
            arith,
            (glib PropInfo).lookup-insert j k pi p.known,
            same_bytes_iff k j,
            h.known_as j pi',
          );
          set_as = λ j w l.
              let (s, l') = remove-some glib ty j k w p.set l in
              let (f, x) = h.set_as j w l' in
              (
                f,
                insert-HasType glib ty j k pi p.known (λ s'. absurd (true_not_false s' s)) (λ _. x),
              );
          removed_as = λ j w l. elim (Bool-cases (same_bytes k j)) [
            | inl s ↦ (
              ground (arith, (glib Stored).lookup-insert j k null p.removed),
              ground (arith, (glib Stored).lookup-remove j k p.set),
              insert-IsKnown glib ty j k pi p.known (λ s'. absurd (true_not_false s s')),
            )
            | inr s ↦
                let (z, o, x) =
                  h.removed_as j w
                    (ground (arith, (glib Stored).lookup-insert j k null p.removed)) in
                (
                  z,
                  ground (arith, (glib Stored).lookup-remove j k p.set),
                  insert-IsKnown glib ty j k pi p.known (λ _. x),
                )
          ];
        },
        refl,
        refl,
      )

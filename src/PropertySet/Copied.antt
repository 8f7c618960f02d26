-- ===== src/PropertySet/Copied.antt =====
-- e2k_properties_copy of server/lib/e2k-properties.c: when a copy is made, and when it is not.
use evolution_exchange.Prelude.{
  ℕ, Bool, true, false, none, some, [], ◌∷◌, ◌≡◌, ◌⊎◌, inl, inr, refl, arith, List, Option, Bytes,
  ap,
}
use evolution_exchange.Outcome.{ok}
use evolution_exchange.Strings.{same_bytes, same_bytes_iff, same_bytes→eq}
use evolution_exchange.Tables.{HashTable, IsIn}
use evolution_exchange.PropertySet.{
  copy_known, PropType, binary, string_array, binary_array, int_array, Stored, null, PropInfo,
  Properties, copy_value, copy_prop, copy_props, properties_copy, node,
}
use evolution_exchange.PropertySet.Typed.{fits, IsTyped, true_not_false}

-- A NULL value of the type is copied without being followed.
abbrev pub takes_null : PropType → Bool
takes_null binary_array = false
takes_null string_array = false
takes_null binary = false
takes_null _ = true

abbrev pub is_int_array : PropType → Bool
is_int_array int_array = true
is_int_array _ = false

copy_value-fits :
    (xmlCopyNode : ℕ → ℕ)
    → ((n : ℕ) → xmlCopyNode n ≡ n)
    → (t : PropType) (v : Stored) → fits t v ≡ true
    → is_int_array t ≡ false
    → copy_value xmlCopyNode t v ≡ ok v
unfolding copy_value fits
copy_value-fits copy same t (node n) f i = ground (arith, same n)
copy_value-fits copy same t v f i = ground arith

copy_value-null :
    (xmlCopyNode : ℕ → ℕ) (t : PropType)
    → takes_null t ≡ true
    → copy_value xmlCopyNode t null ≡ ok null
unfolding copy_value
copy_value-null copy t h = ground arith

option_ext :
    (a b : Option Stored)
    → ((v : Stored) → a ≡ some v → b ≡ some v)
    → ((v : Stored) → b ≡ some v → a ≡ some v)
    → a ≡ b
option_ext none none f g = refl
option_ext none (some v) f g = g v refl
option_ext (some v) b f g = ground (arith, f v)

module _ (glib : (V : Type 0) → HashTable Bytes V same_bytes) (xmlCopyNode : ℕ → ℕ) where
  abbrev IsCopyable : (glib PropInfo).Table → Bytes → Stored → Type 0
  IsCopyable known k v =
      (pi : PropInfo) × ((glib PropInfo).lookup k known ≡ some pi)
      × (copy_value xmlCopyNode pi.prop_type v ≡ ok v)

  same_value :
      {k : Bytes} {from : (glib Stored).Table} {v w : Stored}
      → (glib Stored).lookup k from ≡ some v
      → (glib Stored).lookup k from ≡ some w
      → v ≡ w
  same_value a b = ground arith

  insert_reads :
      (j k : Bytes) (v w : Stored) (copy : (glib Stored).Table)
      → (same_bytes k j ≡ true → v ≡ w)
      → (same_bytes k j ≡ false → (glib Stored).lookup j copy ≡ some w)
      → (glib Stored).lookup j ((glib Stored).insert k v copy) ≡ some w
  insert_reads j k v w copy a b = ground (arith, (glib Stored).lookup-insert j k v copy)

  -- What is copied so far, and what is left, make up the table.
  copy_props_lem :
      (known : (glib PropInfo).Table) (from : (glib Stored).Table) (l : List (Bytes × Stored))
      (copy : (glib Stored).Table)
      → ((k : Bytes) (v : Stored) → (glib Stored).lookup k from ≡ some v → IsCopyable known k v)
      → ((k : Bytes) (v : Stored) → IsIn (k, v) l → (glib Stored).lookup k from ≡ some v)
      → ((k : Bytes) (v : Stored)
          → (glib Stored).lookup k copy ≡ some v
          → (glib Stored).lookup k from ≡ some v)
      → ((k : Bytes) (v : Stored)
          → (glib Stored).lookup k from ≡ some v
          → IsIn (k, v) l ⊎ ((glib Stored).lookup k copy ≡ some v))
      → (copy' : (glib Stored).Table) × (copy_props glib xmlCopyNode known l copy ≡ ok copy')
        × ((k : Bytes) → (glib Stored).lookup k copy' ≡ (glib Stored).lookup k from)
  unfolding copy_props copy_prop copy_known
  copy_props_lem known from [] copy good inside sound complete =
      (copy, refl, λ k. option_ext _ _ (sound k) (λ v e. ground (arith, complete k v)))
  copy_props_lem known from ((k, v) ∷ l) copy good inside sound complete =
      let (pi, e, c) = good k v (inside k v (inl refl)) in
      let (copy', r, s) =
        copy_props_lem known from l ((glib Stored).insert k v copy) good
          (λ j w i. inside j w (inr i))
          (λ j w h. ground (
            arith,
            (glib Stored).lookup-insert j k v copy,
            same_bytes→eq k j,
            sound j w,
            inside k v (inl refl),
          ))
          (λ j w h. elim (complete j w h) [
            | inl (inl p) ↦ inr (
                insert_reads j k v w copy (λ _. ap (λ q. q.1) p)
                  (λ s. absurd (true_not_false ((same_bytes_iff k j).1 (ap (λ q. q.0) p)) s)))
            | inl (inr i) ↦ inl i
            | inr o ↦ inr (
                insert_reads j k v w copy
                  (λ s.
                    same_value {k = k} {from = from} {v = v} {w = w} (inside k v (inl refl))
                      (rw (same_bytes→eq k j s) h))
                  (λ _. o))
          ]) in
      (copy', rw e (rw c r), s)

  copy_all :
      (known : (glib PropInfo).Table) (from : (glib Stored).Table)
      → ((k : Bytes) (v : Stored) → (glib Stored).lookup k from ≡ some v → IsCopyable known k v)
      → (copy' : (glib Stored).Table) × (copy_props glib xmlCopyNode known
            ((glib Stored).entries from)
            (glib Stored).empty
          ≡ ok copy')
        × ((k : Bytes) → (glib Stored).lookup k copy' ≡ (glib Stored).lookup k from)
  copy_all known from good =
      copy_props_lem known from ((glib Stored).entries from) (glib Stored).empty good
        (λ k v i. ((glib Stored).entries_iff k v from).0 i)
        (λ k v e. ground (arith, (glib Stored).lookup-empty k))
        (λ k v e. inl (((glib Stored).entries_iff k v from).1 e))

  -- A property set in which every name has one type is copied with the same values and the same
  -- names removed, where libxml copies nodes, no array of numbers is set, and no array and no
  -- binary value is removed.
  pub properties_copy-IsTyped :
      (ty : Bytes → PropType) (p : Properties glib)
      → IsTyped glib ty p
      → ((n : ℕ) → xmlCopyNode n ≡ n)
      → ((k : Bytes) (v : Stored)
          → (glib Stored).lookup k p.set ≡ some v
          → is_int_array (ty k) ≡ false)
      → ((k : Bytes) (v : Stored)
          → (glib Stored).lookup k p.removed ≡ some v
          → takes_null (ty k) ≡ true)
      → (p' : Properties glib) × (properties_copy glib xmlCopyNode p ≡ ok p')
        × ((k : Bytes) → (glib Stored).lookup k p'.set ≡ (glib Stored).lookup k p.set)
        × ((k : Bytes) → (glib Stored).lookup k p'.removed ≡ (glib Stored).lookup k p.removed)
  unfolding properties_copy
  properties_copy-IsTyped ty p h same ints nulls =
      let (set, e, a) = copy_all p.known p.set (λ k v l.
        let (f, (pi, q, t)) = h.set_as k v l in
        (pi, q, copy_value-fits xmlCopyNode same pi.prop_type v (rw t f) (rw t (ints k v l)))) in
      let (removed, e', b) = copy_all p.known p.removed (λ k v l.
        let (z, o, (pi, q)) = h.removed_as k v l in
        (
          pi,
          q,
          ground (arith, copy_value-null xmlCopyNode pi.prop_type, h.known_as k pi q, nulls k v l),
        )) in
      (record { set = set; removed = removed; known = p.known }, rw e (rw e'), a, b)

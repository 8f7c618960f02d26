-- ===== src/PropertySet/Faults.antt =====
-- e2k_properties_copy of server/lib/e2k-properties.c follows wrong pointers, and when it does.
use evolution_exchange.Prelude.{
  ℕ, false, none, some, [], ◌∷◌, ◌≡◌, ◌⊎◌, inl, inr, refl, arith, List, Option, Bytes, ap, ◌∙◌,
}
use evolution_exchange.Outcome.{Outcome, ok, fault, failed, starved, ◌>>=◌}
use evolution_exchange.Strings.{same_bytes}
use evolution_exchange.Tables.{HashTable, IsIn}
use evolution_exchange.PropertySet.{
  PropType, int_array, Stored, null, texts, PropInfo, Properties, copy_value, copy_known, copy_prop,
  copy_props, properties_copy,
}
use evolution_exchange.PropertySet.Copied.{takes_null}

-- The run comes to a normal end, or follows a wrong pointer.
abbrev pub IsOkOrFault {ℓ} : {A : Type ℓ} → Outcome A → Type 0
IsOkOrFault (ok a) = Unit {0}
IsOkOrFault fault = Unit {0}
IsOkOrFault _ = ⊥

copy_value-IsOkOrFault :
    (xmlCopyNode : ℕ → ℕ) (t : PropType) (v : Stored) → IsOkOrFault (copy_value xmlCopyNode t v)
unfolding copy_value
copy_value-IsOkOrFault copy t null = ground arith
copy_value-IsOkOrFault copy t v = ground arith

copy_known-IsOkOrFault :
    (xmlCopyNode : ℕ → ℕ) (o : Option PropInfo) (v : Stored)
    → IsOkOrFault (copy_known xmlCopyNode o v)
unfolding copy_known
copy_known-IsOkOrFault copy none v = tt
copy_known-IsOkOrFault copy (some pi) v = copy_value-IsOkOrFault copy pi.prop_type v

copy_known-null :
    (xmlCopyNode : ℕ → ℕ) (pi : PropInfo)
    → takes_null pi.prop_type ≡ false
    → copy_known xmlCopyNode (some pi) null ≡ fault
unfolding copy_known copy_value
copy_known-null copy pi t = ground arith

copy_known-int_array :
    (xmlCopyNode : ℕ → ℕ) (pi : PropInfo) (ns : List Bytes)
    → pi.prop_type ≡ int_array
    → copy_known xmlCopyNode (some pi) (texts ns) ≡ fault
unfolding copy_known copy_value
copy_known-int_array copy pi ns t = rw t

>>=-IsOkOrFault {ℓ κ} :
    {A : Type ℓ} {B : Type κ} (m : Outcome A) (f : A → Outcome B)
    → IsOkOrFault m
    → ((a : A) → IsOkOrFault (f a))
    → IsOkOrFault (m >>= f)
>>=-IsOkOrFault (ok a) f h k = k a
>>=-IsOkOrFault fault f h k = tt
>>=-IsOkOrFault failed f h k = absurd h
>>=-IsOkOrFault starved f h k = absurd h

>>=-fault {ℓ κ} :
    {A : Type ℓ} {B : Type κ} (m : Outcome A) (f : A → Outcome B)
    → IsOkOrFault m
    → ((a : A) → f a ≡ fault)
    → (m >>= f) ≡ fault
>>=-fault (ok a) f h k = k a
>>=-fault fault f h k = refl
>>=-fault failed f h k = absurd h
>>=-fault starved f h k = absurd h

module _ (glib : (V : Type 0) → HashTable Bytes V same_bytes) (xmlCopyNode : ℕ → ℕ) where
  copy_prop-IsOkOrFault :
      (known : (glib PropInfo).Table) (e : Bytes × Stored) (copy : (glib Stored).Table)
      → IsOkOrFault (copy_prop glib xmlCopyNode known e copy)
  unfolding copy_prop
  copy_prop-IsOkOrFault known (k, v) copy =
      >>=-IsOkOrFault (copy_known xmlCopyNode ((glib PropInfo).lookup k known) v) _
        (copy_known-IsOkOrFault xmlCopyNode ((glib PropInfo).lookup k known) v) (λ w. tt)

  copy_prop-fault :
      (known : (glib PropInfo).Table) (k : Bytes) (v : Stored) (copy : (glib Stored).Table)
      → copy_known xmlCopyNode ((glib PropInfo).lookup k known) v ≡ fault
      → copy_prop glib xmlCopyNode known (k, v) copy ≡ fault
  unfolding copy_prop
  copy_prop-fault known k v copy f = rw f

  -- Whatever stands before or behind it, one entry that cannot be copied ends the run.
  copy_props-fault :
      (known : (glib PropInfo).Table) (l : List (Bytes × Stored)) (copy : (glib Stored).Table)
      (k : Bytes) (v : Stored)
      → IsIn (k, v) l
      → copy_known xmlCopyNode ((glib PropInfo).lookup k known) v ≡ fault
      → copy_props glib xmlCopyNode known l copy ≡ fault
  unfolding copy_props
  copy_props-fault known [] copy k v i f = elim i [ ]
  copy_props-fault known ((j, w) ∷ l) copy k v (inl p) f = rw (
      copy_prop-fault known j w copy
        (ap (λ q. copy_known xmlCopyNode ((glib PropInfo).lookup q.0 known) q.1) p ∙ f))
  copy_props-fault known ((j, w) ∷ l) copy k v (inr i) f =
      >>=-fault (copy_prop glib xmlCopyNode known (j, w) copy) _
        (copy_prop-IsOkOrFault known (j, w) copy) (λ copy'. copy_props-fault known l copy' k v i f)

  copy_props-IsOkOrFault :
      (known : (glib PropInfo).Table) (l : List (Bytes × Stored)) (copy : (glib Stored).Table)
      → IsOkOrFault (copy_props glib xmlCopyNode known l copy)
  unfolding copy_props
  copy_props-IsOkOrFault known [] copy = tt
  copy_props-IsOkOrFault known (e ∷ l) copy =
      >>=-IsOkOrFault (copy_prop glib xmlCopyNode known e copy) _
        (copy_prop-IsOkOrFault known e copy) (λ copy'. copy_props-IsOkOrFault known l copy')

  -- What copy_prop cannot copy: a NULL that stands for a removed array or binary value, and an array
  -- of numbers.
  abbrev pub IsBad : Properties glib → Bytes → PropType → Type 0
  IsBad p k t =
      (((glib Stored).lookup k p.removed ≡ some null) × (takes_null t ≡ false))
      ⊎ ((ns : List Bytes) × ((glib Stored).lookup k p.set ≡ some (texts ns)) × (t ≡ int_array))

  -- Copying a property set from which an array of strings or of binary values, or a binary value,
  -- of known type is removed follows a NULL pointer, and copying one in which an array of numbers
  -- is set reads the array as a string.
  pub properties_copy-fault :
      (p : Properties glib) (k : Bytes) (pi : PropInfo)
      → (glib PropInfo).lookup k p.known ≡ some pi
      → IsBad p k pi.prop_type
      → properties_copy glib xmlCopyNode p ≡ fault
  unfolding properties_copy
  properties_copy-fault p k pi e (inl (r, t)) =
      >>=-fault
        (copy_props glib xmlCopyNode p.known ((glib Stored).entries p.set) (glib Stored).empty) _
        (copy_props-IsOkOrFault p.known ((glib Stored).entries p.set) (glib Stored).empty)
        (λ set. rw (
          copy_props-fault p.known ((glib Stored).entries p.removed) (glib Stored).empty k null
            (((glib Stored).entries_iff k null p.removed).1 r)
            (rw e (copy_known-null xmlCopyNode pi t))))
  properties_copy-fault p k pi e (inr (ns, l, t)) = rw (
      copy_props-fault p.known ((glib Stored).entries p.set) (glib Stored).empty k (texts ns)
        (((glib Stored).entries_iff k (texts ns) p.set).1 l)
        (rw e (copy_known-int_array xmlCopyNode pi ns t)))

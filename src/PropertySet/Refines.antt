-- ===== src/PropertySet/Refines.antt =====
-- Property sets of server/lib/e2k-properties.c against functions from names to what is to be done.
use evolution_exchange.Prelude.{
  none, some, [], ◌∷◌, ◌≡◌, refl, arith, if◌then◌else◌, List, Option, Bytes, true, ◌∙◌, ap, ◌⊎◌,
}
use evolution_exchange.Outcome.{Outcome, ok, ◌>>=◌}
use evolution_exchange.Strings.{same_bytes}
use evolution_exchange.Tables.{HashTable}
use evolution_exchange.PropertySet.{
  PropType, Stored, PropInfo, Properties, properties_new, properties_set, properties_remove, null,
  unknown,
}
use evolution_exchange.PropertySet.Typed.{fits, IsNamed, IsTyped}
use evolution_exchange.PropertySet.Kept.{properties_set-IsTyped, properties_remove-IsTyped}
use mathlib.Core.Path.{fun_ext}

-- What a PROPPATCH is to do with a property.
pub data Plan : Type 0 where
  untouched removed : Plan
  holds : Stored → Plan

pub data Request : Type 0 where
  set : PropType → Bytes → Stored → Request
  remove : Bytes → Request

abbrev update : (Bytes → Plan) → Bytes → Plan → Bytes → Plan
update f k plan j = if same_bytes k j then plan else f j

-- The requests one after the other, on a function.
abbrev pub replay : List Request → (Bytes → Plan) → Bytes → Plan
replay [] f = f
replay (set t k v ∷ rs) f = replay rs (update f k (holds v))
replay (remove k ∷ rs) f = replay rs (update f k removed)

-- Every name has one type, and a value of that type each time it is set.
abbrev pub AreTyped : (Bytes → PropType) → List Request → Type 0
AreTyped ty [] = Unit {0}
AreTyped ty (set t k v ∷ rs) = IsNamed k × (t ≡ ty k) × (fits t v ≡ true) × AreTyped ty rs
AreTyped ty (remove k ∷ rs) = IsNamed k × AreTyped ty rs

abbrev plan_of : Option Stored → Option Stored → Plan
plan_of (some v) r = holds v
plan_of none (some v) = removed
plan_of none none = untouched

module _ (glib : (V : Type 0) → HashTable Bytes V same_bytes) where
  abbrev pub plans : Properties glib → Bytes → Plan
  plans p j = plan_of ((glib Stored).lookup j p.set) ((glib Stored).lookup j p.removed)

  -- The calls of the setters and of e2k_properties_remove one after the other.
  unfoldable pub run : List Request → Properties glib → Outcome (Properties glib)
  run [] p = ok p
  run (set t k v ∷ rs) p = properties_set glib t k v p >>= λ p'. run rs p'
  run (remove k ∷ rs) p = properties_remove glib k p >>= λ p'. run rs p'

module _ (glib : (V : Type 0) → HashTable Bytes V same_bytes) (ty : Bytes → PropType) where
  plans-set :
      (k : Bytes) (v : Stored) (p p' : Properties glib)
      → p'.set ≡ (glib Stored).insert k v p.set
      → p'.removed ≡ (glib Stored).remove k p.removed
      → plans glib p' ≡ update (plans glib p) k (holds v)
  plans-set k v p p' a b = fun_ext λ j.
      ground
        (arith, (glib Stored).lookup-insert j k v p.set, (glib Stored).lookup-remove j k p.removed)

  plans-remove :
      (k : Bytes) (p p' : Properties glib)
      → p'.set ≡ (glib Stored).remove k p.set
      → p'.removed ≡ (glib Stored).insert k null p.removed
      → plans glib p' ≡ update (plans glib p) k removed
  plans-remove k p p' a b = fun_ext λ j.
      ground (
        arith,
        (glib Stored).lookup-remove j k p.set,
        (glib Stored).lookup-insert j k null p.removed,
      )

  pub run_refines :
      (rs : List Request) (p : Properties glib)
      → IsTyped glib ty p
      → AreTyped ty rs
      → (p' : Properties glib) × (run glib rs p ≡ ok p')
        × IsTyped glib ty p'
        × (plans glib p' ≡ replay rs (plans glib p))
  unfolding run
  run_refines [] p h a = (p, refl, h, refl)
  run_refines (set t k v ∷ rs) p h (named, q, f, a) =
      let (p₁, e, h₁, x, y) = properties_set-IsTyped glib ty t k v p h named q f in
      let (p₂, e₂, h₂, z) = run_refines rs p₁ h₁ a in
      (p₂, rw e e₂, h₂, z ∙ ap (replay rs) (plans-set k v p p₁ x y))
  run_refines (remove k ∷ rs) p h (named, a) =
      let (p₁, e, h₁, x, y) = properties_remove-IsTyped glib ty k p h named in
      let (p₂, e₂, h₂, z) = run_refines rs p₁ h₁ a in
      (p₂, rw e e₂, h₂, z ∙ ap (replay rs) (plans-remove k p p₁ x y))

  -- What is known of names by then has to agree with the types.
  abbrev pub AreKnownAs : (glib PropInfo).Table → Type 0
  AreKnownAs known =
      (k : Bytes) (pi : PropInfo)
      → (glib PropInfo).lookup k known ≡ some pi
      → (pi.prop_type ≡ unknown) ⊎ (pi.prop_type ≡ ty k)

  properties_new-IsTyped :
      (known : (glib PropInfo).Table)
      → AreKnownAs known
      → IsTyped glib ty (properties_new glib known)
  unfolding properties_new
  properties_new-IsTyped known h = record {
    known_as = h;
    set_as = λ k v l. ground (arith, (glib Stored).lookup-empty k);
    removed_as = λ k v l. ground (arith, (glib Stored).lookup-empty k);
  }

  plans-new :
      (known : (glib PropInfo).Table) → plans glib (properties_new glib known) ≡ (λ j. untouched)
  unfolding properties_new
  plans-new known = fun_ext λ j. ground (arith, (glib Stored).lookup-empty j)

  -- Setters and removals, one after the other from an empty property set, all succeed, and leave
  -- a set that reads as the replay of the requests on a function from names to plans, where each
  -- name is split by a separator, has one type throughout, and what is known of names by then
  -- agrees with the types.
  pub run-properties_new :
      (rs : List Request) (known : (glib PropInfo).Table)
      → AreKnownAs known
      → AreTyped ty rs
      → (p : Properties glib) × (run glib rs (properties_new glib known) ≡ ok p)
        × IsTyped glib ty p
        × (plans glib p ≡ replay rs (λ j. untouched))
  run-properties_new rs known h a =
      let (p, e, v, z) =
        run_refines rs (properties_new glib known) (properties_new-IsTyped known h) a in
      (p, e, v, z ∙ ap (replay rs) (plans-new known))

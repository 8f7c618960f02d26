-- ===== src/Tables.antt =====
-- GHashTable of GLib, as the interface that the program relies on, and lists as an example of it.
pub mod Listed
use evolution_exchange.Prelude.{
  Bool, true, Option, none, some, List, [], ◌∷◌, ◌≡◌, ◌↔◌, ◌⊎◌, if◌then◌else◌, ◌++◌, inr, arith,
}

abbrev pub IsIn : {A : Type 0} → A → List A → Type 0
IsIn a [] = ⊥
IsIn a (x ∷ xs) = (x ≡ a) ⊎ IsIn a xs

pub IsIn-append :
    {A : Type 0} (a : A) (xs ys : List A) → IsIn a (xs ++ ys) ↔ (IsIn a xs ⊎ IsIn a ys)
IsIn-append a [] ys = (λ h. inr h, λ h. ground arith)
IsIn-append a (x ∷ xs) ys =
    (λ h. ground (arith, IsIn-append a xs ys), λ h. ground (arith, IsIn-append a xs ys))

-- Tables from K to V, whose keys are compared by `same`. `entries` is what g_hash_table_foreach goes
-- through, in an order that nothing is known of.
pub record HashTable (K V : Type 0) (same : K → K → Bool) : Type 1 where
  pub Table : Type 0
  pub empty : Table
  pub lookup : K → Table → Option V
  pub insert : K → V → Table → Table
  pub remove : K → Table → Table
  pub entries : Table → List (K × V)
  pub lookup-empty : (k : K) → lookup k empty ≡ none
  pub lookup-insert :
      (j k : K) (v : V) (t : Table)
      → lookup j (insert k v t) ≡ (if same k j then some v else lookup j t)
  pub lookup-remove :
      (j k : K) (t : Table) → lookup j (remove k t) ≡ (if same k j then none else lookup j t)
  pub entries_iff : (k : K) (v : V) (t : Table) → IsIn (k, v) (entries t) ↔ (lookup k t ≡ some v)

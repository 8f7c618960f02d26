-- ===== src/Tables/Listed.antt =====
-- Association lists have the behaviour that is relied on of a GHashTable.
use evolution_exchange.Prelude.{
  Bool, true, false, Option, none, some, List, [], ◌∷◌, ◌≡◌, ◌↔◌, if◌then◌else◌, refl, arith,
}
use evolution_exchange.Tables.{HashTable, IsIn}

module _ {K V : Type 0} (same : K → K → Bool) where
  unfoldable pub look : K → List (K × V) → Option V
  look k [] = none
  look k ((j, v) ∷ t) = if same j k then some v else look k t

  unfoldable pub without : K → List (K × V) → List (K × V)
  without k [] = []
  without k ((j, v) ∷ t) = let rest = without k t in if same k j then rest else (j, v) ∷ rest

  unfoldable pub firsts : List (K × V) → List (K × V)
  unfolding without
  firsts [] = []
  firsts ((j, v) ∷ t) = (j, v) ∷ without j (firsts t)

module _ {K V : Type 0} (same : K → K → Bool)
    (same_iff : (j k : K) → (same j k ≡ true) ↔ (j ≡ k)) where
  pub look-without :
      (j k : K) (t : List (K × V))
      → look same j (without same k t) ≡ (if same k j then none else look same j t)
  unfolding look without
  look-without j k [] = ground arith
  look-without j k ((i, v) ∷ t) =
      ground (arith, look-without j k t, same_iff k i, same_iff i j, same_iff k j)

  IsIn-without :
      (j k : K) (v : V) (t : List (K × V))
      → IsIn (j, v) (without same k t) ↔ (IsIn (j, v) t × (same k j ≡ false))
  unfolding without
  IsIn-without j k v [] = (λ h. absurd h, λ h. absurd h.0)
  IsIn-without j k v ((i, w) ∷ t) = (
    λ h. ground (arith, IsIn-without j k v t, same_iff k i, same_iff k j),
    λ h. ground (arith, IsIn-without j k v t, same_iff k i, same_iff k j),
  )

  pub IsIn-firsts :
      (j : K) (v : V) (t : List (K × V)) → IsIn (j, v) (firsts same t) ↔ (look same j t ≡ some v)
  unfolding firsts look
  IsIn-firsts j v [] = (λ h. absurd h, λ h. cc)
  IsIn-firsts j v ((i, w) ∷ t) = (
    λ h. ground (arith, IsIn-without j i v (firsts same t), IsIn-firsts j v t, same_iff i j),
    λ h. ground (arith, IsIn-without j i v (firsts same t), IsIn-firsts j v t, same_iff i j),
  )

  unfoldable pub listed : HashTable K V same
  unfolding look without
  listed = record {
    Table = List (K × V);
    empty = [];
    lookup = look same;
    insert = λ k v t. (k, v) ∷ t;
    remove = without same;
    entries = firsts same;
    lookup-empty = λ k. refl;
    lookup-insert = λ j k v t. refl;
    lookup-remove = look-without;
    entries_iff = λ k v t. IsIn-firsts k v t;
  }

-- ===== src/Loops/Reads.antt =====
-- A written array is read back.
use evolution_exchange.Prelude.{◌≡◌, refl, List, [], ◌∷◌, ◌++◌, Bytes, length, All, map}
use evolution_exchange.Outcome.{Outcome, ok, ◌>>=◌}
use evolution_exchange.Wire.{Reader}
use evolution_exchange.Wire.Reads.{Reads, Reads-bind, Reads-map, Reads-pure}
use evolution_exchange.Loops.{extract_many, append_many}

-- The elements' bytes, one after the other.
abbrev pub concat_map : {A : Type 0} → (A → Bytes) → List A → Bytes
concat_map f [] = []
concat_map f (x ∷ xs) = f x ++ concat_map f xs

pub append_many-eq :
    {A : Type 0} (w : A → Outcome Bytes) (f : A → Bytes) (xs : List A)
    → All (λ x. w x ≡ ok (f x)) xs
    → append_many w xs ≡ ok (concat_map f xs)
unfolding append_many
append_many-eq w f [] h = refl
append_many-eq w f (x ∷ xs) h = rw (h.0, append_many-eq w f xs h.1)

pub many-Reads :
    {A : Type 0} (r : Reader A) (f : A → Bytes) (xs : List A)
    → All (λ x. Reads r (f x) x) xs
    → Reads (extract_many r (length xs)) (concat_map f xs) xs
unfolding extract_many
many-Reads r f [] h = Reads-pure []
many-Reads r f (x ∷ xs) h =
    Reads-bind r (λ y c. extract_many r (length xs) c >>= λ (ys, c₂). ok (y ∷ ys, c₂)) (f x)
      (concat_map f xs) x (x ∷ xs) h.0
      (Reads-map (extract_many r (length xs)) (λ ys. x ∷ ys) (concat_map f xs) xs
        (many-Reads r f xs h.1))

-- The same, where an element may be read back as another one.
pub many-Reads-map :
    {A : Type 0} (r : Reader A) (f : A → Bytes) (g : A → A) (xs : List A)
    → All (λ x. Reads r (f x) (g x)) xs
    → Reads (extract_many r (length xs)) (concat_map f xs) (map g xs)
unfolding extract_many
many-Reads-map r f g [] h = Reads-pure []
many-Reads-map r f g (x ∷ xs) h =
    Reads-bind r (λ y c. extract_many r (length xs) c >>= λ (ys, c₂). ok (y ∷ ys, c₂)) (f x)
      (concat_map f xs) (g x) (g x ∷ map g xs) h.0
      (Reads-map (extract_many r (length xs)) (λ ys. g x ∷ ys) (concat_map f xs) (map g xs)
        (many-Reads-map r f g xs h.1))

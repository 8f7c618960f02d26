-- ===== src/Loops/Safe.antt =====
-- A loop of safe reads is safe.
use evolution_exchange.Prelude.{ℕ, zero, suc, ◌+◌, ◌≤◌, ◌<◌, refl, ◌∷◌, Bytes, length, arith}
use evolution_exchange.Outcome.{ok, ◌>>=◌}
use evolution_exchange.Wire.{Reader, window}
use evolution_exchange.Wire.Safe.{Within, Within-then, Within-weaken, IsSafe}
use evolution_exchange.Loops.{extract_many}

-- Safe from every length below a bound.
abbrev pub IsSafeBelow : {A : Type 0} → ℕ → ℕ → Reader A → Type 0
IsSafeBelow bound used r =
    (ptr : Bytes) (n : ℕ) → n ≤ length ptr → n < bound → Within used n (r (window ptr n))

pub map-IsSafeBelow :
    {A B : Type 0} (bound d : ℕ) (r : Reader A) (f : A → B)
    → IsSafeBelow bound d r
    → IsSafeBelow bound d (λ c. r c >>= λ (x, c₁). ok (f x, c₁))
map-IsSafeBelow bound d r f safe ptr n inside h =
    Within-weaken (d + 0) d n n (r (window ptr n) >>= λ (x, c₁). ok (f x, c₁))
      (Within-then d 0 n (r (window ptr n)) (λ x c₁. ok (f x, c₁)) (safe ptr n inside h)
        (λ x ptr₁ m inside₁ less. (m, refl, omega arith, inside₁)))
      (omega arith)

pub many-IsSafeBelow :
    {A : Type 0} (bound : ℕ) (r : Reader A) (k : ℕ)
    → IsSafeBelow bound 0 r
    → IsSafeBelow bound 0 (extract_many r k)
unfolding extract_many
many-IsSafeBelow bound r zero safe ptr n inside h = (n, refl, omega arith, inside)
many-IsSafeBelow bound r (suc k) safe ptr n inside h =
    Within-then 0 0 n (r (window ptr n)) (λ x c. extract_many r k c >>= λ (xs, c₂). ok (x ∷ xs, c₂))
      (safe ptr n inside h)
      (λ x ptr₁ m inside₁ less.
        map-IsSafeBelow bound 0 (extract_many r k) (λ xs. x ∷ xs) (many-IsSafeBelow bound r k safe)
          ptr₁ m inside₁ (omega arith))

-- For a chain of reads, where the bytes used do not matter.
abbrev pub StaysBelow : {A : Type 0} → ℕ → Reader A → Type 0
StaysBelow bound r = IsSafeBelow bound 0 r

pub stay : {A : Type 0} (bound d : ℕ) (r : Reader A) → IsSafe d r → StaysBelow bound r
stay bound d r safe ptr n inside h =
    Within-weaken d 0 n n (r (window ptr n)) (safe ptr n inside) (omega arith)

pub stay_used :
    {A : Type 0} (bound d : ℕ) (r : Reader A) → IsSafeBelow bound d r → StaysBelow bound r
stay_used bound d r safe ptr n inside h =
    Within-weaken d 0 n n (r (window ptr n)) (safe ptr n inside h) (omega arith)

pub stay-bind :
    {A B : Type 0} (bound : ℕ) (r : Reader A) (k : A → Reader B)
    → StaysBelow bound r
    → ((a : A) → StaysBelow bound (k a))
    → StaysBelow bound (λ c. r c >>= λ (x, c₁). k x c₁)
stay-bind bound r k first next ptr n inside h =
    Within-then 0 0 n (r (window ptr n)) k (first ptr n inside h)
      (λ a ptr₁ m inside₁ less. next a ptr₁ m inside₁ (omega arith))

pub stay-map :
    {A B : Type 0} (bound : ℕ) (r : Reader A) (f : A → B)
    → StaysBelow bound r
    → StaysBelow bound (λ c. r c >>= λ (x, c₁). ok (f x, c₁))
stay-map bound r f safe = map-IsSafeBelow bound 0 r f safe

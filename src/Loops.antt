-- ===== src/Loops.antt =====
-- The loops of the readers and writers: `for (i = 0; i < n; i++)` over one element at a time.
pub mod Reads
pub mod Safe
use evolution_exchange.Prelude.{ℕ, zero, suc, List, [], ◌∷◌, ◌++◌, Bytes}
use evolution_exchange.Outcome.{Outcome, ok, ◌>>=◌}
use evolution_exchange.Wire.{Reader}

-- Stops at the first element that cannot be read.
unfoldable pub extract_many : {A : Type 0} → Reader A → ℕ → Reader (List A)
extract_many r zero c = ok ([], c)
extract_many r (suc n) c = r c >>= λ (x, c₁). extract_many r n c₁ >>= λ (xs, c₂). ok (x ∷ xs, c₂)

unfoldable pub append_many : {A : Type 0} → (A → Outcome Bytes) → List A → Outcome Bytes
append_many w [] = ok []
append_many w (x ∷ xs) = w x >>= λ b. append_many w xs >>= λ bs. ok (b ++ bs)

-- ===== src/Outcome.antt =====
-- What a call that reads or writes memory can do.

-- `ok` is a normal return (TRUE), `failed` the error return (FALSE or NULL). `fault` is what C
-- leaves undefined: an access outside the array, or a union member read as another type.
-- `starved` is no behaviour of the program: the model ran out of the fuel it was given.
pub data Outcome {ℓ} (A : Type ℓ) : Type ℓ where
  ok : A → Outcome A
  failed fault starved : Outcome A

infixl 5 ◌>>=◌
abbrev pub ◌>>=◌ {ℓ κ} : {A : Type ℓ} {B : Type κ} → Outcome A → (A → Outcome B) → Outcome B
ok a >>= f = f a
failed >>= f = failed
fault >>= f = fault
starved >>= f = starved

-- ===== src/Restriction/Step.antt =====
-- One step of the restriction reader, at a window that holds the type byte.
use evolution_exchange.Prelude.{ℕ, suc, ◌≡◌, ap, ◌∷◌, ◌==◌, false, Bytes, arith}
use evolution_exchange.Platform.{Platform}
use evolution_exchange.Wire.{window, advance, read_byte}
use evolution_exchange.Restriction.{type_of_code, extract_typed, extract_restriction}

pub advance_byte :
    (b : ℕ) (mem : Bytes) (m : ℕ) → advance 1 (window (b ∷ mem) (suc m)) ≡ window mem m
unfolding advance
advance_byte b mem m = ap (λ z. record { ptr = mem; len = z }) (ground arith)

pub suc_ne_zero : (n : ℕ) → (suc n == 0) ≡ false
suc_ne_zero n = ground arith

-- The type byte is read, and its case goes on behind it.
pub extract_restriction-cons :
    (p : Platform) (fuel b : ℕ) (mem : Bytes) (m : ℕ)
    → extract_restriction p (suc fuel) (window (b ∷ mem) (suc m))
      ≡ extract_typed p (extract_restriction p fuel) (type_of_code b) (window mem m)
unfolding extract_restriction read_byte
extract_restriction-cons p fuel b mem m = rw (suc_ne_zero m, advance_byte b mem m)

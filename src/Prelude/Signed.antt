-- ===== src/Prelude/Signed.antt =====
-- A `gint` that counts bytes and can fall below zero.
use Prim.Native.Nat.{ℕ, ◌+◌, ◌-◌, ◌%◌, ◌^◌}
use mathlib.Core.Bool.{Bool, true}
use evolution_exchange.Prelude.Tests.{ltb, leb, if◌then◌else◌}

-- `negsuc n` is -(n + 1).
pub data ℤ : Type 0 where
  pos : ℕ → ℤ
  negsuc : ℕ → ℤ

-- `z < n` and `n > z` for a length n.
abbrev pub below : ℤ → ℕ → Bool
below (pos k) n = ltb k n
below (negsuc k) n = true

-- `z -= n`
abbrev pub minus : ℤ → ℕ → ℤ
minus (pos k) n = if leb n k then pos (k - n) else negsuc (n - k - 1)
minus (negsuc k) n = negsuc (k + n)

-- A `guint` assigned to a `gint`.
abbrev pub as_gint : ℕ → ℤ
as_gint n = let w = n % 2 ^ 32 in if leb (2 ^ 31) w then negsuc (2 ^ 32 - w - 1) else pos w

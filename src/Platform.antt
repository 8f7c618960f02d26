-- ===== src/Platform.antt =====
-- What the program takes from the machine and from libraries that are not in the repository.
use evolution_exchange.Prelude.{ℕ, ◌<◌, ◌≡◌, Bool, Option, some, List, All, ℤ, Bytes, ◌^◌}

-- The fields of `struct tm` that e2k-utils.c reads.
pub record Tm : Type 0 where
  pub tm_year : ℤ
  pub tm_mon : ℕ
  pub tm_mday : ℕ
  pub tm_hour : ℕ
  pub tm_min : ℕ
  pub tm_sec : ℕ

-- GLib's conversions take and give zero-terminated strings, without the terminator here, and
-- `none` is their NULL for an invalid string. `slack` is the byte that stands in memory behind
-- the last byte of a byte array.
pub record Platform : Type 0 where
  pub big_endian : Bool
  pub utf8_to_utf16 : Bytes → Option (List ℕ)
  pub utf16_to_utf8 : List ℕ → Option Bytes
  pub gmtime : ℤ → Tm
  pub slack : ℕ

-- The code units of a string: 16-bit numbers, none of them the terminator.
abbrev pub IsUnits : List ℕ → Type 0
IsUnits = All (λ u. (0 < u) × (u < 2 ^ 16))

-- GLib converts a valid string to UTF-16 and back without loss.
pub record HasUnicode (p : Platform) : Type 0 where
  pub units : (s : Bytes) (us : List ℕ) → p.utf8_to_utf16 s ≡ some us → IsUnits us
  pub back : (s : Bytes) (us : List ℕ) → p.utf8_to_utf16 s ≡ some us → p.utf16_to_utf8 us ≡ some s

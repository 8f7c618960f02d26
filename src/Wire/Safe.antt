-- ===== src/Wire/Safe.antt =====
-- What it means that a reader stays inside its array, and how such readers compose.
use evolution_exchange.Prelude.{
  ℕ, zero, suc, ◌+◌, ◌-◌, ◌≤◌, ◌<◌, ◌≡◌, refl, sym, Bool, [], length, length-drop, ltb, ltb→le,
  Bool-cases, inl, inr, pos, arith, Bytes, if◌then◌else◌, true, false, ◌==◌, ◌∷◌, take,
}
use mathlib.Core.Path.{subst}
use evolution_exchange.Wire.Reads.{fixed}
use evolution_exchange.Outcome.{Outcome, ok, failed, fault, starved, ◌>>=◌}
use evolution_exchange.Wire.{
  Cursor, Reader, window, advance, read_uint32, extract_uint32, read_uint16, extract_uint16,
  read_byte, extract_byte, scan_string, extract_string, extract_binary, copy_bytes,
}

-- From a length of `n` the call fails, or returns with a length that still lies inside the
-- memory and is smaller by at least `used`. It does not fault, nor run out of fuel.
abbrev pub Within : {A : Type 0} → ℕ → ℕ → Outcome (A × Cursor) → Type 0
Within used n (ok (a, c)) = (m : ℕ) × (c.len ≡ pos m) × (m + used ≤ n) × (m ≤ length c.ptr)
Within used n failed = Unit {0}
Within used n fault = ⊥
Within used n starved = ⊥

-- Whenever the length lies inside the memory, so it does afterwards.
abbrev pub IsSafe : {A : Type 0} → ℕ → Reader A → Type 0
IsSafe used r = (ptr : Bytes) (n : ℕ) → n ≤ length ptr → Within used n (r (window ptr n))

pub Within-weaken :
    {A : Type 0} (d e m n : ℕ) (o : Outcome (A × Cursor))
    → Within d m o
    → m + e ≤ n + d
    → Within e n o
Within-weaken d e m n (ok (a, c)) (k, at, less, inside) h = (k, at, omega arith, inside)
Within-weaken d e m n failed w h = tt
Within-weaken d e m n fault w h = w
Within-weaken d e m n starved w h = w

window_of : (c : Cursor) (m : ℕ) → c.len ≡ pos m → window c.ptr m ≡ c
window_of c m at = λ i. record { ptr = c.ptr; len = sym at i }

-- The general rule: what follows starts from a length that is smaller by what was used.
pub Within-then :
    {A B : Type 0} (d e n : ℕ) (o : Outcome (A × Cursor)) (k : A → Reader B)
    → Within d n o
    → ((a : A) (ptr : Bytes) (m : ℕ) → m ≤ length ptr → m + d ≤ n → Within e m (k a (window ptr m)))
    → Within (d + e) n (o >>= λ (x, c). k x c)
Within-then d e n (ok (a, c)) k (m, at, less, inside) next =
    Within-weaken e (d + e) m n (k a c)
      (subst (λ s. Within e m (k a s)) (window_of c m at) (next a c.ptr m inside less))
      (omega arith)
Within-then d e n failed k w next = tt
Within-then d e n fault k w next = w
Within-then d e n starved k w next = w

pub Within-bind :
    {A B : Type 0} (d e n : ℕ) (o : Outcome (A × Cursor)) (k : A → Reader B)
    → Within d n o
    → ((a : A) → IsSafe e (k a))
    → Within (d + e) n (o >>= λ (x, c). k x c)
Within-bind d e n o k w next = Within-then d e n o k w (λ a ptr m inside less. next a ptr m inside)

pub IsSafe-bind :
    {A B : Type 0} (d e : ℕ) (r : Reader A) (k : A → Reader B)
    → IsSafe d r
    → ((a : A) → IsSafe e (k a))
    → IsSafe (d + e) (λ c. r c >>= λ (x, c₁). k x c₁)
IsSafe-bind d e r k first next ptr n inside =
    Within-bind d e n (r (window ptr n)) k (first ptr n inside) next

pub IsSafe-pure : {A : Type 0} (a : A) → IsSafe 0 (λ c. ok (a, c))
IsSafe-pure a ptr n inside = (n, refl, omega arith, inside)

pub IsSafe-failed : (A : Type 0) (d : ℕ) → IsSafe {A = A} d (λ c. failed)
IsSafe-failed A d ptr n inside = tt

pub IsSafe-weaken : {A : Type 0} (d e : ℕ) (r : Reader A) → e ≤ d → IsSafe d r → IsSafe e r
IsSafe-weaken d e r h safe ptr n inside =
    Within-weaken d e n n (r (window ptr n)) (safe ptr n inside) (omega arith)

pub IsSafe-if :
    {A : Type 0} (d : ℕ) (b : Bool) (r s : Reader A)
    → IsSafe d r
    → IsSafe d s
    → IsSafe d (λ c. if b then r c else s c)
IsSafe-if d true r s hr hs = hr
IsSafe-if d false r s hr hs = hs

pub advance-Within :
    {A : Type 0} (a : A) (k : ℕ) (ptr : Bytes) (n : ℕ)
    → n ≤ length ptr
    → k ≤ n
    → Within k n (ok (a, advance k (window ptr n)))
unfolding advance
advance-Within a k ptr n inside fits =
    (n - k, ground arith, omega arith, omega (arith, length-drop k ptr))

-- A read of `size` bytes is defined where so many bytes are there.
abbrev pub IsDefined : {A : Type 0} → ℕ → (Bytes → Outcome A) → Type 0
IsDefined {A} size read = (mem : Bytes) → size ≤ length mem → (a : A) × (read mem ≡ ok a)

pub fixed-IsSafe :
    {A : Type 0} (size : ℕ) (read : Bytes → Outcome A)
    → IsDefined size read
    → IsSafe size (fixed size read)
fixed-IsSafe size read defined ptr n inside = elim (Bool-cases (ltb n size)) [
  | inl short ↦ rw short tt
  | inr fits ↦
      let (a, reads) = defined ptr (omega (arith, ltb→le n size fits)) in
      rw (fits, reads) (advance-Within a size ptr n inside (ltb→le n size fits))
]

read_uint32-IsDefined : IsDefined 4 read_uint32
unfolding read_uint32
read_uint32-IsDefined (a ∷ b ∷ c ∷ d ∷ rest) h = (_, refl)
read_uint32-IsDefined _ h = absurd (omega arith)

read_uint16-IsDefined : IsDefined 2 read_uint16
unfolding read_uint16
read_uint16-IsDefined (a ∷ b ∷ rest) h = (_, refl)
read_uint16-IsDefined _ h = absurd (omega arith)

read_byte-IsDefined : IsDefined 1 read_byte
unfolding read_byte
read_byte-IsDefined (a ∷ rest) h = (_, refl)
read_byte-IsDefined _ h = absurd (omega arith)

copy_bytes-IsDefined : (k : ℕ) → IsDefined k (copy_bytes k)
unfolding copy_bytes
copy_bytes-IsDefined k mem h = (take k mem, ground arith)

pub uint32-IsSafe : IsSafe 4 extract_uint32
unfolding extract_uint32
uint32-IsSafe = fixed-IsSafe 4 read_uint32 read_uint32-IsDefined

pub uint16-IsSafe : IsSafe 2 extract_uint16
unfolding extract_uint16
uint16-IsSafe = fixed-IsSafe 2 read_uint16 read_uint16-IsDefined

pub byte-IsSafe : IsSafe 1 extract_byte
unfolding extract_byte
byte-IsSafe = fixed-IsSafe 1 read_byte read_byte-IsDefined

-- The string that the loop finds ends inside the length.
abbrev EndsBelow : ℕ → Outcome Bytes → Type 0
EndsBelow n (ok str) = length str < n
EndsBelow n failed = Unit {0}
EndsBelow n fault = ⊥
EndsBelow n starved = ⊥

EndsBelow-cons :
    (b : ℕ) (n : ℕ) (o : Outcome Bytes) → EndsBelow n o → EndsBelow (suc n) (o >>= λ s. ok (b ∷ s))
EndsBelow-cons b n (ok s) h = omega arith
EndsBelow-cons b n failed h = tt
EndsBelow-cons b n fault h = h
EndsBelow-cons b n starved h = h

scan_string-EndsBelow : (n : ℕ) (mem : Bytes) → n ≤ length mem → EndsBelow n (scan_string n mem)
unfolding scan_string
scan_string-EndsBelow zero mem h = tt
scan_string-EndsBelow (suc n) [] h = absurd (omega arith)
scan_string-EndsBelow (suc n) (b ∷ mem) h = elim (Bool-cases (b == 0)) [
  | inl here ↦ rw here (omega arith)
  | inr more ↦
      rw more (EndsBelow-cons b n (scan_string n mem) (scan_string-EndsBelow n mem (omega arith)))
]

string_end-Within :
    (o : Outcome Bytes) (ptr : Bytes) (n : ℕ)
    → n ≤ length ptr
    → EndsBelow n o
    → Within 1 n (o >>= λ str. ok (str, advance (length str + 1) (window ptr n)))
string_end-Within (ok str) ptr n inside h =
    Within-weaken (length str + 1) 1 n n (ok (str, advance (length str + 1) (window ptr n)))
      (advance-Within str (length str + 1) ptr n inside (omega arith)) (omega arith)
string_end-Within failed ptr n inside h = tt
string_end-Within fault ptr n inside h = h
string_end-Within starved ptr n inside h = h

pub string-IsSafe : IsSafe 1 extract_string
unfolding extract_string
string-IsSafe ptr n inside =
    string_end-Within (scan_string n ptr) ptr n inside (scan_string-EndsBelow n ptr inside)

pub binary-IsSafe : IsSafe 2 extract_binary
unfolding extract_binary
binary-IsSafe =
    IsSafe-bind 2 0 extract_uint16 (λ k. fixed k (copy_bytes k)) uint16-IsSafe
      λ k.
        IsSafe-weaken k 0 (fixed k (copy_bytes k)) (omega arith)
          (fixed-IsSafe k (copy_bytes k) (copy_bytes-IsDefined k))

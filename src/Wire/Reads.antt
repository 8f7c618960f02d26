-- ===== src/Wire/Reads.antt =====
-- What it means that a reader reads back what was written, and how such readers compose.
use evolution_exchange.Prelude.{
  ℕ, ◌+◌, ◌≡◌, ap, ap₂, [], ◌++◌, append_assoc, length, length-append, drop-append, pos, minus,
  arith, Bytes, if◌then◌else◌, below, sym, append-nil, ◌∙◌,
}
use evolution_exchange.Outcome.{Outcome, ok, ◌>>=◌, failed}
use evolution_exchange.Wire.{Reader, window, advance}

-- Wherever `written` stands at the pointer and inside the length, the reader gives `a` and
-- leaves what stands behind, whatever that is and however much of it the length covers.
abbrev pub Reads : {A : Type 0} → Reader A → Bytes → A → Type 0
Reads r written a =
    (rest : Bytes) (n : ℕ)
    → r (window (written ++ rest) (length written + n)) ≡ ok (a, window rest n)

pub window_eq : (ptr : Bytes) (m n : ℕ) → m ≡ n → window ptr m ≡ window ptr n
window_eq ptr m n e = ap (window ptr) e

window-append :
    (xs ys rest : Bytes) (n : ℕ)
    → window ((xs ++ ys) ++ rest) (length (xs ++ ys) + n)
      ≡ window (xs ++ (ys ++ rest)) (length xs + (length ys + n))
window-append xs ys rest n =
    ap₂ window (append_assoc xs ys rest) (omega (arith, length-append xs ys))

pub Reads-pure : {A : Type 0} (a : A) → Reads (λ c. ok (a, c)) [] a
Reads-pure a rest n = ap (λ m. ok (a, window rest m)) (omega arith)

-- One reader after another reads one writing after another.
pub Reads-bind :
    {A B : Type 0} (r : Reader A) (k : A → Reader B) (xs ys : Bytes) (a : A) (b : B)
    → Reads r xs a
    → Reads (k a) ys b
    → Reads (λ c. r c >>= λ (x, c₁). k x c₁) (xs ++ ys) b
Reads-bind r k xs ys a b first second rest n =
    rw (window-append xs ys rest n, first (ys ++ rest) (length ys + n)) (second rest n)

-- The same, where the last reader only wraps the value.
pub Reads-map :
    {A B : Type 0} (r : Reader A) (f : A → B) (xs : Bytes) (a : A)
    → Reads r xs a
    → Reads (λ c. r c >>= λ (x, c₁). ok (f x, c₁)) xs (f a)
Reads-map r f xs a first rest n = rw (first rest n)

pub advance-window :
    (xs rest : Bytes) (n : ℕ)
    → advance (length xs) (window (xs ++ rest) (length xs + n)) ≡ window rest n
unfolding advance
advance-window xs rest n =
    ap₂ (λ p m. record { ptr = p; len = m }) (drop-append xs rest) (minus_len (length xs) n)
  where
    minus_len : (k m : ℕ) → minus (pos (k + m)) k ≡ pos m
    minus_len k m = ground arith

-- The same for an array that holds the writing and nothing else.
pub Reads-whole :
    {A : Type 0} (r : Reader A) (w : Bytes) (a : A)
    → Reads r w a
    → r (window w (length w)) ≡ ok (a, window [] 0)
Reads-whole r w a h = ap₂ (λ bs n. r (window bs n)) (sym (append-nil w)) (omega arith) ∙ h [] 0

-- What is written succeeds, and is read back as `a` wherever it stands.
abbrev pub ReadsBack : {A : Type 0} → Outcome Bytes → Reader A → A → Type 0
ReadsBack o r a = (bytes : Bytes) × (o ≡ ok bytes) × Reads r bytes a

-- The shape of the fixed-size readers: a test of the length, a read, a step.
abbrev pub fixed : {A : Type 0} → ℕ → (Bytes → Outcome A) → Reader A
fixed size read c =
    if below c.len size then failed else (read c.ptr >>= λ val. ok (val, advance size c))

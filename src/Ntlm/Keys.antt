-- ===== src/Ntlm/Keys.antt =====
-- The DES keys that setup_schedule of server/xntlm/xntlm.c makes.
use evolution_exchange.Prelude.{
  ℕ, ◌+◌, ◌-◌, ◌*◌, ◌/◌, ◌%◌, ◌^◌, ◌≤◌, ◌<◌, bit_or, bit_or_low, Bool-cases, [], ◌∷◌, length, ◌==◌,
  ==→eq, ==-self, Bytes, All, ◌≡◌, refl, ap, ◌∙◌, arith, inl, inr, map, take,
}
use evolution_exchange.Outcome.{ok}
use evolution_exchange.Ntlm.Hash.{count_bits, fix_parity, key_byte, setup_schedule, spread}

count_next : (b : ℕ) → count_bits 8 b ≡ b % 2 + count_bits 7 (b / 2)
unfolding count_bits
count_next b = refl

count_same :
    (a b : ℕ) → a / 2 ≡ b / 2 → a % 2 + b % 2 ≡ 1 → (count_bits 8 a + count_bits 8 b) % 2 ≡ 1
count_same a b h l =
    let e : count_bits 7 (a / 2) ≡ count_bits 7 (b / 2) = ap (count_bits 7) h in
    omega (arith, count_next a, count_next b, e)

-- A byte of the key has an odd number of bits, and its upper seven are those before.
fix_parity_lem : (b : ℕ) → (count_bits 8 (fix_parity b) % 2 ≡ 1) × (fix_parity b / 2 ≡ b / 2)
unfolding fix_parity
fix_parity_lem b = elim (Bool-cases (count_bits 8 b % 2 == 0)) [
  | inr e ↦ ground (arith, ==-self (count_bits 8 b % 2))
  | inl e ↦ elim (Bool-cases (b % 2 == 0)) [
    | inl z ↦
        let y = ==→eq (b % 2) 0 z in
        let x = ==→eq (count_bits 8 b % 2) 0 e in
        let h : (b + 1) / 2 ≡ b / 2 = omega arith in
        let k = count_same (b + 1) b h (omega arith) in rw (e, z) (omega arith, h)
    | inr z ↦
        let x = ==→eq (count_bits 8 b % 2) 0 e in
        let y : b % 2 ≡ 1 = ground (arith, ==-self (b % 2)) in
        let h : (b - 1) / 2 ≡ b / 2 = omega arith in
        let k = count_same (b - 1) b h (omega arith) in rw (e, z) (omega arith, h)
  ]
]

-- A byte of the key is a sum when its parts do not overlap.
key_byte_lem :
    (i before b high : ℕ)
    → b / 2 ^ i < 2 ^ (8 - i)
    → before * 2 ^ (8 - i) % 2 ^ 8 ≡ high * 2 ^ (8 - i)
    → key_byte i before b ≡ b / 2 ^ i + high * 2 ^ (8 - i)
key_byte_lem i before b high l h = ap (bit_or (b / 2 ^ i)) h ∙ bit_or_low (8 - i) (b / 2 ^ i) high l

-- The upper seven bits of the bytes, as a number.
abbrev pub upper_bits : Bytes → ℕ → ℕ
upper_bits [] n = n
upper_bits (b ∷ bs) n = upper_bits bs (n * 2 ^ 7 + b / 2)

-- The bytes as a number, the first one highest.
abbrev pub all_bits : Bytes → ℕ → ℕ
all_bits [] n = n
all_bits (b ∷ bs) n = all_bits bs (n * 2 ^ 8 + b)

abbrev pub IsOdd : ℕ → Type 0
IsOdd b = count_bits 8 b % 2 ≡ 1

fix_parity-IsOdd : (bs : Bytes) → All IsOdd (map fix_parity bs)
fix_parity-IsOdd [] = tt
fix_parity-IsOdd (b ∷ bs) = ((fix_parity_lem b).0, fix_parity-IsOdd bs)

upper_bits-fix_parity : (bs : Bytes) (n : ℕ) → upper_bits (map fix_parity bs) n ≡ upper_bits bs n
upper_bits-fix_parity [] n = refl
upper_bits-fix_parity (b ∷ bs) n =
    upper_bits-fix_parity bs (n * 2 ^ 7 + fix_parity b / 2)
    ∙ ap (λ k. upper_bits bs (n * 2 ^ 7 + k)) ((fix_parity_lem b).1)

bits :
    (a b c d e f g : ℕ)
    → a < 2 ^ 8
    → b < 2 ^ 8
    → c < 2 ^ 8
    → d < 2 ^ 8
    → e < 2 ^ 8
    → f < 2 ^ 8
    → g < 2 ^ 8
    → upper_bits (spread a b c d e f g) 0 ≡ all_bits (a ∷ b ∷ c ∷ d ∷ e ∷ f ∷ g ∷ []) 0
bits a b c d e f g al bl cl dl el fl gl =
    let k1 = key_byte_lem 1 a b (a % 2 ^ 1) (omega arith) (omega arith) in
    let k2 = key_byte_lem 2 b c (b % 2 ^ 2) (omega arith) (omega arith) in
    let k3 = key_byte_lem 3 c d (c % 2 ^ 3) (omega arith) (omega arith) in
    let k4 = key_byte_lem 4 d e (d % 2 ^ 4) (omega arith) (omega arith) in
    let k5 = key_byte_lem 5 e f (e % 2 ^ 5) (omega arith) (omega arith) in
    let k6 = key_byte_lem 6 f g (f % 2 ^ 6) (omega arith) (omega arith) in
    rw (k1, k2, k3, k4, k5, k6) (omega arith)

-- The DES key that setup_schedule makes of seven bytes has eight bytes with an odd number of bits
-- each, whose upper seven bits are the 56 bits of the seven bytes in their order.
pub setup_schedule-key :
    (key : Bytes)
    → 7 ≤ length key
    → All (λ b. b < 2 ^ 8) key
    → (k : Bytes) × (setup_schedule key ≡ ok k)
      × (length k ≡ 8)
      × All IsOdd k
      × (upper_bits k 0 ≡ all_bits (take 7 key) 0)
unfolding setup_schedule
setup_schedule-key (a ∷ b ∷ c ∷ d ∷ e ∷ f ∷ g ∷ rest) h
      (al, (bl, (cl, (dl, (el, (fl, (gl, more))))))) =
    (
      map fix_parity (spread a b c d e f g),
      refl,
      refl,
      fix_parity-IsOdd (spread a b c d e f g),
      upper_bits-fix_parity (spread a b c d e f g) 0 ∙ bits a b c d e f g al bl cl dl el fl gl,
    )
setup_schedule-key _ h l = absurd (omega arith)

-- ===== src/Ntlm/Md4.antt =====
-- The MD4 sum: server/xntlm/xntlm-md4.c. A guint32 is a number below 2 ^ 32.
use evolution_exchange.Prelude.{
  ℕ, zero, suc, ◌+◌, ◌-◌, ◌*◌, ◌/◌, ◌%◌, ◌^◌, bit_and, bit_or, [], ◌∷◌, ◌++◌, length, take, drop,
  ltb, if◌then◌else◌, Bytes, ◌≡◌, refl,
}
use Prim.Native.Nat.{bit_xor}
use evolution_exchange.Wire.{write_uint32}

-- F, G and H.
unfoldable pub choice : ℕ → ℕ → ℕ → ℕ
choice x y z = bit_or (bit_and x y) (bit_and (2 ^ 32 - 1 - x) z)

unfoldable pub majority : ℕ → ℕ → ℕ → ℕ
majority x y z = bit_or (bit_or (bit_and x y) (bit_and x z)) (bit_and y z)

unfoldable pub parity : ℕ → ℕ → ℕ → ℕ
parity x y z = bit_xor (bit_xor x y) z

-- ROT
unfoldable pub rotate : ℕ → ℕ → ℕ
rotate val n = bit_or (val * 2 ^ n % 2 ^ 32) (val / 2 ^ (32 - n))

pub record Md4 : Type 0 where
  pub a : ℕ
  pub b : ℕ
  pub c : ℕ
  pub d : ℕ

-- X[i]. A block has 64 bytes, so that the last clause is for no word of it.
unfoldable pub first_word : Bytes → ℕ
first_word (a ∷ b ∷ c ∷ d ∷ rest) = bit_or (bit_or (bit_or a (b * 2 ^ 8)) (c * 2 ^ 16)) (d * 2 ^ 24)
first_word _ = 0

unfoldable pub word : Bytes → ℕ → ℕ
word block i = first_word (drop (i * 4) block)

-- `val = ROT (val + f (x, y, z) + X[i] + k, n)`
unfoldable pub step : (ℕ → ℕ → ℕ → ℕ) → ℕ → ℕ → ℕ → ℕ → ℕ → ℕ → ℕ → ℕ
step f k val x y z w n = rotate ((val + f x y z + w + k) % 2 ^ 32) n

-- Four lines, which set A, D, C and B.
unfoldable pub four_steps : (ℕ → ℕ → ℕ → ℕ) → ℕ → (n₁ n₂ n₃ n₄ w₁ w₂ w₃ w₄ : ℕ) → Md4 → Md4
four_steps f k n₁ n₂ n₃ n₄ w₁ w₂ w₃ w₄ s =
    let a = step f k s.a s.b s.c s.d w₁ n₁ in
    let d = step f k s.d a s.b s.c w₂ n₂ in
    let c = step f k s.c d a s.b w₃ n₃ in
    let b = step f k s.b c d a w₄ n₄ in record { a = a; b = b; c = c; d = d }

unfoldable pub md4sum_round : Bytes → Md4 → Md4
md4sum_round block s =
    let x = word block in
    let one = four_steps choice 0 3 7 11 19 in
    let two = four_steps majority 0x5A827999 3 5 9 13 in
    let three = four_steps parity 0x6ED9EBA1 3 9 11 15 in
    let s₁ = one (x 12) (x 13) (x 14) (x 15) (
      one (x 8) (x 9) (x 10) (x 11)
        (one (x 4) (x 5) (x 6) (x 7) (one (x 0) (x 1) (x 2) (x 3) s))) in
    let s₂ = two (x 3) (x 7) (x 11) (x 15) (
      two (x 2) (x 6) (x 10) (x 14)
        (two (x 1) (x 5) (x 9) (x 13) (two (x 0) (x 4) (x 8) (x 12) s₁))) in
    let s₃ = three (x 3) (x 11) (x 7) (x 15) (
      three (x 1) (x 9) (x 5) (x 13)
        (three (x 2) (x 10) (x 6) (x 14) (three (x 0) (x 8) (x 4) (x 12) s₂))) in
    record {
      a = (s.a + s₃.a) % 2 ^ 32;
      b = (s.b + s₃.b) % 2 ^ 32;
      c = (s.c + s₃.c) % 2 ^ 32;
      d = (s.d + s₃.d) % 2 ^ 32;
    }

unfoldable pub md4_start : Md4
md4_start = record { a = 0x67452301; b = 0xEFCDAB89; c = 0x98BADCFE; d = 0x10325476 }

-- The loop over all but the last block, and what is left of the input. A round takes 64 bytes, so
-- that the length is fuel enough.
unfoldable pub md4_blocks : ℕ → Bytes → Md4 → Md4 × Bytes
md4_blocks zero input s = (s, input)
md4_blocks (suc fuel) input s =
    let rest = md4_blocks fuel (drop 64 input) (md4sum_round input s) in
    if ltb 64 (length input) then rest else (s, input)

unfoldable pub nulls : ℕ → Bytes
nulls zero = []
nulls (suc n) = 0 ∷ nulls n

-- M, from the bytes that are left and the length of all, in the order in which it is written.
unfoldable pub padded_end : Bytes → ℕ → Bytes
padded_end left nbytes =
    let pbytes = (120 - nbytes % 64) % 64 in
    let filled = left ++ 0x80 ∷ nulls (pbytes + 7) in
    let at = length left + pbytes in
    take at filled ++ (write_uint32 (nbytes * 8 % 2 ^ 32) ++ drop (at + 4) filled)

unfoldable pub md4_digest : Md4 → Bytes
md4_digest s = write_uint32 s.a ++ (write_uint32 s.b ++ (write_uint32 s.c ++ write_uint32 s.d))

unfoldable pub md4sum : Bytes → Bytes
md4sum input =
    let (s, left) = md4_blocks (length input) input md4_start in
    let m = padded_end left (length input) in
    let s₁ = md4sum_round m s in
    md4_digest (if ltb 56 (length left) then md4sum_round (drop 64 m) s₁ else s₁)

pub length-md4sum : (input : Bytes) → length (md4sum input) ≡ 16
unfolding md4sum md4_digest write_uint32
length-md4sum input = refl

-- ===== src/Tests/Sums.antt =====
-- Test vectors of RFC 1320 for server/xntlm/xntlm-md4.c.
use evolution_exchange.Prelude.{[], ◌∷◌, codes, ◌≡◌, refl, take, drop}
use evolution_exchange.Wire.{write_uint32}
use evolution_exchange.Ntlm.Md4.{
  md4sum, md4_blocks, md4_start, padded_end, nulls, md4sum_round, four_steps, step, rotate, choice,
  majority, parity, word, first_word, md4_digest,
}

md4_empty_test :
    md4sum []
    ≡ 0x31 ∷ 0xd6 ∷ 0xcf ∷ 0xe0 ∷ 0xd1 ∷ 0x6a ∷ 0xe9 ∷ 0x31 ∷ 0xb7 ∷ 0x3c ∷ 0x59 ∷ 0xd7 ∷ 0xe0
      ∷ 0xc0 ∷ 0x89 ∷ 0xc0 ∷ []
unfolding md4sum md4_blocks md4_start padded_end nulls write_uint32 md4sum_round four_steps step
    rotate choice majority parity word first_word md4_digest
md4_empty_test = refl

md4_abc_test :
    md4sum (codes "abc")
    ≡ 0xa4 ∷ 0x48 ∷ 0x01 ∷ 0x7a ∷ 0xaf ∷ 0x21 ∷ 0xd8 ∷ 0x52 ∷ 0x5f ∷ 0xc1 ∷ 0x0a ∷ 0xe8 ∷ 0x7a
      ∷ 0xa6 ∷ 0x72 ∷ 0x9d ∷ []
unfolding md4sum md4_blocks md4_start padded_end nulls write_uint32 md4sum_round four_steps step
    rotate choice majority parity word first_word md4_digest
md4_abc_test = refl

-- Of 56 bytes the 1 bit behind them is overwritten by their number of bits, 448.
unmarked_test : take 2 (drop 56 (padded_end (nulls 56) 56)) ≡ 192 ∷ 1 ∷ []
unfolding padded_end nulls write_uint32
unmarked_test = refl

-- The two bytes behind 55 bytes: the 1 bit, and their number of bits, 440.
marked_test : take 2 (drop 55 (padded_end (nulls 55) 55)) ≡ 128 ∷ 184 ∷ []
unfolding padded_end nulls write_uint32
marked_test = refl

md4_digits_test :
    md4sum
      (codes "12345678901234567890123456789012345678901234567890123456789012345678901234567890")
    ≡ 0xe3 ∷ 0x3b ∷ 0x4d ∷ 0xdc ∷ 0x9c ∷ 0x38 ∷ 0xf2 ∷ 0x19 ∷ 0x9c ∷ 0x3e ∷ 0x7b ∷ 0x16 ∷ 0x4f
      ∷ 0xcc ∷ 0x05 ∷ 0x36 ∷ []
unfolding md4sum md4_blocks md4_start padded_end nulls write_uint32 md4sum_round four_steps step
    rotate choice majority parity word first_word md4_digest
md4_digits_test = refl

-- ===== src/Wire.antt =====
-- The primitive reads and writes of server/lib/e2k-rule.c: little-endian numbers, bytes,
-- zero-terminated strings and counted binary values.
-- An `e2k_rule_append_*` call is the bytes that it adds at the end of its GByteArray. An
-- `e2k_rule_extract_*` call is a function of `*ptr` and `*len` that returns the value read with
-- their new values; after a failure every caller gives up, so nothing is kept of them.
pub mod Reads
pub mod RoundTrip
pub mod Safe
use evolution_exchange.Prelude.{
  ℕ, zero, suc, ◌+◌, ◌-◌, ◌*◌, ◌/◌, ◌%◌, ◌^◌, bit_or, Bool, true, false, ◌&&◌, Option, none, some,
  List, [], ◌∷◌, ◌++◌, length, take, drop, leb, ◌==◌, if◌then◌else◌, ℤ, pos, negsuc, below, minus,
  Bytes,
}
use evolution_exchange.Outcome.{Outcome, ok, failed, fault, ◌>>=◌}

-- `ptr` is the memory from `*ptr` to the end of its array, `len` is `*len`.
pub record Cursor : Type 0 where
  pub ptr : Bytes
  pub len : ℤ

abbrev pub Reader : Type 0 → Type 0
Reader A = Cursor → Outcome (A × Cursor)

-- A cursor with `n` bytes left.
abbrev pub window : Bytes → ℕ → Cursor
window ptr n = record { ptr = ptr; len = pos n }

-- `*ptr += n; *len -= n`
unfoldable pub advance : ℕ → Cursor → Cursor
advance n c = record { ptr = drop n c.ptr; len = minus c.len n }

-- memcpy of `n` bytes from the pointer.
unfoldable pub copy_bytes : ℕ → Bytes → Outcome Bytes
copy_bytes n mem = if leb n (length mem) then ok (take n mem) else fault

unfoldable pub write_uint32 : ℕ → Bytes
write_uint32 val =
    val % 256 ∷ (val / 2 ^ 8) % 256 ∷ (val / 2 ^ 16) % 256 ∷ (val / 2 ^ 24) % 256 ∷ []

-- The argument is a guint32, so a larger number is cut to 32 bits.
unfoldable pub append_uint32 : ℕ → Bytes
unfolding write_uint32
append_uint32 val = write_uint32 (val % 2 ^ 32)

unfoldable pub read_uint32 : Bytes → Outcome ℕ
read_uint32 (a ∷ b ∷ c ∷ d ∷ rest) =
    ok (bit_or (bit_or (bit_or a (b * 2 ^ 8)) (c * 2 ^ 16)) (d * 2 ^ 24))
read_uint32 _ = fault

unfoldable pub extract_uint32 : Reader ℕ
unfolding advance
extract_uint32 c =
    if below c.len 4 then failed else (read_uint32 c.ptr >>= λ val. ok (val, advance 4 c))

unfoldable pub write_uint16 : ℕ → Bytes
write_uint16 val = val % 256 ∷ (val / 2 ^ 8) % 256 ∷ []

-- The argument is a guint16.
unfoldable pub append_uint16 : ℕ → Bytes
unfolding write_uint16
append_uint16 val = write_uint16 (val % 2 ^ 16)

unfoldable pub read_uint16 : Bytes → Outcome ℕ
read_uint16 (a ∷ b ∷ rest) = ok (bit_or a (b * 2 ^ 8))
read_uint16 _ = fault

unfoldable pub extract_uint16 : Reader ℕ
unfolding advance
extract_uint16 c =
    if below c.len 2 then failed else (read_uint16 c.ptr >>= λ val. ok (val, advance 2 c))

-- The argument is a guint8.
unfoldable pub append_byte : ℕ → Bytes
append_byte val = val % 256 ∷ []

unfoldable pub read_byte : Bytes → Outcome ℕ
read_byte (a ∷ rest) = ok a
read_byte [] = fault

unfoldable pub extract_byte : Reader ℕ
unfolding advance
extract_byte c =
    if below c.len 1 then failed else (read_byte c.ptr >>= λ val. ok (val, advance 1 c))

-- strlen + 1 bytes: the string and its terminator.
unfoldable pub append_string : Bytes → Bytes
append_string str = str ++ 0 ∷ []

-- The loop over `slen`, with the bytes of `*len` not looked at yet; it gives the string found.
unfoldable pub scan_string : ℕ → Bytes → Outcome Bytes
scan_string zero mem = failed
scan_string (suc left) [] = fault
scan_string (suc left) (b ∷ mem) =
    let rest = scan_string left mem >>= λ s. ok (b ∷ s) in if b == 0 then ok [] else rest

-- The rounds that a `for` loop bounded by `*len` may make.
abbrev pub rounds : ℤ → ℕ
rounds (pos n) = n
rounds (negsuc n) = 0

unfoldable pub extract_string : Reader Bytes
unfolding advance scan_string
extract_string c = scan_string (rounds c.len) c.ptr >>= λ str. ok (str, advance (length str + 1) c)

-- The length prefix is a guint16.
unfoldable pub append_binary : Bytes → Bytes
append_binary bytes = append_uint16 (length bytes) ++ bytes

unfoldable pub extract_binary : Reader Bytes
unfolding advance copy_bytes
extract_binary c = extract_uint16 c >>= λ (datalen, c₁).
    if below c₁.len datalen
    then failed
    else (copy_bytes datalen c₁.ptr >>= λ bytes. ok (bytes, advance datalen c₁))

-- e2k_rule_write_uint32 over the first four bytes that a call has appended.
unfoldable pub patch_uint32 : ℕ → Bytes → Bytes
patch_uint32 val ba = write_uint32 (val % 2 ^ 32) ++ drop 4 ba

-- e2k_rule_write_uint16 over the first two bytes that a call has appended.
unfoldable pub patch_uint16 : ℕ → Bytes → Bytes
patch_uint16 val ba = write_uint16 (val % 2 ^ 16) ++ drop 2 ba

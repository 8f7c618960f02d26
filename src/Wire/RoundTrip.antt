-- ===== src/Wire/RoundTrip.antt =====
-- Each primitive value that e2k-rule.c writes is read back, cut to the width of its field.
use evolution_exchange.Prelude.{
  ℕ, zero, suc, true, false, ne→==, ◌≢◌, ◌+◌, ◌*◌, ◌%◌, ◌^◌, ◌<◌, bit_or, ◌≡◌, refl, ap, ◌∙◌, [],
  ◌∷◌, ◌++◌, append_assoc, length, length-append, take-append, All, leb, pos, arith, Bytes,
  if◌then◌else◌, below, bit_or_low, ◌-◌,
}
use evolution_exchange.Outcome.{Outcome, ok, failed}
use evolution_exchange.Wire.{
  write_uint32, write_uint16, patch_uint32, patch_uint16, Reader, window, advance, append_uint32,
  read_uint32, extract_uint32, append_uint16, read_uint16, extract_uint16, append_byte, read_byte,
  extract_byte, append_string, scan_string, extract_string, append_binary, extract_binary,
  copy_bytes,
}
use evolution_exchange.Wire.Reads.{fixed, Reads, Reads-bind, advance-window}

or_bytes :
    (a b c d : ℕ)
    → a < 256
    → b < 256
    → c < 256
    → d < 256
    → bit_or (bit_or (bit_or a (b * 2 ^ 8)) (c * 2 ^ 16)) (d * 2 ^ 24)
      ≡ a + b * 256 + c * 65536 + d * 16777216
or_bytes a b c d ha hb hc hd =
    rw
      (
        bit_or_low 8 a b (omega arith),
        bit_or_low 16 (a + b * 256) c (omega arith),
        bit_or_low 24 (a + b * 256 + c * 65536) d (omega arith),
      )
      (omega arith)

pub read_uint32-append :
    (v : ℕ) (rest : Bytes) → read_uint32 (append_uint32 v ++ rest) ≡ ok (v % 2 ^ 32)
unfolding read_uint32 append_uint32
read_uint32-append v rest =
    ap ok (or_bytes _ _ _ _ (omega arith) (omega arith) (omega arith) (omega arith) ∙ omega arith)

pub below_window : (k n : ℕ) → below (pos (k + n)) k ≡ false
below_window k n = ground arith

pub fixed-Reads :
    {A : Type 0} (read : Bytes → Outcome A) (xs : Bytes) (v : A)
    → ((rest : Bytes) → read (xs ++ rest) ≡ ok v)
    → Reads (fixed (length xs) read) xs v
fixed-Reads read xs v reads rest n =
    rw (below_window (length xs) n, reads rest, advance-window xs rest n)

-- A number that is written with 4 bytes is read back modulo 2 ^ 32.
pub uint32-Reads : (v : ℕ) → Reads extract_uint32 (append_uint32 v) (v % 2 ^ 32)
unfolding extract_uint32 append_uint32
uint32-Reads v = fixed-Reads read_uint32 (append_uint32 v) (v % 2 ^ 32) (read_uint32-append v)

read_uint16-append :
    (v : ℕ) (rest : Bytes) → read_uint16 (append_uint16 v ++ rest) ≡ ok (v % 2 ^ 16)
unfolding read_uint16 append_uint16
read_uint16-append v rest = ap ok (bit_or_low 8 _ _ (omega arith) ∙ omega arith)

pub uint16-Reads : (v : ℕ) → Reads extract_uint16 (append_uint16 v) (v % 2 ^ 16)
unfolding extract_uint16 append_uint16
uint16-Reads v = fixed-Reads read_uint16 (append_uint16 v) (v % 2 ^ 16) (read_uint16-append v)

pub byte-Reads : (v : ℕ) → Reads extract_byte (append_byte v) (v % 256)
unfolding extract_byte append_byte read_byte
byte-Reads v = fixed-Reads read_byte (append_byte v) (v % 256) (λ rest. refl)

pub uint32-Reads_fits : (v : ℕ) → v < 2 ^ 32 → Reads extract_uint32 (append_uint32 v) v
uint32-Reads_fits v h rest n =
    rw (uint32-Reads v rest n) (ap (λ x. ok (x, window rest n)) (omega arith))

pub uint16-Reads_fits : (v : ℕ) → v < 2 ^ 16 → Reads extract_uint16 (append_uint16 v) v
uint16-Reads_fits v h rest n =
    rw (uint16-Reads v rest n) (ap (λ x. ok (x, window rest n)) (omega arith))

pub byte-Reads_fits : (v : ℕ) → v < 256 → Reads extract_byte (append_byte v) v
byte-Reads_fits v h rest n =
    rw (byte-Reads v rest n) (ap (λ x. ok (x, window rest n)) (omega arith))

-- A string with no byte 0 inside.
abbrev pub IsText : Bytes → Type 0
IsText = All (λ b. b ≢ 0)

scan_string-append :
    (str rest : Bytes) (n : ℕ)
    → IsText str
    → length str < n
    → scan_string n (str ++ 0 ∷ rest) ≡ ok str
unfolding scan_string
scan_string-append str rest zero h room = absurd (omega arith)
scan_string-append [] rest (suc n) h room = refl
scan_string-append (b ∷ str) rest (suc n) h room =
    rw (ne→== b 0 h.0, scan_string-append str rest n h.1 (omega arith))

-- A string without a zero byte is read back as it was written, with its terminator behind it.
pub string-Reads : (str : Bytes) → IsText str → Reads extract_string (append_string str) str
unfolding extract_string append_string
string-Reads str h rest n =
    rw
      (
        append_assoc str (0 ∷ []) rest,
        scan_string-append str rest (length (str ++ 0 ∷ []) + n) h room,
      )
      (ap (λ c. ok (str, c)) stepped)
  where
    room : length str < length (str ++ 0 ∷ []) + n
    room = omega (arith, length-append str (0 ∷ []))

    stepped :
        advance (length str + 1) (window (str ++ 0 ∷ rest) (length (str ++ 0 ∷ []) + n))
        ≡ window rest n
    stepped =
        rw (← append_assoc str (0 ∷ []) rest, ← length-append str (0 ∷ []))
          (advance-window (str ++ 0 ∷ []) rest n)

pub copy_bytes-append : (xs rest : Bytes) → copy_bytes (length xs) (xs ++ rest) ≡ ok xs
unfolding copy_bytes
copy_bytes-append xs rest = rw (fits, take-append xs rest)
  where
    fits : leb (length xs) (length (xs ++ rest)) ≡ true
    fits = ground (arith, length-append xs rest)

-- A value of less than 2 ^ 16 bytes is read back as it was written, with its length in front.
pub binary-Reads :
    (bytes : Bytes) → length bytes < 2 ^ 16 → Reads extract_binary (append_binary bytes) bytes
unfolding extract_binary append_binary
binary-Reads bytes h =
    Reads-bind extract_uint16 _ (append_uint16 (length bytes)) bytes (length bytes) bytes
      (uint16-Reads_fits (length bytes) h)
      (fixed-Reads (copy_bytes (length bytes)) bytes bytes (copy_bytes-append bytes))

-- The four bytes saved for a length are replaced by the length of what follows them.
pub patch-append :
    (body : Bytes)
    → patch_uint32 (length (append_uint32 0 ++ body) - 4) (append_uint32 0 ++ body)
      ≡ append_uint32 (length body) ++ body
unfolding patch_uint32 append_uint32
patch-append body = ap (λ n. write_uint32 (n % 2 ^ 32) ++ body) (omega arith)

pub patch_uint16-append :
    (body : Bytes)
    → patch_uint16 (length (append_uint16 0 ++ body) - 2) (append_uint16 0 ++ body)
      ≡ append_uint16 (length body) ++ body
unfolding patch_uint16 append_uint16
patch_uint16-append body = ap (λ n. write_uint16 (n % 2 ^ 16) ++ body) (omega arith)

-- A length that covers what it counts passes the check.
pub limited-Reads :
    {A : Type 0} (r : ℕ → Reader A) (body : Bytes) (a : A)
    → Reads (r (length body)) body a
    → Reads (λ c. if below c.len (length body) then failed else r (length body) c) body a
limited-Reads r body a h rest n = rw (below_window (length body) n) (h rest n)

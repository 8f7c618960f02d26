-- ===== src/Unicode/RoundTrip.antt =====
-- A valid string is read back, on a little-endian machine.
use evolution_exchange.Prelude.{
  ℕ, zero, suc, ◌+◌, ◌/◌, ◌%◌, ◌^◌, ◌<◌, ◌≤◌, ◌≡◌, refl, ap, ap₂, ◌∙◌, false, ◌&&◌, some, List, [],
  ◌∷◌, ◌++◌, ◌==◌, Bytes, bit_or_low, ne→==, arith, length, take-append,
}
use evolution_exchange.Outcome.{ok}
use evolution_exchange.Platform.{Platform, IsUnits, HasUnicode}
use evolution_exchange.Wire.{window, append_uint16}
use evolution_exchange.Wire.Reads.{Reads, advance-window}
use evolution_exchange.Unicode.{
  append_units, scan_unicode, load_unit, load_units, append_unicode, extract_unicode,
}

abbrev two_bytes : ℕ → Bytes
two_bytes u = u % 256 ∷ u / 256 ∷ []

append_uint16_unit : (u : ℕ) → u < 2 ^ 16 → append_uint16 u ≡ two_bytes u
unfolding append_uint16
append_uint16_unit u h = ap₂ (λ (a b : ℕ). a ∷ b ∷ []) (omega arith) (omega arith)

append_units-cons :
    (u : ℕ) (us : List ℕ)
    → 0 < u
    → u < 2 ^ 16
    → append_units (u ∷ us) ≡ two_bytes u ++ append_units us
unfolding append_units
append_units-cons u us some_bit fits = rw (ne→== u 0 (omega arith), append_uint16_unit u fits)

append_units-nil : append_units [] ≡ 0 ∷ 0 ∷ []
unfolding append_units append_uint16
append_units-nil = refl

two_bytes_zero : (u : ℕ) → 0 < u → ((u % 256 == 0) && (u / 256 == 0)) ≡ false
two_bytes_zero u h = ground arith

load_two_bytes : (u : ℕ) → u < 2 ^ 16 → load_unit false (u % 256) (u / 256) ≡ u
unfolding load_unit
load_two_bytes u h = bit_or_low 8 (u % 256) (u / 256) (omega arith) ∙ omega arith

scan_unicode-unit :
    (u n k : ℕ) (mem : Bytes)
    → 0 < u
    → scan_unicode n mem ≡ ok k
    → scan_unicode (suc (suc n)) (two_bytes u ++ mem) ≡ ok (k + 2)
unfolding scan_unicode
scan_unicode-unit u n k mem h e = rw (two_bytes_zero u h, e)

length-units-cons :
    (u : ℕ) (us : List ℕ)
    → 0 < u
    → u < 2 ^ 16
    → length (append_units (u ∷ us)) ≡ length (append_units us) + 2
length-units-cons u us h k = rw (append_units-cons u us h k) (omega arith)

scan-append :
    (us : List ℕ) (rest : Bytes) (n : ℕ)
    → IsUnits us
    → length (append_units us) ≤ n
    → scan_unicode n (append_units us ++ rest) ≡ ok (length (append_units us))
unfolding scan_unicode
scan-append [] rest zero h room = absurd (omega (arith, ap length append_units-nil))
scan-append [] rest (suc zero) h room = absurd (omega (arith, ap length append_units-nil))
scan-append [] rest (suc (suc n)) h room = rw append_units-nil
scan-append (u ∷ us) rest zero h room = absurd (omega (arith, length-units-cons u us h.0.0 h.0.1))
scan-append (u ∷ us) rest (suc zero) h room =
    absurd (omega (arith, length-units-cons u us h.0.0 h.0.1))
scan-append (u ∷ us) rest (suc (suc n)) h room = rw (append_units-cons u us h.0.0 h.0.1) (
    scan_unicode-unit u n (length (append_units us)) (append_units us ++ rest) h.0.0
      (scan-append us rest n h.1 (omega (arith, length-units-cons u us h.0.0 h.0.1)))
    ∙ ap ok (omega arith))

load_units-append : (us : List ℕ) → IsUnits us → load_units false (append_units us) ≡ us
unfolding load_units
load_units-append [] h = rw append_units-nil (unfold load_unit in refl)
load_units-append (u ∷ us) h = rw (
  append_units-cons u us h.0.0 h.0.1,
  load_two_bytes u h.0.1,
  ne→== u 0 (omega arith),
  load_units-append us h.1,
)

append_unicode-valid :
    (p : Platform) (str : Bytes) (us : List ℕ)
    → p.utf8_to_utf16 str ≡ some us
    → append_unicode p str ≡ append_units us
unfolding append_unicode
append_unicode-valid p str us valid = rw (valid, append_unicode)

units-Reads :
    (p : Platform) (us : List ℕ)
    → IsUnits us
    → p.big_endian ≡ false
    → Reads (extract_unicode p) (append_units us) (p.utf16_to_utf8 us)
unfolding extract_unicode
units-Reads p us fine little rest n =
    rw
      (
        scan-append us rest (length (append_units us) + n) fine (omega arith),
        take-append (append_units us) rest,
        little,
        load_units-append us fine,
      )
      (ap (λ c. ok (p.utf16_to_utf8 us, c)) (advance-window (append_units us) rest n))

-- A string that converts to UTF-16 is read back as it was written, on a little-endian machine
-- where GLib converts valid strings without loss.
pub unicode-Reads :
    (p : Platform) (str : Bytes) (us : List ℕ)
    → HasUnicode p
    → p.big_endian ≡ false
    → p.utf8_to_utf16 str ≡ some us
    → Reads (extract_unicode p) (append_unicode p str) (some str)
unicode-Reads p str us laws little valid rest n = rw (append_unicode-valid p str us valid) (
    units-Reads p us (laws.units str us valid) little rest n
    ∙ ap (λ s. ok (s, window rest n)) (laws.back str us valid))

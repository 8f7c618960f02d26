-- ===== src/Time.antt =====
-- Times in server/lib/e2k-utils.c. A `time_t` is a signed 64-bit number, as is `unsigned long`
-- an unsigned one.
pub mod RoundTrip
use evolution_exchange.Prelude.{
  ℕ, zero, suc, ◌+◌, ◌-◌, ◌*◌, ◌/◌, ◌%◌, ◌^◌, List, [], ◌∷◌, ◌++◌, length, ltb, leb, if◌then◌else◌,
  Bytes, ℤ, pos, negsuc,
}
use evolution_exchange.Platform.{Tm, Platform}

-- SYSTIME_OFFSET
abbrev pub systime_offset : ℕ
systime_offset = 194074560

-- The number that a 64-bit pattern stands for, and back.
abbrev pub signed64 : ℕ → ℤ
signed64 w = if ltb w (2 ^ 63) then pos w else negsuc (2 ^ 64 - w - 1)

abbrev pub unsigned64 : ℤ → ℕ
unsigned64 (pos n) = n % 2 ^ 64
unsigned64 (negsuc n) = 2 ^ 64 - (n % 2 ^ 64) - 1

unfoldable pub systime_to_time_t : ℕ → ℤ
systime_to_time_t systime = signed64 (((systime + 2 ^ 64 - systime_offset) % 2 ^ 64 * 60) % 2 ^ 64)

-- C's `/` on a signed number goes towards zero.
abbrev pub quot : ℤ → ℕ → ℤ
quot (pos n) k = pos (n / k)
quot (negsuc n) k = if ltb (suc n) k then pos 0 else negsuc (suc n / k - 1)

unfoldable pub systime_from_time_t : ℤ → ℕ
systime_from_time_t tt = (unsigned64 (quot tt 60) + systime_offset) % 2 ^ 32

unfoldable pub filetime_to_time_t : ℕ → ℤ
filetime_to_time_t filetime =
    signed64 ((filetime / 10000000 + 2 ^ 64 - systime_offset * 60) % 2 ^ 64)

unfoldable pub filetime_from_time_t : ℤ → ℕ
filetime_from_time_t tt = (((unsigned64 tt + systime_offset * 60) % 2 ^ 64) * 10000000) % 2 ^ 64

-- printf's %d, with one round of fuel a digit.
unfoldable pub decimal : ℕ → ℕ → Bytes
decimal zero n = []
decimal (suc fuel) n =
    let high = decimal fuel (n / 10) in
    if ltb n 10 then (n + 48) ∷ [] else high ++ (n % 10 + 48) ∷ []

unfoldable pub zeros : ℕ → Bytes
zeros zero = []
zeros (suc n) = 48 ∷ zeros n

-- printf's %0<width>d
unfoldable pub padded : ℕ → ℤ → Bytes
padded width (pos n) = let digits = decimal (suc n) n in zeros (width - length digits) ++ digits
padded width (negsuc n) =
    let digits = decimal (suc (suc n)) (suc n) in 45 ∷ (zeros (width - 1 - length digits) ++ digits)

abbrev add_int : ℤ → ℕ → ℤ
add_int (pos n) k = pos (n + k)
add_int (negsuc n) k = if ltb n k then pos (k - n - 1) else negsuc (n - k)

unfoldable pub make_timestamp : Platform → ℤ → Bytes
make_timestamp p when =
    let tm : Tm = p.gmtime when in
    padded 4 (add_int tm.tm_year 1900)
    ++ 45
      ∷ (padded 2 (pos (tm.tm_mon + 1))
          ++ 45
            ∷ (padded 2 (pos tm.tm_mday)
                ++ 84
                  ∷ (padded 2 (pos tm.tm_hour)
                      ++ 58
                        ∷ (padded 2 (pos tm.tm_min)
                            ++ 58 ∷ (padded 2 (pos tm.tm_sec) ++ 90 ∷ [])))))

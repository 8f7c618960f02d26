-- ===== src/Time/RoundTrip.antt =====
-- The conversions between times of server/lib/e2k-utils.c are inverse to each other.
use evolution_exchange.Prelude.{
  ℕ, suc, ◌+◌, ◌-◌, ◌*◌, ◌%◌, ◌^◌, ◌<◌, ◌≡◌, ℤ, pos, negsuc, ltb, if◌then◌else◌, arith,
}
use evolution_exchange.Time.{
  systime_to_time_t, systime_from_time_t, filetime_to_time_t, filetime_from_time_t,
}

-- Seconds from the Windows epoch, 1601, to the time_t epoch, 1970.
abbrev epoch : ℕ
epoch = 11644473600

-- The times that a FILETIME can hold.
abbrev pub HasFiletime : ℤ → Type 0
HasFiletime (pos t) = 10000000 * (t + epoch) < 2 ^ 64
HasFiletime (negsuc n) = n < epoch

-- The times that a 32-bit count of minutes since 1601 can hold.
abbrev pub HasSystime : ℤ → Type 0
HasSystime (pos t) = t + epoch < 60 * 2 ^ 32
HasSystime (negsuc n) = n < epoch

-- The time without its odd seconds.
abbrev pub whole_minutes : ℤ → ℤ
whole_minutes (pos t) = pos (t - t % 60)
whole_minutes (negsuc n) = if ltb n 59 then pos 0 else negsuc (n - suc n % 60)

-- A time from 1601 on that a FILETIME can hold is converted to a FILETIME and back without loss.
filetime_to_time_t-filetime_from_time_t :
    (when : ℤ) → HasFiletime when → filetime_to_time_t (filetime_from_time_t when) ≡ when
unfolding filetime_to_time_t filetime_from_time_t
filetime_to_time_t-filetime_from_time_t (pos t) h = ground arith
filetime_to_time_t-filetime_from_time_t (negsuc n) h = ground arith

-- A time from 1601 on whose minutes fit 32 bits is converted to a PT_SYSTIME and back, where its
-- odd seconds are dropped, towards 1970.
systime_to_time_t-systime_from_time_t :
    (when : ℤ) → HasSystime when → systime_to_time_t (systime_from_time_t when) ≡ whole_minutes when
unfolding systime_to_time_t systime_from_time_t
systime_to_time_t-systime_from_time_t (pos t) h = ground arith
systime_to_time_t-systime_from_time_t (negsuc n) h = ground arith

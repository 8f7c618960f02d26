-- ===== src/Tests.antt =====
-- A machine to run the model on, and values to run it with.
pub mod Values
pub mod Rules
pub mod Utils
pub mod Uris
pub mod Times
pub mod Operations
pub mod Folders
pub mod Messages
pub mod Sums
pub mod Identifiers
pub mod Properties
use mathlib.Core.Path.{subst}
use evolution_exchange.Prelude.{
  ℕ, ◌<◌, ◌&&◌, ltb, Bool, false, true, Option, none, some, List, [], ◌∷◌, Bytes, codes,
  if◌then◌else◌, pos, All, arith, Bool-cases, inl, inr, ◌^◌, ◌≡◌, refl, sym, ap, ◌∙◌,
}
use evolution_exchange.Platform.{Platform, HasUnicode, IsUnits}
use evolution_exchange.PropValue.{PropValue, string, int, binary, date}
use evolution_exchange.PropValue.RoundTrip.{prop_of, IsStorable}

abbrev is_ascii : List ℕ → Bool
is_ascii [] = true
is_ascii (b ∷ bs) = ltb 0 b && ltb b 128 && is_ascii bs

-- A conversion that knows ASCII only, in both directions.
abbrev ascii : List ℕ → Option (List ℕ)
ascii s = if is_ascii s then some s else none

-- A little-endian machine, whose clock has stopped.
abbrev pub machine : Platform
machine = record {
  big_endian = false;
  utf8_to_utf16 = ascii;
  utf16_to_utf8 = ascii;
  gmtime = λ t. record {
    tm_year = pos 70;
    tm_mon = 0;
    tm_mday = 1;
    tm_hour = 0;
    tm_min = 0;
    tm_sec = 0;
  };
  slack = 7;
}

is_ascii-IsUnits : (s : List ℕ) → is_ascii s ≡ true → IsUnits s
is_ascii-IsUnits [] h = tt
is_ascii-IsUnits (b ∷ s) h = (ground arith, is_ascii-IsUnits s (ground arith))

ascii-some : (s us : List ℕ) → ascii s ≡ some us → (is_ascii s ≡ true) × (us ≡ s)
ascii-some s us e = ground arith

pub machine_unicode : HasUnicode machine
machine_unicode = record {
  units = λ s us e.
      subst IsUnits (sym (ascii-some s us e).1) (is_ascii-IsUnits s (ascii-some s us e).0);
  back = λ s us e.
      ap ascii (ascii-some s us e).1 ∙ ap (λ b. if b then some s else none) (ascii-some s us e).0;
}

-- PR_SUBJECT
abbrev pub subject : PropValue
subject = record { prop = prop_of 0x0037001f; value = string (some (codes "hi")) }

pub subject-IsStorable : IsStorable machine subject
subject-IsStorable = record {
  canonical = record {
    named = refl;
    fits = omega arith;
    not_string8 = λ e. absurd (omega arith);
    not_rule = λ e. absurd (omega arith);
  };
  fitting = (refl, (codes "hi", refl));
}

-- PR_MESSAGE_DELIVERY_TIME
abbrev pub delivered : PropValue
delivered = record { prop = prop_of 0x0e060040; value = date (codes "1970-01-01T00:00:00Z") }

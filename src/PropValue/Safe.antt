-- ===== src/PropValue/Safe.antt =====
-- The readers of property tags and values stay inside their array.
use evolution_exchange.Prelude.{
  refl, Bool-cases, inl, inr, ℕ, ◌+◌, ◌≤◌, ◌∷◌, ◌==◌, ◌||◌, Bytes, arith, length,
}
use evolution_exchange.Outcome.{ok, ◌>>=◌}
use evolution_exchange.Platform.{Platform}
use evolution_exchange.Wire.{Reader, window, extract_uint32, extract_binary, extract_byte}
use evolution_exchange.Wire.Safe.{
  Within, IsSafe, IsSafe-bind, IsSafe-pure, IsSafe-weaken, IsDefined, fixed-IsSafe, uint32-IsSafe,
  byte-IsSafe, binary-IsSafe,
}
use evolution_exchange.Unicode.{extract_unicode}
use evolution_exchange.Unicode.Safe.{unicode-IsSafe}
use evolution_exchange.PropValue.{
  proptag_type, pt_long, pt_boolean, pt_string8, pt_unicode, pt_systime, pt_binary, string, binary,
  date, int, bool, unrule_proptag, extract_proptag, read_uint64, extract_uint64, extract_value,
  extract_propvalue,
}
use evolution_exchange.Props.{proptag_prop}
use evolution_exchange.Time.{filetime_to_time_t, make_timestamp}

-- A reader whose value is only wrapped is as safe as before.
pub IsSafe-map :
    {A B : Type 0} (d : ℕ) (r : Reader A) (f : A → B)
    → IsSafe d r
    → IsSafe d (λ c. r c >>= λ (x, c₁). ok (f x, c₁))
IsSafe-map d r f safe =
    IsSafe-weaken (d + 0) d (λ c. r c >>= λ (x, c₁). ok (f x, c₁)) (omega arith)
      (IsSafe-bind d 0 r (λ x c₁. ok (f x, c₁)) safe (λ x. IsSafe-pure (f x)))

pub proptag-IsSafe : IsSafe 4 extract_proptag
unfolding extract_proptag
proptag-IsSafe =
    IsSafe-map 4 extract_uint32
      (λ n. record { name = proptag_prop (unrule_proptag n); proptag = unrule_proptag n })
      uint32-IsSafe

read_uint64-IsDefined : IsDefined 8 read_uint64
unfolding read_uint64
read_uint64-IsDefined (a ∷ b ∷ c ∷ d ∷ e ∷ f ∷ g ∷ h ∷ rest) _ = (_, refl)
read_uint64-IsDefined _ h = absurd (omega arith)

uint64-IsSafe : IsSafe 8 extract_uint64
unfolding extract_uint64
uint64-IsSafe = fixed-IsSafe 8 read_uint64 read_uint64-IsDefined

-- The same, where less is promised of the bytes used.
wrapped-IsSafe :
    {A B : Type 0} (d e : ℕ) (r : Reader A) (f : A → B)
    → e ≤ d
    → IsSafe d r
    → IsSafe e (λ c. r c >>= λ (x, c₁). ok (f x, c₁))
wrapped-IsSafe d e r f h safe =
    IsSafe-weaken d e (λ c. r c >>= λ (x, c₁). ok (f x, c₁)) h (IsSafe-map d r f safe)

module _ (p : Platform) where
  value-IsSafe : (type : ℕ) → IsSafe 1 (extract_value p type)
  unfolding extract_value
  value-IsSafe type ptr n inside = elim (Bool-cases (type == pt_unicode || type == pt_string8)) [
    | inl e ↦ rw e (
        wrapped-IsSafe 2 1 (extract_unicode p) string (omega arith) (unicode-IsSafe p) ptr n inside)
    | inr e₁ ↦ rw e₁ (elim (Bool-cases (type == pt_binary)) [
      | inl e ↦
          rw e (wrapped-IsSafe 2 1 extract_binary binary (omega arith) binary-IsSafe ptr n inside)
      | inr e₂ ↦ rw e₂ (elim (Bool-cases (type == pt_systime)) [
        | inl e ↦ rw e (
            wrapped-IsSafe 8 1 extract_uint64 (λ t. date (make_timestamp p (filetime_to_time_t t)))
              (omega arith) uint64-IsSafe ptr n inside)
        | inr e₃ ↦ rw e₃ (elim (Bool-cases (type == pt_long)) [
          | inl e ↦
              rw e (wrapped-IsSafe 4 1 extract_uint32 int (omega arith) uint32-IsSafe ptr n inside)
          | inr e₄ ↦ rw e₄ (elim (Bool-cases (type == pt_boolean)) [
            | inl e ↦ rw e (IsSafe-map 1 extract_byte bool byte-IsSafe ptr n inside)
            | inr e ↦ rw e tt
          ])
        ])
      ])
    ])
  ]

  -- From every length that lies inside the array, e2k_rule_extract_propvalue fails or succeeds,
  -- looks at no byte outside the array, and leaves a length inside it that is smaller by at least
  -- 5.
  pub propvalue-IsSafe :
      (ptr : Bytes) (n : ℕ) → n ≤ length ptr → Within 5 n (extract_propvalue p (window ptr n))
  unfolding extract_propvalue
  propvalue-IsSafe =
      IsSafe-bind 4 1 extract_proptag
        (λ prop c. extract_value p (proptag_type prop.proptag) c >>= λ (v, c₂).
          ok (record { prop = prop; value = v }, c₂))
        proptag-IsSafe
        λ prop.
          IsSafe-map 1 (extract_value p (proptag_type prop.proptag))
            (λ v. record { prop = prop; value = v }) (value-IsSafe _)

-- ===== src/Restriction/Safe.antt =====
-- Reading a restriction stays inside the array and ends, whatever the bytes are.
use evolution_exchange.Prelude.{
  ltb, ltb→le, below, ℕ, zero, suc, ◌≤◌, ◌<◌, ◌≡◌, Option, none, some, [], ◌∷◌, ◌==◌, if◌then◌else◌,
  Bytes, length, arith, Bool-cases, inl, inr, Bool, ap, false, true,
}
use evolution_exchange.Outcome.{ok, failed, ◌>>=◌}
use evolution_exchange.Platform.{Platform}
use evolution_exchange.PropValue.{extract_proptag, extract_propvalue}
use evolution_exchange.PropValue.Safe.{proptag-IsSafe, propvalue-IsSafe}
use evolution_exchange.Wire.{
  Reader, window, advance, extract_uint32, extract_uint16, extract_byte, read_byte,
}
use evolution_exchange.Wire.Safe.{
  Within, IsSafe, Within-then, Within-weaken, advance-Within, uint32-IsSafe, uint16-IsSafe,
  byte-IsSafe,
}
use evolution_exchange.Loops.{extract_many}
use evolution_exchange.Loops.Safe.{
  IsSafeBelow, StaysBelow, stay, stay_used, stay-bind, stay-map, many-IsSafeBelow,
}
use evolution_exchange.Restriction.Step.{extract_restriction-cons}
use evolution_exchange.Restriction.{
  RestrictionType, t_and, t_or, t_not, t_content, t_property, t_compareprops, t_bitmask, t_size,
  t_exist, t_subrestriction, t_comment, type_of_code, Restriction, not, content, property, bitmask,
  exist, sub, comment, to_array, conjoin, extract_case, extract_typed, extract_restriction,
  restriction_extract, is_null, is_marked, extract_marked, extract_limited,
}

module _ (p : Platform) (bound : ℕ) (rec : Reader Restriction) (safe : StaysBelow bound rec) where
  stay_proptag : StaysBelow bound extract_proptag
  stay_proptag = stay bound 4 extract_proptag proptag-IsSafe

  stay_propvalue : StaysBelow bound (extract_propvalue p)
  stay_propvalue = stay bound 5 (extract_propvalue p) (propvalue-IsSafe p)

  stay_uint32 : StaysBelow bound extract_uint32
  stay_uint32 = stay bound 4 extract_uint32 uint32-IsSafe

  stay_uint16 : StaysBelow bound extract_uint16
  stay_uint16 = stay bound 2 extract_uint16 uint16-IsSafe

  stay_byte : StaysBelow bound extract_byte
  stay_byte = stay bound 1 extract_byte byte-IsSafe

  -- The byte 1 and the restriction behind a COMMENT's properties.
  stay_commented :
      (f : Restriction → Restriction)
      → StaysBelow bound (λ c. extract_byte c >>= λ (dummy, c₁).
          if dummy == 1 then (rec c₁ >>= λ (rn, c₂). ok (f rn, c₂)) else failed)
  stay_commented f =
      stay-bind bound extract_byte
        (λ dummy c₁. if dummy == 1 then (rec c₁ >>= λ (rn, c₂). ok (f rn, c₂)) else failed)
        stay_byte
        λ dummy ptr n inside h. elim (Bool-cases (dummy == 1)) [
          | inl e ↦ rw e (stay-map bound rec f safe ptr n inside h)
          | inr e ↦ rw e tt
        ]

  case-StaysBelow : (t : RestrictionType) → StaysBelow bound (extract_case p rec t)
  unfolding extract_case
  case-StaysBelow t_and = stay-bind bound extract_uint16 _ stay_uint16 λ n.
      stay-map bound (extract_many rec n) (λ rns. conjoin t_and (to_array rns))
        (many-IsSafeBelow bound rec n safe)
  case-StaysBelow t_or = stay-bind bound extract_uint16 _ stay_uint16 λ n.
      stay-map bound (extract_many rec n) (λ rns. conjoin t_or (to_array rns))
        (many-IsSafeBelow bound rec n safe)
  case-StaysBelow t_not = stay-map bound rec not safe
  case-StaysBelow t_content = stay-bind bound extract_uint32 _ stay_uint32 λ fl.
      stay-bind bound extract_proptag _ stay_proptag λ prop.
        stay-map bound (extract_propvalue p) (λ pv. content fl (record pv { prop = prop }))
          stay_propvalue
  case-StaysBelow t_property = stay-bind bound extract_byte _ stay_byte λ relop.
      stay-bind bound extract_proptag _ stay_proptag λ prop.
        stay-map bound (extract_propvalue p) (λ pv. property relop (record pv { prop = prop }))
          stay_propvalue
  case-StaysBelow t_compareprops = λ ptr n inside h. tt
  case-StaysBelow t_bitmask = stay-bind bound extract_byte _ stay_byte λ bitop.
      stay-bind bound extract_proptag _ stay_proptag
        λ prop. stay-map bound extract_uint32 (bitmask bitop prop) stay_uint32
  case-StaysBelow t_size = λ ptr n inside h. tt
  case-StaysBelow t_exist = stay-map bound extract_proptag exist stay_proptag
  case-StaysBelow t_subrestriction =
      stay-bind bound extract_proptag _ stay_proptag
        λ subtable. stay-map bound rec (sub subtable) safe
  case-StaysBelow t_comment = stay-bind bound extract_byte _ stay_byte λ nprops.
      stay-bind bound (extract_many (extract_propvalue p) nprops) _
        (many-IsSafeBelow bound (extract_propvalue p) nprops stay_propvalue)
        λ props. stay_commented (comment props)

is_marked_defined : (mem : Bytes) → 2 ≤ length mem → (m : Bool) × (is_marked mem ≡ ok m)
unfolding is_marked read_byte
is_marked_defined [] h = absurd (omega arith)
is_marked_defined (a ∷ []) h = absurd (omega arith)
is_marked_defined (a ∷ b ∷ mem) h = elim (Bool-cases (a == 0)) [
  | inl e ↦ (if b == 0 then false else true, rw e)
  | inr e ↦ (true, rw e)
]

is_null_defined :
    (rnlen : ℕ) (mem : Bytes) → rnlen ≤ length mem → (null : Bool) × (is_null rnlen mem ≡ ok null)
unfolding is_null read_byte
is_null_defined rnlen [] h = (false, ground arith)
is_null_defined rnlen (b ∷ mem) h = elim (Bool-cases (rnlen == 1)) [
  | inl e ↦ (b == 0xFF, rw e)
  | inr e ↦ (false, rw e)
]

is_null-true : (rnlen : ℕ) (mem : Bytes) → is_null rnlen mem ≡ ok true → rnlen ≡ 1
unfolding is_null
is_null-true rnlen mem h = ground arith

advance_two :
    (a b : ℕ) (mem : Bytes) (k : ℕ) → advance 2 (window (a ∷ b ∷ mem) (suc (suc k))) ≡ window mem k
unfolding advance
advance_two a b mem k = ap (λ z. record { ptr = mem; len = z }) (ground arith)

module _ (p : Platform) where
  typed-StaysBelow :
      (bound : ℕ) (rec : Reader Restriction) (t : Option RestrictionType)
      → StaysBelow bound rec
      → StaysBelow bound (extract_typed p rec t)
  typed-StaysBelow bound rec none safe = λ ptr n inside h. tt
  typed-StaysBelow bound rec (some t) safe = case-StaysBelow p bound rec safe t

  -- The type byte is used before the case is entered, so that the fuel left still exceeds the length.
  pub extract_restriction-IsSafeBelow : (fuel : ℕ) → IsSafeBelow fuel 1 (extract_restriction p fuel)
  extract_restriction-IsSafeBelow zero ptr n inside h = absurd (omega arith)
  extract_restriction-IsSafeBelow (suc fuel) ptr zero inside h = unfold extract_restriction in tt
  extract_restriction-IsSafeBelow (suc fuel) [] (suc n) inside h = absurd (omega arith)
  extract_restriction-IsSafeBelow (suc fuel) (b ∷ mem) (suc n) inside h =
      rw (extract_restriction-cons p fuel b mem n) (
        Within-weaken 0 1 n (suc n)
          (extract_typed p (extract_restriction p fuel) (type_of_code b) (window mem n))
          (typed-StaysBelow fuel (extract_restriction p fuel) (type_of_code b)
            (stay_used fuel 1 (extract_restriction p fuel) (extract_restriction-IsSafeBelow fuel))
            mem n (omega arith) (omega arith))
          (omega arith))

  -- The restriction behind the two zero bytes.
  some-Within :
      (mem : Bytes) (fuel n : ℕ)
      → n ≤ length mem
      → n < fuel
      → Within 0 n (extract_restriction p fuel (window mem n) >>= λ (rn, c₂). ok (some rn, c₂))
  some-Within mem fuel n inside h =
      stay-map fuel (extract_restriction p fuel) some
        (stay_used fuel 1 (extract_restriction p fuel) (extract_restriction-IsSafeBelow fuel)) mem n
        inside h

  marked-IsSafe : IsSafe 0 (extract_marked p)
  unfolding extract_marked
  marked-IsSafe ptr n inside = elim (Bool-cases (ltb n 2)) [
    | inl short ↦ rw short tt
    | inr long ↦
        let (m, marked) = is_marked_defined ptr (omega (arith, ltb→le n 2 long)) in
        rw (long, marked) (after m ptr n inside (ltb→le n 2 long))
  ]
    where
      after :
          (m : Bool) (mem : Bytes) (k : ℕ)
          → k ≤ length mem
          → 2 ≤ k
          → Within 0 k (
              if m
              then failed
              else (extract_restriction p (suc (length mem)) (advance 2 (window mem k))
                  >>= λ (rn, c₂). ok (some rn, c₂)))
      after true mem k inside₁ two = tt
      after false mem zero inside₁ two = absurd (omega arith)
      after false mem (suc zero) inside₁ two = absurd (omega arith)
      after false [] (suc (suc k)) inside₁ two = absurd (omega arith)
      after false (a ∷ []) (suc (suc k)) inside₁ two = absurd (omega arith)
      after false (a ∷ b ∷ mem) (suc (suc k)) inside₁ two = rw (advance_two a b mem k) (
          Within-weaken 0 0 k (suc (suc k))
            (extract_restriction p (suc (suc (suc (length mem)))) (window mem k) >>= λ (rn, c₂).
              ok (some rn, c₂))
            (some-Within mem (suc (suc (suc (length mem)))) k (omega arith) (omega arith))
            (omega arith))

  limited-IsSafe :
      (rnlen : ℕ) (ptr : Bytes) (n : ℕ)
      → n ≤ length ptr
      → rnlen ≤ n
      → Within 0 n (extract_limited p rnlen (window ptr n))
  unfolding extract_limited
  limited-IsSafe rnlen ptr n inside counted =
      let (null, answer) = is_null_defined rnlen ptr (omega arith) in rw answer (after null answer)
    where
      after :
          (null : Bool)
          → is_null rnlen ptr ≡ ok null
          → Within 0 n (
              if null then ok (none, advance 1 (window ptr n)) else extract_marked p (window ptr n))
      after true answer =
          let w : Within {A = Option Restriction} 1 n (ok (none, advance 1 (window ptr n))) =
            advance-Within {A = Option Restriction} none 1 ptr n inside
              (omega (arith, is_null-true rnlen ptr answer)) in
          (w.0, w.1, omega arith, w.3)
      after false answer = marked-IsSafe ptr n inside

  -- From every length that lies inside the array, e2k_restriction_extract ends, fails or
  -- succeeds, looks at no byte outside the array, and leaves a length inside it that is smaller
  -- by at least 4.
  pub restriction_extract-IsSafe :
      (ptr : Bytes) (n : ℕ) → n ≤ length ptr → Within 4 n (restriction_extract p (window ptr n))
  unfolding restriction_extract
  restriction_extract-IsSafe ptr n inside =
      Within-then 4 0 n (extract_uint32 (window ptr n))
        (λ rnlen c₁. if below c₁.len rnlen then failed else extract_limited p rnlen c₁)
        (uint32-IsSafe ptr n inside)
        λ rnlen ptr₁ m inside₁ less. elim (Bool-cases (ltb m rnlen)) [
          | inl e ↦ rw e tt
          | inr e ↦ rw e (limited-IsSafe rnlen ptr₁ m inside₁ (ltb→le m rnlen e))
        ]

-- ===== src/Restriction/RoundTrip.antt =====
-- A storable restriction is read back as it was written.
use evolution_exchange.Prelude.{
  ℕ, zero, suc, ◌+◌, ◌%◌, ◌^◌, ◌<◌, ◌≡◌, refl, ap, ◌∙◌, List, [], ◌∷◌, ◌++◌, Bytes, length,
  length-append, All, Option, none, some, ◌==◌, if◌then◌else◌, pos, arith, false, below,
}
use evolution_exchange.Outcome.{ok, failed, ◌>>=◌}
use evolution_exchange.Platform.{Platform, HasUnicode}
use evolution_exchange.PropValue.{PropValue, append_proptag, extract_proptag, extract_propvalue}
use evolution_exchange.PropValue.RoundTrip.{IsStorable, written, written-Reads, proptag-Reads}
use evolution_exchange.Wire.{
  Reader, window, advance, append_uint32, extract_uint32, append_uint16, extract_uint16,
  append_byte, extract_byte, read_byte,
}
use evolution_exchange.Wire.Reads.{
  Reads, Reads-bind, Reads-map, Reads-pure, window_eq, advance-window, ReadsBack,
}
use evolution_exchange.Wire.RoundTrip.{
  limited-Reads, patch-append, uint32-Reads_fits, uint16-Reads_fits, byte-Reads_fits,
}
use evolution_exchange.Loops.{extract_many}
use evolution_exchange.Loops.Reads.{concat_map, many-Reads}
use evolution_exchange.Restriction.{
  RestrictionType, t_and, t_or, t_not, t_content, t_property, t_bitmask, t_exist, t_subrestriction,
  t_comment, type_code, type_of_code, Restriction, Restrictions, and, or, not, content, property,
  compare, bitmask, size, exist, sub, comment, nil, cons, nrns, to_array, conjoin, extract_case,
  extract_restriction, restriction_extract, restriction_append, is_null, is_marked, extract_marked,
  extract_limited,
}
use evolution_exchange.Restriction.Step.{extract_restriction-cons}
use evolution_exchange.Restriction.Storable.{
  IsStorableRn, AreStorable, written_rn, written_rns, append_restriction-IsStorableRn,
}

type_of_code-type_code : (t : RestrictionType) → type_of_code (type_code t % 256) ≡ some t
unfolding type_of_code type_code
type_of_code-type_code t_and = refl
type_of_code-type_code _ = refl

abbrev to_list : Restrictions → List Restriction
to_list nil = []
to_list (cons rn rns) = rn ∷ to_list rns

to_array-to_list : (rns : Restrictions) → to_array (to_list rns) ≡ rns
to_array-to_list nil = refl
to_array-to_list (cons rn rns) = ap (cons rn) (to_array-to_list rns)

typed-Reads :
    (p : Platform) (fuel : ℕ) (t : RestrictionType) (body : Bytes) (rn : Restriction)
    → Reads (extract_case p (extract_restriction p fuel) t) body rn
    → Reads (extract_restriction p (suc fuel)) (append_byte (type_code t) ++ body) rn
unfolding append_byte
typed-Reads p fuel t body rn h rest n =
    let b = type_code t % 256 in
    ap (extract_restriction p (suc fuel))
      (window_eq (b ∷ body ++ rest) (suc (length body) + n) (suc (length body + n)) (omega arith))
    ∙ extract_restriction-cons p fuel b (body ++ rest) (length body + n)
    ∙ rw (type_of_code-type_code t) (h rest n)

-- What stands behind the type byte is shorter.
room_behind :
    (b fuel : ℕ) (xs ys : Bytes)
    → length (append_byte b ++ (xs ++ ys)) < suc fuel
    → length ys < fuel
unfolding append_byte
room_behind b fuel xs ys h = omega (arith, length-append xs ys)

room_comment :
    (fuel : ℕ) (xs ys zs : Bytes)
    → length (append_byte 10 ++ (xs ++ (ys ++ (append_byte 1 ++ zs)))) < suc fuel
    → length zs < fuel
unfolding append_byte
room_comment fuel xs ys zs h =
    omega (arith, length-append xs (ys ++ 1 ∷ zs), length-append ys (1 ∷ zs))

left_room : (fuel : ℕ) (xs ys : Bytes) → length (xs ++ ys) < fuel → length xs < fuel
left_room fuel xs ys h = omega (arith, length-append xs ys)

right_room : (fuel : ℕ) (xs ys : Bytes) → length (xs ++ ys) < fuel → length ys < fuel
right_room fuel xs ys h = omega (arith, length-append xs ys)

module _ (p : Platform) (laws : HasUnicode p) (little : p.big_endian ≡ false) where
  -- A property and a value behind it, as a CONTENT and a PROPERTY have them.
  prop_value-Reads :
      (pv : PropValue) (f : PropValue → Restriction)
      → IsStorable p pv
      → Reads
          (λ c. extract_proptag c >>= λ (prop, c₂).
            extract_propvalue p c₂ >>= λ (read, c₃). ok (f (record read { prop = prop }), c₃))
          (append_proptag pv.prop ++ written p pv)
          (f pv)
  prop_value-Reads pv f s =
      Reads-bind extract_proptag _ (append_proptag pv.prop) (written p pv) pv.prop (f pv)
        (proptag-Reads pv.prop s.canonical)
        (Reads-map (extract_propvalue p) (λ read. f (record read { prop = pv.prop })) (written p pv)
          pv (written-Reads p laws little pv s))

  props-Reads :
      (props : List PropValue)
      → All (IsStorable p) props
      → All (λ pv. Reads (extract_propvalue p) (written p pv) pv) props
  props-Reads [] h = tt
  props-Reads (pv ∷ props) h = (written-Reads p laws little pv h.0, props-Reads props h.1)

  array-Reads :
      (rec : Reader Restriction) (f : Restrictions → Restriction) (rns : Restrictions)
      → nrns rns < 2 ^ 16
      → Reads (extract_many rec (nrns rns)) (written_rns p rns) (to_list rns)
      → Reads
          (λ c. extract_uint16 c >>= λ (n, c₁).
            extract_many rec n c₁ >>= λ (xs, c₂). ok (f (to_array xs), c₂))
          (append_uint16 (nrns rns) ++ written_rns p rns)
          (f rns)
  array-Reads rec f rns fits h =
      Reads-bind extract_uint16 _ (append_uint16 (nrns rns)) (written_rns p rns) (nrns rns) (f rns)
        (uint16-Reads_fits (nrns rns) fits)
        (λ rest n.
          Reads-map (extract_many rec (nrns rns)) (λ xs. f (to_array xs)) (written_rns p rns)
            (to_list rns) h rest n
          ∙ ap (λ r. ok (f r, window rest n)) (to_array-to_list rns))

  commented-Reads :
      (rec : Reader Restriction) (f : Restriction → Restriction) (rn : Restriction) (bytes : Bytes)
      → Reads rec bytes rn
      → Reads
          (λ c. extract_byte c >>= λ (dummy, c₁).
            if dummy == 1 then (rec c₁ >>= λ (r, c₂). ok (f r, c₂)) else failed)
          (append_byte 1 ++ bytes)
          (f rn)
  commented-Reads rec f rn bytes h =
      Reads-bind extract_byte _ (append_byte 1) bytes 1 (f rn) (byte-Reads_fits 1 (omega arith))
        (Reads-map rec f bytes rn h)

  mutual
    unfolding extract_case extract_many written_rn type_code conjoin

    rn-Reads :
        (rn : Restriction) (fuel : ℕ)
        → IsStorableRn p rn
        → length (written_rn p rn) < fuel
        → Reads (extract_restriction p fuel) (written_rn p rn) rn
    rn-Reads rn zero s room = absurd (omega arith)
    rn-Reads (and rns) (suc fuel) s room =
        typed-Reads p fuel t_and (append_uint16 (nrns rns) ++ written_rns p rns) (and rns) (
          array-Reads (extract_restriction p fuel) and rns s.0 (
            rns-Reads rns fuel s.1
              (room_behind 0 fuel (append_uint16 (nrns rns)) (written_rns p rns) room)))
    rn-Reads (or rns) (suc fuel) s room =
        typed-Reads p fuel t_or (append_uint16 (nrns rns) ++ written_rns p rns) (or rns) (
          array-Reads (extract_restriction p fuel) or rns s.0 (
            rns-Reads rns fuel s.1
              (room_behind 1 fuel (append_uint16 (nrns rns)) (written_rns p rns) room)))
    rn-Reads (not rn) (suc fuel) s room = typed-Reads p fuel t_not (written_rn p rn) (not rn) (
        Reads-map (extract_restriction p fuel) not (written_rn p rn) rn
          (rn-Reads rn fuel s (room_behind 2 fuel [] (written_rn p rn) room)))
    rn-Reads (content fuzzy_level pv) (suc fuel) s room =
        typed-Reads p fuel t_content _ (content fuzzy_level pv) (
          Reads-bind extract_uint32 _ (append_uint32 fuzzy_level) _ fuzzy_level
            (content fuzzy_level pv) (uint32-Reads_fits fuzzy_level s.0)
            (prop_value-Reads pv (content fuzzy_level) s.1))
    rn-Reads (property relop pv) (suc fuel) s room =
        typed-Reads p fuel t_property _ (property relop pv) (
          Reads-bind extract_byte _ (append_byte relop) _ relop (property relop pv)
            (byte-Reads_fits relop s.0) (prop_value-Reads pv (property relop) s.1))
    rn-Reads (compare relop prop1 prop2) (suc fuel) s room = absurd s
    rn-Reads (bitmask bitop prop mask) (suc fuel) s room =
        typed-Reads p fuel t_bitmask _ (bitmask bitop prop mask) (
          Reads-bind extract_byte _ (append_byte bitop) _ bitop (bitmask bitop prop mask)
            (byte-Reads_fits bitop s.0)
            (Reads-bind extract_proptag _ (append_proptag prop) (append_uint32 mask) prop
              (bitmask bitop prop mask) (proptag-Reads prop s.1)
              (Reads-map extract_uint32 (bitmask bitop prop) (append_uint32 mask) mask
                (uint32-Reads_fits mask s.2))))
    rn-Reads (size relop prop n) (suc fuel) s room = absurd s
    rn-Reads (exist prop) (suc fuel) s room =
        typed-Reads p fuel t_exist (append_proptag prop) (exist prop)
          (Reads-map extract_proptag exist (append_proptag prop) prop (proptag-Reads prop s))
    rn-Reads (sub subtable rn) (suc fuel) s room =
        typed-Reads p fuel t_subrestriction (append_proptag subtable ++ written_rn p rn)
          (sub subtable rn)
          (Reads-bind extract_proptag _ (append_proptag subtable) (written_rn p rn) subtable
            (sub subtable rn) (proptag-Reads subtable s.0)
            (Reads-map (extract_restriction p fuel) (sub subtable) (written_rn p rn) rn (
              rn-Reads rn fuel s.1
                (room_behind 9 fuel (append_proptag subtable) (written_rn p rn) room))))
    rn-Reads (comment props rn) (suc fuel) s room =
        typed-Reads p fuel t_comment _ (comment props rn) (
          Reads-bind extract_byte _ (append_byte (length props)) _ (length props) (comment props rn)
            (byte-Reads_fits (length props) s.0)
            (Reads-bind (extract_many (extract_propvalue p) (length props)) _
              (concat_map (written p) props) (append_byte 1 ++ written_rn p rn) props
              (comment props rn)
              (many-Reads (extract_propvalue p) (written p) props (props-Reads props s.1))
              (commented-Reads (extract_restriction p fuel) (comment props) rn (written_rn p rn) (
                rn-Reads rn fuel s.2 (
                  room_comment fuel (append_byte (length props)) (concat_map (written p) props)
                    (written_rn p rn) room)))))

    rns-Reads :
        (rns : Restrictions) (fuel : ℕ)
        → AreStorable p rns
        → length (written_rns p rns) < fuel
        → Reads
            (extract_many (extract_restriction p fuel) (nrns rns))
            (written_rns p rns)
            (to_list rns)
    rns-Reads nil fuel s room = Reads-pure []
    rns-Reads (cons rn rns) fuel s room =
        Reads-bind (extract_restriction p fuel) _ (written_rn p rn) (written_rns p rns) rn
          (rn ∷ to_list rns)
          (rn-Reads rn fuel s.0 (left_room fuel (written_rn p rn) (written_rns p rns) room))
          (Reads-map (extract_many (extract_restriction p fuel) (nrns rns)) (λ xs. rn ∷ xs)
            (written_rns p rns) (to_list rns)
            (rns-Reads rns fuel s.1 (right_room fuel (written_rn p rn) (written_rns p rns) room)))

-- The whole of what e2k_restriction_append writes.
unfoldable pub written_condition : Platform → Option Restriction → Bytes
written_condition p none = append_uint32 1 ++ append_byte 0xFF
written_condition p (some rn) =
    let body = append_uint16 0 ++ written_rn p rn in append_uint32 (length body) ++ body

abbrev pub IsStorableCondition : Platform → Option Restriction → Type 0
IsStorableCondition p none = Unit {0}
IsStorableCondition p (some rn) =
    IsStorableRn p rn × (length (append_uint16 0 ++ written_rn p rn) < 2 ^ 32)

pub restriction_append-storable :
    (p : Platform) (rn : Option Restriction)
    → IsStorableCondition p rn
    → restriction_append p rn ≡ ok (written_condition p rn)
unfolding restriction_append written_condition
restriction_append-storable p none h = refl
restriction_append-storable p (some rn) h =
    rw (append_restriction-IsStorableRn p rn h.0)
      (ap ok (patch-append (append_uint16 0 ++ written_rn p rn)))

null-Reads : (p : Platform) → Reads (extract_limited p 1) (append_byte 0xFF) none
unfolding extract_limited is_null append_byte read_byte
null-Reads p rest n = ap (λ c. ok (none, c)) (advance-window (0xFF ∷ []) rest n)

two_not_one : (n : ℕ) → (suc (suc n) == 1) ≡ false
two_not_one n = ground arith

module _ (p : Platform) (laws : HasUnicode p) (little : p.big_endian ≡ false) where
  marked-Reads :
      (rn : Restriction)
      → IsStorableRn p rn
      → Reads (extract_marked p) (append_uint16 0 ++ written_rn p rn) (some rn)
  unfolding extract_marked is_marked append_uint16 read_byte
  marked-Reads rn h rest n = rw (
    below_two,
    advance_two,
    rn-Reads p laws little rn (suc (suc (suc (length (written_rn p rn ++ rest))))) h
        (omega (arith, length-append (written_rn p rn) rest)) rest n,
  )
    where
      advance_two :
          advance 2
            (window (0 ∷ 0 ∷ (written_rn p rn ++ rest)) (suc (suc (length (written_rn p rn))) + n))
          ≡ window (written_rn p rn ++ rest) (length (written_rn p rn) + n)
      advance_two =
          ap (λ k. advance 2 (window (0 ∷ 0 ∷ (written_rn p rn ++ rest)) k)) (omega arith)
          ∙ advance-window (0 ∷ 0 ∷ []) (written_rn p rn ++ rest) (length (written_rn p rn) + n)

      below_two : below (pos (suc (suc (length (written_rn p rn))) + n)) 2 ≡ false
      below_two = ground arith

  some-Reads :
      (rn : Restriction)
      → IsStorableRn p rn
      → let body = append_uint16 0 ++ written_rn p rn in
        Reads (extract_limited p (length body)) body (some rn)
  unfolding extract_limited is_null append_uint16
  some-Reads rn h rest n = rw (two_not_one (length (written_rn p rn))) (marked-Reads rn h rest n)

  -- The NULL restriction, or a storable one with its length in range, is read back.
  pub condition-Reads :
      (rn : Option Restriction)
      → IsStorableCondition p rn
      → Reads (restriction_extract p) (written_condition p rn) rn
  unfolding restriction_extract written_condition append_byte
  condition-Reads none h =
      Reads-bind extract_uint32 _ (append_uint32 1) (append_byte 0xFF) 1 none
        (uint32-Reads_fits 1 (omega arith))
        (limited-Reads (extract_limited p) (append_byte 0xFF) none (null-Reads p))
  condition-Reads (some rn) h =
      Reads-bind extract_uint32 _ (append_uint32 (length body)) body (length body) (some rn)
        (uint32-Reads_fits (length body) h.1)
        (limited-Reads (extract_limited p) body (some rn) (some-Reads rn h.0))
    where
      body : Bytes
      body = append_uint16 0 ++ written_rn p rn

  -- The NULL condition, and every storable one, is written, and read back from its bytes wherever
  -- they stand in an array, on a little-endian machine where GLib converts valid strings without
  -- loss.
  pub restriction_extract-restriction_append :
      (rn : Option Restriction)
      → IsStorableCondition p rn
      → ReadsBack (restriction_append p rn) (restriction_extract p) rn
  restriction_extract-restriction_append rn h =
      (written_condition p rn, restriction_append-storable p rn h, condition-Reads rn h)

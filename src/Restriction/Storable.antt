-- ===== src/Restriction/Storable.antt =====
-- The restrictions that the binary form can hold, and the bytes that stand for them.
use evolution_exchange.Prelude.{◌<◌, ◌≡◌, refl, List, [], ◌∷◌, ◌++◌, Bytes, length, All}
use evolution_exchange.Outcome.{ok}
use evolution_exchange.Platform.{Platform}
use evolution_exchange.PropValue.{PropValue, append_proptag, append_propvalue}
use evolution_exchange.PropValue.RoundTrip.{
  IsCanonical, IsStorable, written, append_propvalue-IsStorable,
}
use evolution_exchange.Wire.{append_uint32, append_uint16, append_byte}
use evolution_exchange.Loops.Reads.{concat_map, append_many-eq}
use evolution_exchange.Restriction.{
  Restriction, Restrictions, and, or, not, content, property, compare, bitmask, size, exist, sub,
  comment, nil, cons, nrns, append_restriction, append_restrictions, type_code,
}

-- Numbers fit their fields, properties are canonical, values belong to their tags, and neither
-- COMPAREPROPS nor SIZE occurs.
abbrev mutual
  pub IsStorableRn : Platform → Restriction → Type 0
  IsStorableRn p (and rns) = (nrns rns < 65536) × AreStorable p rns
  IsStorableRn p (or rns) = (nrns rns < 65536) × AreStorable p rns
  IsStorableRn p (not rn) = IsStorableRn p rn
  IsStorableRn p (content fuzzy_level pv) = (fuzzy_level < 4294967296) × IsStorable p pv
  IsStorableRn p (property relop pv) = (relop < 256) × IsStorable p pv
  IsStorableRn p (compare relop prop1 prop2) = ⊥
  IsStorableRn p (bitmask bitop prop mask) = (bitop < 256) × IsCanonical prop × (mask < 4294967296)
  IsStorableRn p (size relop prop n) = ⊥
  IsStorableRn p (exist prop) = IsCanonical prop
  IsStorableRn p (sub subtable rn) = IsCanonical subtable × IsStorableRn p rn
  IsStorableRn p (comment props rn) =
      (length props < 256) × All (IsStorable p) props × IsStorableRn p rn

  pub AreStorable : Platform → Restrictions → Type 0
  AreStorable p nil = Unit {0}
  AreStorable p (cons rn rns) = IsStorableRn p rn × AreStorable p rns

-- The bytes of a storable restriction.
unfoldable mutual
  pub written_rn : Platform → Restriction → Bytes
  written_rn p (and rns) = append_byte 0 ++ (append_uint16 (nrns rns) ++ written_rns p rns)
  written_rn p (or rns) = append_byte 1 ++ (append_uint16 (nrns rns) ++ written_rns p rns)
  written_rn p (not rn) = append_byte 2 ++ written_rn p rn
  written_rn p (content fuzzy_level pv) =
      append_byte 3 ++ (append_uint32 fuzzy_level ++ (append_proptag pv.prop ++ written p pv))
  written_rn p (property relop pv) =
      append_byte 4 ++ (append_byte relop ++ (append_proptag pv.prop ++ written p pv))
  written_rn p (compare relop prop1 prop2) = append_byte 5
  written_rn p (bitmask bitop prop mask) =
      append_byte 6 ++ (append_byte bitop ++ (append_proptag prop ++ append_uint32 mask))
  written_rn p (size relop prop n) = append_byte 7
  written_rn p (exist prop) = append_byte 8 ++ append_proptag prop
  written_rn p (sub subtable rn) = append_byte 9 ++ (append_proptag subtable ++ written_rn p rn)
  written_rn p (comment props rn) =
      append_byte 10
      ++ (append_byte (length props)
          ++ (concat_map (written p) props ++ (append_byte 1 ++ written_rn p rn)))

  pub written_rns : Platform → Restrictions → Bytes
  written_rns p nil = []
  written_rns p (cons rn rns) = written_rn p rn ++ written_rns p rns

pub All-storable :
    (p : Platform) (props : List PropValue)
    → All (IsStorable p) props
    → All (λ pv. append_propvalue p pv ≡ ok (written p pv)) props
All-storable p [] h = tt
All-storable p (pv ∷ props) h = (append_propvalue-IsStorable p pv h.0, All-storable p props h.1)

mutual
  unfolding append_restriction written_rn type_code

  append_storable :
      (p : Platform) (rn : Restriction)
      → IsStorableRn p rn
      → append_restriction p rn ≡ ok (written_rn p rn)
  append_storable p (and rns) h = rw (append_all_storable p rns h.1)
  append_storable p (or rns) h = rw (append_all_storable p rns h.1)
  append_storable p (not rn) h = rw (append_storable p rn h)
  append_storable p (content fuzzy_level pv) h = rw (append_propvalue-IsStorable p pv h.1)
  append_storable p (property relop pv) h = rw (append_propvalue-IsStorable p pv h.1)
  append_storable p (compare relop prop1 prop2) h = absurd h
  append_storable p (bitmask bitop prop mask) h = refl
  append_storable p (size relop prop n) h = absurd h
  append_storable p (exist prop) h = refl
  append_storable p (sub subtable rn) h = rw (append_storable p rn h.1)
  append_storable p (comment props rn) h = rw (
    append_many-eq (append_propvalue p) (written p) props (All-storable p props h.1),
    append_storable p rn h.2,
  )

  append_all_storable :
      (p : Platform) (rns : Restrictions)
      → AreStorable p rns
      → append_restrictions p rns ≡ ok (written_rns p rns)
  append_all_storable p nil h = refl
  append_all_storable p (cons rn rns) h =
      rw (append_storable p rn h.0, append_all_storable p rns h.1)

-- Such a restriction is written without fault.
pub append_restriction-IsStorableRn :
    (p : Platform) (rn : Restriction)
    → IsStorableRn p rn
    → append_restriction p rn ≡ ok (written_rn p rn)
append_restriction-IsStorableRn = append_storable

-- ===== src/Restriction.antt =====
-- Search restrictions: the types of server/lib/e2k-rule.h and the binary form of
-- server/lib/e2k-restriction.c. Reference counts are not modelled: a restriction is a tree.
pub mod Step
pub mod Storable
pub mod RoundTrip
pub mod Safe
pub mod Sql
pub mod Folders
pub mod Build
use evolution_exchange.Prelude.{
  ◌%◌, ◌^◌, ◌-◌, ℕ, zero, suc, ◌+◌, Bool, true, false, ◌&&◌, ◌||◌, Option, none, some, List, [],
  ◌∷◌, ◌++◌, ltb, leb, ◌==◌, if◌then◌else◌, Bytes, length, drop, below, ℤ, pos, negsuc,
}
use evolution_exchange.Outcome.{Outcome, ok, failed, fault, starved, ◌>>=◌}
use evolution_exchange.Platform.{Platform}
use evolution_exchange.Props.{RuleProp}
use evolution_exchange.PropValue.{
  PropValue, append_proptag, extract_proptag, append_propvalue, extract_propvalue,
}
use evolution_exchange.Wire.{
  Cursor, Reader, advance, read_byte, append_uint32, extract_uint32, patch_uint32, append_uint16,
  extract_uint16, append_byte, extract_byte, rounds,
}
use evolution_exchange.Loops.{extract_many, append_many}

-- E2kRestrictionType
pub data RestrictionType : Type 0 where
  t_and t_or t_not t_content t_property t_compareprops t_bitmask t_size t_exist : RestrictionType
  t_subrestriction t_comment : RestrictionType

unfoldable pub type_code : RestrictionType → ℕ
type_code t_and = 0
type_code t_or = 1
type_code t_not = 2
type_code t_content = 3
type_code t_property = 4
type_code t_compareprops = 5
type_code t_bitmask = 6
type_code t_size = 7
type_code t_exist = 8
type_code t_subrestriction = 9
type_code t_comment = 10

-- The labels of a switch on the type byte; `none` is its default.
unfoldable pub type_of_code : ℕ → Option RestrictionType
type_of_code (zero) = some t_and
type_of_code (suc zero) = some t_or
type_of_code (suc (suc zero)) = some t_not
type_of_code (suc (suc (suc zero))) = some t_content
type_of_code (suc (suc (suc (suc zero)))) = some t_property
type_of_code (suc (suc (suc (suc (suc zero))))) = some t_compareprops
type_of_code (suc (suc (suc (suc (suc (suc zero)))))) = some t_bitmask
type_of_code (suc (suc (suc (suc (suc (suc (suc zero))))))) = some t_size
type_of_code (suc (suc (suc (suc (suc (suc (suc (suc zero)))))))) = some t_exist
type_of_code (suc (suc (suc (suc (suc (suc (suc (suc (suc zero))))))))) = some t_subrestriction
type_of_code (suc (suc (suc (suc (suc (suc (suc (suc (suc (suc zero)))))))))) = some t_comment
type_of_code _ = none

-- E2kRestriction; `Restrictions` is the array of an AND or an OR.
mutual
  pub data Restriction : Type 0 where
    and or : Restrictions → Restriction
    not : Restriction → Restriction
    content : ℕ → PropValue → Restriction
    property : ℕ → PropValue → Restriction
    compare : ℕ → RuleProp → RuleProp → Restriction
    bitmask : ℕ → RuleProp → ℕ → Restriction
    size : ℕ → RuleProp → ℕ → Restriction
    exist : RuleProp → Restriction
    sub : RuleProp → Restriction → Restriction
    comment : List PropValue → Restriction → Restriction

  pub data Restrictions : Type 0 where
    nil : Restrictions
    cons : Restriction → Restrictions → Restrictions

abbrev pub to_array : List Restriction → Restrictions
to_array [] = nil
to_array (r ∷ rs) = cons r (to_array rs)

abbrev pub nrns : Restrictions → ℕ
nrns nil = 0
nrns (cons r rs) = suc (nrns rs)

-- conjoin, with its argument `type`.
unfoldable pub conjoin : RestrictionType → Restrictions → Restriction
conjoin t_or rns = or rns
conjoin _ rns = and rns

abbrev pub is_zero : ℤ → Bool
is_zero (pos n) = n == 0
is_zero (negsuc n) = false

module _ (p : Platform) where
  -- The cases of extract_restriction, given the call of itself.
  unfoldable pub extract_case : Reader Restriction → RestrictionType → Reader Restriction
  extract_case rec t_and c = extract_uint16 c >>= λ (n, c₁).
      extract_many rec n c₁ >>= λ (rns, c₂). ok (conjoin t_and (to_array rns), c₂)
  extract_case rec t_or c = extract_uint16 c >>= λ (n, c₁).
      extract_many rec n c₁ >>= λ (rns, c₂). ok (conjoin t_or (to_array rns), c₂)
  extract_case rec t_not c = rec c >>= λ (subrn, c₁). ok (not subrn, c₁)
  extract_case rec t_content c = extract_uint32 c >>= λ (fuzzy_level, c₁).
      extract_proptag c₁ >>= λ (prop, c₂). extract_propvalue p c₂ >>= λ (pv, c₃).
      ok (content fuzzy_level (record pv { prop = prop }), c₃)
  extract_case rec t_property c = extract_byte c >>= λ (relop, c₁).
      extract_proptag c₁ >>= λ (prop, c₂).
      extract_propvalue p c₂ >>= λ (pv, c₃). ok (property relop (record pv { prop = prop }), c₃)
  extract_case rec t_compareprops c = failed
  extract_case rec t_bitmask c = extract_byte c >>= λ (bitop, c₁).
      extract_proptag c₁ >>= λ (prop, c₂).
      extract_uint32 c₂ >>= λ (mask, c₃). ok (bitmask bitop prop mask, c₃)
  extract_case rec t_size c = failed
  extract_case rec t_exist c = extract_proptag c >>= λ (prop, c₁). ok (exist prop, c₁)
  extract_case rec t_subrestriction c =
      extract_proptag c >>= λ (subtable, c₁). rec c₁ >>= λ (subrn, c₂). ok (sub subtable subrn, c₂)
  extract_case rec t_comment c = extract_byte c >>= λ (nprops, c₁).
      extract_many (extract_propvalue p) nprops c₁ >>= λ (props, c₂).
      extract_byte c₂ >>= λ (dummy, c₃).
      if dummy == 1 then (rec c₃ >>= λ (rn, c₄). ok (comment props rn, c₄)) else failed

  -- The call of a default label fails.
  abbrev pub extract_typed : Reader Restriction → Option RestrictionType → Reader Restriction
  extract_typed rec none c = failed
  extract_typed rec (some t) c = extract_case rec t c

  -- Nested restrictions cost a unit of fuel each.
  unfoldable pub extract_restriction : ℕ → Reader Restriction
  extract_restriction zero c = starved
  extract_restriction (suc fuel) c =
      if is_zero c.len
      then failed
      else (read_byte c.ptr >>= λ type.
          extract_typed (extract_restriction fuel) (type_of_code type) (advance 1 c))

-- `rnlen == 1 && (*data)[0] == 0xFF`
unfoldable pub is_null : ℕ → Bytes → Outcome Bool
is_null rnlen mem = if rnlen == 1 then (read_byte mem >>= λ b. ok (b == 0xFF)) else ok false

-- `(*data)[0] != 0 || (*data)[1] != 0`
unfoldable pub is_marked : Bytes → Outcome Bool
is_marked mem = read_byte mem >>= λ a.
    if a == 0
    then (read_byte (drop 1 mem) >>= λ b. ok (if b == 0 then false else true))
    else ok true

module _ (p : Platform) where
  -- From the two zero bytes on. Each level of nesting uses a byte, so that the fuel suffices.
  unfoldable pub extract_marked : Reader (Option Restriction)
  extract_marked c =
      if below c.len 2
      then failed
      else (is_marked c.ptr >>= λ marked.
          if marked
          then failed
          else (extract_restriction p (suc (length c.ptr)) (advance 2 c) >>= λ (rn, c₂).
              ok (some rn, c₂)))

  -- From behind the length on; `none` is the NULL restriction.
  unfoldable pub extract_limited : ℕ → Reader (Option Restriction)
  extract_limited rnlen c =
      is_null rnlen c.ptr >>= λ null. if null then ok (none, advance 1 c) else extract_marked c

  -- Once the length is checked, nothing holds the call to it.
  unfoldable pub restriction_extract : Reader (Option Restriction)
  restriction_extract c = extract_uint32 c >>= λ (rnlen, c₁).
      if below c₁.len rnlen then failed else extract_limited rnlen c₁

-- The call on a byte array: the type byte, then the case's fields. COMPAREPROPS and SIZE have no
-- fields written.
unfoldable mutual
  pub append_restriction : Platform → Restriction → Outcome Bytes
  append_restriction p (and rns) = append_restrictions p rns >>= λ bs.
      ok (append_byte (type_code t_and) ++ (append_uint16 (nrns rns) ++ bs))
  append_restriction p (or rns) = append_restrictions p rns >>= λ bs.
      ok (append_byte (type_code t_or) ++ (append_uint16 (nrns rns) ++ bs))
  append_restriction p (not rn) =
      append_restriction p rn >>= λ bs. ok (append_byte (type_code t_not) ++ bs)
  append_restriction p (content fuzzy_level pv) = append_propvalue p pv >>= λ bs. ok (
      append_byte (type_code t_content)
      ++ (append_uint32 fuzzy_level ++ (append_proptag pv.prop ++ bs)))
  append_restriction p (property relop pv) = append_propvalue p pv >>= λ bs.
      ok (
        append_byte (type_code t_property) ++ (append_byte relop ++ (append_proptag pv.prop ++ bs)))
  append_restriction p (compare relop prop1 prop2) = ok (append_byte (type_code t_compareprops))
  append_restriction p (bitmask bitop prop mask) = ok (
      append_byte (type_code t_bitmask)
      ++ (append_byte bitop ++ (append_proptag prop ++ append_uint32 mask)))
  append_restriction p (size relop prop n) = ok (append_byte (type_code t_size))
  append_restriction p (exist prop) = ok (append_byte (type_code t_exist) ++ append_proptag prop)
  append_restriction p (sub subtable rn) = append_restriction p rn >>= λ bs.
      ok (append_byte (type_code t_subrestriction) ++ (append_proptag subtable ++ bs))
  append_restriction p (comment props rn) = append_many (append_propvalue p) props >>= λ ps.
      append_restriction p rn >>= λ bs. ok (
        append_byte (type_code t_comment)
        ++ (append_byte (length props) ++ (ps ++ (append_byte 1 ++ bs))))

  pub append_restrictions : Platform → Restrictions → Outcome Bytes
  append_restrictions p nil = ok []
  append_restrictions p (cons rn rns) =
      append_restriction p rn >>= λ b. append_restrictions p rns >>= λ bs. ok (b ++ bs)

-- The length is put in when the rest is written.
unfoldable pub restriction_append : Platform → Option Restriction → Outcome Bytes
restriction_append p none = ok (append_uint32 1 ++ append_byte 0xFF)
restriction_append p (some rn) = append_restriction p rn >>= λ bs.
    let ba = append_uint32 0 ++ (append_uint16 0 ++ bs) in ok (patch_uint32 (length ba - 4) ba)

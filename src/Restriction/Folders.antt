-- ===== src/Restriction/Folders.antt =====
-- e2k_restriction_folders_only of server/lib/e2k-utils.c: does a restriction match folders only?
pub mod Sound
use evolution_exchange.Prelude.{
  ℕ, suc, Bool, true, false, ◌&&◌, ◌||◌, not as negate, Bool-cases, inl, inr, Option, none, some,
  ◌==◌, ◌≡◌, refl, ap, sym, ◌∙◌, if◌then◌else◌, Bytes, codes, arith, ◌⊎◌,
}
use evolution_exchange.PropValue.{PropValue, Value, string, binary, date, int, bool}
use evolution_exchange.Strings.{same_bytes}
use evolution_exchange.Restriction.{
  Restriction, Restrictions, and, or, not, content, property, compare, bitmask, size, exist, sub,
  comment, nil, cons,
}

-- `pv.value != NULL`
unfoldable pub non_null : Value → Bool
non_null (string none) = false
non_null (int n) = negate (n == 0)
non_null (bool n) = negate (n == 0)
non_null _ = true

abbrev pub same_truth : Bool → Bool → Bool
same_truth true b = b
same_truth false b = negate b

-- A test of DAV:iscollection.
unfoldable pub is_collection : PropValue → Bool
is_collection pv = same_bytes pv.prop.name (codes "DAV:iscollection")

-- E2K_RELOP_EQ is 4.
unfoldable mutual
  pub folders_only : Restriction → Bool
  folders_only (property relop pv) =
      if is_collection pv then same_truth (relop == 4) (non_null pv.value) else false
  folders_only (and rns) = any_folders_only rns
  folders_only (or rns) = all_folders_only rns
  folders_only (not rn) = folders_only rn
  folders_only (comment props rn) = folders_only rn
  folders_only _ = false

  -- The loop for AND.
  pub any_folders_only : Restrictions → Bool
  any_folders_only nil = false
  any_folders_only (cons rn rns) = folders_only rn || any_folders_only rns

  -- The loop for OR.
  pub all_folders_only : Restrictions → Bool
  all_folders_only nil = true
  all_folders_only (cons rn rns) = folders_only rn && all_folders_only rns

unfoldable pub restriction_folders_only : Option Restriction → Bool
restriction_folders_only none = false
restriction_folders_only (some rn) = folders_only rn

-- An item of a store: whether it is a folder, and which other tests it passes.
pub record Item : Type 0 where
  pub is_folder : Bool
  pub passes : Restriction → Bool

-- What the restrictions mean.
abbrev mutual
  pub matches : Item → Restriction → Bool
  matches o (and rns) = matches_all o rns
  matches o (or rns) = matches_any o rns
  matches o (not rn) = negate (matches o rn)
  matches o (comment props rn) = matches o rn
  matches o (property relop pv) =
      if is_collection pv && (relop == 4 || relop == 5)
      then same_truth (relop == 4) (same_truth o.is_folder (non_null pv.value))
      else o.passes (property relop pv)
  matches o rn = o.passes rn

  pub matches_all : Item → Restrictions → Bool
  matches_all o nil = true
  matches_all o (cons rn rns) = matches o rn && matches_all o rns

  pub matches_any : Item → Restrictions → Bool
  matches_any o nil = false
  matches_any o (cons rn rns) = matches o rn || matches_any o rns

-- No NOT, and DAV:iscollection is tested for being equal or not equal only.
abbrev mutual
  pub IsPlain : Restriction → Type 0
  IsPlain (and rns) = ArePlain rns
  IsPlain (or rns) = ArePlain rns
  IsPlain (not rn) = ⊥
  IsPlain (comment props rn) = IsPlain rn
  IsPlain (property relop pv) = is_collection pv ≡ true → (relop ≡ 4) ⊎ (relop ≡ 5)
  IsPlain _ = Unit {0}

  pub ArePlain : Restrictions → Type 0
  ArePlain nil = Unit {0}
  ArePlain (cons rn rns) = IsPlain rn × ArePlain rns

-- ===== src/Restriction/Folders/Sound.antt =====
-- What the answer of e2k_restriction_folders_only means, and what it does not mean under a NOT.
use evolution_exchange.Prelude.{
  ℕ, Bool, true, false, ◌&&◌, ◌||◌, Bool-cases, inl, inr, ◌==◌, ◌≡◌, refl, ap, sym, ◌∙◌,
  if◌then◌else◌, arith, some, ◌⊎◌,
}
use evolution_exchange.PropValue.{PropValue}
use evolution_exchange.Restriction.{
  Restriction, Restrictions, and, or, not, content, property, compare, bitmask, size, exist, sub,
  comment, nil, cons,
}
use evolution_exchange.Restriction.Folders.{
  non_null, same_truth, is_collection, folders_only, any_folders_only, all_folders_only,
  restriction_folders_only, Item, matches, matches_all, matches_any, IsPlain, ArePlain,
}

test_sound :
    (folder value equal : Bool)
    → same_truth equal value ≡ true
    → same_truth equal (same_truth folder value) ≡ true
    → folder ≡ true
test_sound true value equal h k = refl
test_sound false true true h k = ground arith
test_sound false true false h k = ground arith
test_sound false false true h k = ground arith
test_sound false false false h k = ground arith

both : (a b : Bool) → (a && b) ≡ true → (a ≡ true) × (b ≡ true)
both true b h = (refl, h)
both false b h = ground arith

other : (a b : Bool) → a ≡ false → (a || b) ≡ true → b ≡ true
other true b e h = ground arith
other false b e h = h

plain_test :
    (relop : ℕ) (collection folder value passed : Bool)
    → (relop ≡ 4) ⊎ (relop ≡ 5)
    → collection ≡ true
    → (if collection then same_truth (relop == 4) value else false) ≡ true
    → (if collection && (relop == 4 || relop == 5)
        then same_truth (relop == 4) (same_truth folder value)
        else passed)
      ≡ true
    → folder ≡ true
plain_test relop false folder value passed plain e h m = ground arith
plain_test relop true folder value passed plain e h m = test_sound folder value (relop == 4) h (
    sym (ap (λ b. if b then same_truth (relop == 4) (same_truth folder value) else passed) known)
    ∙ m)
  where
    known : (relop == 4 || relop == 5) ≡ true
    known = ground arith

-- A plain test of DAV:iscollection.
rel :
    (relop : ℕ) (pv : PropValue) (o : Item)
    → (relop ≡ 4) ⊎ (relop ≡ 5)
    → is_collection pv ≡ true
    → folders_only (property relop pv) ≡ true
    → matches o (property relop pv) ≡ true
    → o.is_folder ≡ true
unfolding folders_only
rel relop pv o plain e h m =
    plain_test relop (is_collection pv) o.is_folder (non_null pv.value)
      (o.passes (property relop pv)) plain e h m

mutual
  unfolding folders_only any_folders_only all_folders_only

  sound :
      (o : Item) (rn : Restriction)
      → IsPlain rn
      → folders_only rn ≡ true
      → matches o rn ≡ true
      → o.is_folder ≡ true
  sound o (and rns) plain h m = sound_any o rns plain h m
  sound o (or rns) plain h m = sound_all o rns plain h m
  sound o (not rn) plain h m = absurd plain
  sound o (comment props rn) plain h m = sound o rn plain h m
  sound o (property relop pv) plain h m = elim (Bool-cases (is_collection pv)) [
    | inl e ↦ rel relop pv o (plain e) e h m
    | inr e ↦ absurd (ground arith)
  ]
  sound o (content l pv) plain h m = ground arith
  sound o (compare r a b) plain h m = ground arith
  sound o (bitmask b p k) plain h m = ground arith
  sound o (exist p) plain h m = ground arith
  sound o (size r p n) plain h m = ground arith
  sound o (sub p rn) plain h m = ground arith

  sound_any :
      (o : Item) (rns : Restrictions)
      → ArePlain rns
      → any_folders_only rns ≡ true
      → matches_all o rns ≡ true
      → o.is_folder ≡ true
  sound_any o nil plain h m = ground arith
  sound_any o (cons rn rns) plain h m = elim (Bool-cases (folders_only rn)) [
    | inl e ↦ sound o rn plain.0 e (both (matches o rn) (matches_all o rns) m).0
    | inr e ↦
        sound_any o rns plain.1 (other (folders_only rn) (any_folders_only rns) e h)
          (both (matches o rn) (matches_all o rns) m).1
  ]

  sound_all :
      (o : Item) (rns : Restrictions)
      → ArePlain rns
      → all_folders_only rns ≡ true
      → matches_any o rns ≡ true
      → o.is_folder ≡ true
  sound_all o nil plain h m = ground arith
  sound_all o (cons rn rns) plain h m = elim (Bool-cases (matches o rn)) [
    | inl e ↦ sound o rn plain.0 (both (folders_only rn) (all_folders_only rns) h).0 e
    | inr e ↦
        sound_all o rns plain.1 (both (folders_only rn) (all_folders_only rns) h).1
          (other (matches o rn) (matches_any o rns) e m)
  ]

-- A restriction without NOT, in which DAV:iscollection is tested for being equal or not equal
-- only, matches folders only, if e2k_restriction_folders_only says so.
pub restriction_folders_only-IsPlain :
    (o : Item) (rn : Restriction)
    → IsPlain rn
    → restriction_folders_only (some rn) ≡ true
    → matches o rn ≡ true
    → o.is_folder ≡ true
unfolding restriction_folders_only
restriction_folders_only-IsPlain o rn plain h m = sound o rn plain h m

-- Of a restriction without NOT, in which DAV:iscollection is tested for being equal or not equal
-- only, and which e2k_restriction_folders_only says matches folders only, the negation is said to
-- do so too, but it matches every item that is no folder.
restriction_folders_only-not :
    (o : Item) (rn : Restriction)
    → IsPlain rn
    → restriction_folders_only (some rn) ≡ true
    → o.is_folder ≡ false
    → (restriction_folders_only (some (not rn)) ≡ true) × (matches o (not rn) ≡ true)
unfolding restriction_folders_only folders_only
restriction_folders_only-not o rn plain h file = (
  h,
  elim (Bool-cases (matches o rn)) [
    | inl m ↦ absurd (ground (arith, sound o rn plain h m))
    | inr m ↦ rw m refl
  ],
)

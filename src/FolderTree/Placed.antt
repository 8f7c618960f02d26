-- ===== src/FolderTree/Placed.antt =====
-- Folders of server/storage/e-folder-tree.c that stand below the folder of their parent path.
use evolution_exchange.Prelude.{
  ℕ, ◌<◌, ◌≡◌, ◌≢◌, ◌⊎◌, zero, suc, inl, inr, Bytes, refl, arith, ◌∙◌, Bool-cases, sym, ap,
}
use evolution_exchange.Strings.{same_bytes, same_bytes→eq, same_bytes_self}
use evolution_exchange.FolderTree.Shape.{
  Folder, folder, Folders, nil, cons, path_of, slash, get_parent_path, add_subfolder, add_below,
  remove_subfolder, remove_below,
}
use evolution_exchange.FolderTree.Count.{count, count_in}

abbrev mutual
  pub IsPlaced : Folder → Type 0
  IsPlaced (folder p d fs) = ArePlaced p fs

  pub ArePlaced : Bytes → Folders → Type 0
  ArePlaced p nil = Unit {0}
  ArePlaced p (cons f fs) =
      (get_parent_path (path_of f) ≡ p) × (path_of f ≢ slash) × IsPlaced f × ArePlaced p fs

-- The path is p, or its parent's path, or that one's parent's, and so on, before the root is passed.
pub data IsUnder (p : Bytes) : Bytes → Type 0 where
  self : {q : Bytes} → p ≡ q → IsUnder p q
  below : {q : Bytes} → q ≢ slash → IsUnder p (get_parent_path q) → IsUnder p q

pub IsUnder-trans : (p q r : Bytes) → IsUnder p q → IsUnder q r → IsUnder p r
IsUnder-trans p q r a (self e) = rw (← e) a
IsUnder-trans p q r a (below n b) = below n (IsUnder-trans p q (get_parent_path r) a b)

module _ (parent p : Bytes) (d : ℕ) (e : get_parent_path p ≡ parent) (n : p ≢ slash) where
  pub add-path_of : (f : Folder) → path_of (add_subfolder parent (folder p d nil) f) ≡ path_of f
  unfolding add_subfolder
  add-path_of (folder r c fs) = ground arith

  mutual
    unfolding add_subfolder add_below

    pub add-IsPlaced :
        (f : Folder) → IsPlaced f → IsPlaced (add_subfolder parent (folder p d nil) f)
    add-IsPlaced (folder r c fs) h = elim (Bool-cases (same_bytes r parent)) [
      | inl s ↦ rw s (e ∙ sym (same_bytes→eq r parent s), n, tt, add-ArePlaced r fs h)
      | inr s ↦ rw s (add-ArePlaced r fs h)
    ]

    add-ArePlaced :
        (r : Bytes) (fs : Folders)
        → ArePlaced r fs
        → ArePlaced r (add_below parent (folder p d nil) fs)
    add-ArePlaced r nil h = tt
    add-ArePlaced r (cons f fs) (x, y, z, w) = (
      ap get_parent_path (add-path_of f) ∙ x,
      rw (add-path_of f) y,
      add-IsPlaced f z,
      add-ArePlaced r fs w,
    )

module _ (p : Bytes) where
  pub remove-path_of : (f : Folder) → path_of (remove_subfolder p f) ≡ path_of f
  unfolding remove_subfolder
  remove-path_of (folder r c fs) = refl

  mutual
    unfolding remove_subfolder remove_below

    pub remove-IsPlaced : (f : Folder) → IsPlaced f → IsPlaced (remove_subfolder p f)
    remove-IsPlaced (folder r c fs) h = remove-ArePlaced r fs h

    remove-ArePlaced : (r : Bytes) (fs : Folders) → ArePlaced r fs → ArePlaced r (remove_below p fs)
    remove-ArePlaced r nil h = tt
    remove-ArePlaced r (cons f fs) (x, y, z, w) = elim (Bool-cases (same_bytes (path_of f) p)) [
      | inl s ↦ rw s (remove-ArePlaced r fs w)
      | inr s ↦ rw s (
        ap get_parent_path (remove-path_of f) ∙ x,
        rw (remove-path_of f) y,
        remove-IsPlaced f z,
        remove-ArePlaced r fs w,
      )
    ]

pub ℕ-cases : (n : ℕ) → (0 < n) ⊎ (n ≡ 0)
ℕ-cases zero = inr refl
ℕ-cases (suc n) = inl (omega arith)

mutual
  unfolding count count_in

  -- A folder's parent is in the tree, unless the folder is the root.
  pub parent_in :
      (q : Bytes) (f : Folder)
      → IsPlaced f
      → 0 < count q f
      → (path_of f ≡ q) ⊎ (0 < count (get_parent_path q) f)
  parent_in q (folder r d fs) h k =
      ground
        (arith, parent_in_folders q r fs h, same_bytes→eq r q, same_bytes_self (get_parent_path q))

  parent_in_folders :
      (q r : Bytes) (fs : Folders)
      → ArePlaced r fs
      → 0 < count_in q fs
      → (r ≡ get_parent_path q) ⊎ (0 < count_in (get_parent_path q) fs)
  parent_in_folders q r nil h k = absurd (omega arith)
  parent_in_folders q r (cons f fs) (x, y, z, w) k = elim (ℕ-cases (count q f)) [
    | inl o ↦ elim (parent_in q f z o) [
      | inl e ↦ inl (sym x ∙ ap get_parent_path e)
      | inr i ↦ inr (omega arith)
    ]
    | inr o ↦ elim (parent_in_folders q r fs w (omega arith)) [
      | inl e ↦ inl e
      | inr i ↦ inr (omega arith)
    ]
  ]

mutual
  unfolding count count_in

  pub in-IsUnder : (q : Bytes) (f : Folder) → IsPlaced f → 0 < count q f → IsUnder (path_of f) q
  in-IsUnder q (folder r d fs) h k = elim (Bool-cases (same_bytes r q)) [
    | inl s ↦ self (same_bytes→eq r q s)
    | inr s ↦ in_folders-IsUnder q r fs h (ground arith)
  ]

  in_folders-IsUnder :
      (q r : Bytes) (fs : Folders) → ArePlaced r fs → 0 < count_in q fs → IsUnder r q
  in_folders-IsUnder q r nil h k = absurd (omega arith)
  in_folders-IsUnder q r (cons f fs) (x, y, z, w) k = elim (ℕ-cases (count q f)) [
    | inl o ↦ IsUnder-trans r (path_of f) q (below y (self (sym x))) (in-IsUnder q f z o)
    | inr o ↦ in_folders-IsUnder q r fs w (omega arith)
  ]

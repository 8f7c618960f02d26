-- ===== src/FolderTree/Count.antt =====
-- How often a path stands in a tree of folders, and what is found there.
use evolution_exchange.Prelude.{
  ℕ, ◌+◌, ◌<◌, true, false, Option, none, some, ◌≡◌, ◌↔◌, if◌then◌else◌, Bytes, refl, arith,
}
use evolution_exchange.Strings.{same_bytes, same_bytes→eq, same_bytes_self}
use evolution_exchange.FolderTree.Shape.{
  Folder, folder, Folders, nil, cons, path_of, data_of, find, find_in, add_subfolder, add_below,
}

unfoldable mutual
  pub count : Bytes → Folder → ℕ
  count q (folder p d fs) = (if same_bytes p q then 1 else 0) + count_in q fs

  pub count_in : Bytes → Folders → ℕ
  count_in q nil = 0
  count_in q (cons f fs) = count q f + count_in q fs

abbrev pub data_at : Option Folder → Option ℕ
data_at none = none
data_at (some f) = some (data_of f)

pub find_self : (p : Bytes) (f : Folder) → same_bytes (path_of f) p ≡ true → find p f ≡ some f
unfolding find
find_self p (folder r d fs) h = rw h

pub count_path : (f : Folder) → 0 < count (path_of f) f
unfolding count
count_path (folder p d fs) = ground (arith, same_bytes_self p)

mutual
  unfolding find find_in count count_in

  pub find-none : (q : Bytes) (f : Folder) → (find q f ≡ none) ↔ (count q f ≡ 0)
  find-none q (folder p d fs) =
      (λ h. ground (arith, find_none_in q fs), λ h. ground (arith, find_none_in q fs))

  pub find_none_in : (q : Bytes) (fs : Folders) → (find_in q fs ≡ none) ↔ (count_in q fs ≡ 0)
  find_none_in q nil = (λ h. refl, λ h. refl)
  find_none_in q (cons f fs) = (
    λ h. ground (arith, find-none q f, find_none_in q fs),
    λ h. ground (arith, find-none q f, find_none_in q fs),
  )

mutual
  unfolding find find_in

  pub find_path : (q : Bytes) (f g : Folder) → find q f ≡ some g → path_of g ≡ q
  find_path q (folder p d fs) g h = ground (arith, find_path_in q fs g, same_bytes→eq p q)

  find_path_in : (q : Bytes) (fs : Folders) (g : Folder) → find_in q fs ≡ some g → path_of g ≡ q
  find_path_in q nil g h = cc
  find_path_in q (cons f fs) g h = ground (arith, find_path q f g, find_path_in q fs g)

-- Adding a folder without subfolders.
module _ (parent p : Bytes) (d : ℕ) where
  mutual
    unfolding add_subfolder add_below count count_in

    pub count_add :
        (q : Bytes) (f : Folder)
        → count q (add_subfolder parent (folder p d nil) f)
          ≡ count q f + (if same_bytes p q then count parent f else 0)
    count_add q (folder r e fs) = ground (arith, count_add_in q fs)

    count_add_in :
        (q : Bytes) (fs : Folders)
        → count_in q (add_below parent (folder p d nil) fs)
          ≡ count_in q fs + (if same_bytes p q then count_in parent fs else 0)
    count_add_in q nil = ground arith
    count_add_in q (cons f fs) = ground (arith, count_add q f, count_add_in q fs)

  mutual
    unfolding add_subfolder add_below find find_in

    pub find_add_ne :
        (q : Bytes) (f : Folder)
        → same_bytes p q ≡ false
        → data_at (find q (add_subfolder parent (folder p d nil) f)) ≡ data_at (find q f)
    find_add_ne q (folder r e fs) h = ground (arith, find_add_ne_in q fs)

    find_add_ne_in :
        (q : Bytes) (fs : Folders)
        → same_bytes p q ≡ false
        → data_at (find_in q (add_below parent (folder p d nil) fs)) ≡ data_at (find_in q fs)
    find_add_ne_in q nil h = refl
    find_add_ne_in q (cons f fs) h = ground (arith, find_add_ne q f, find_add_ne_in q fs)

  mutual
    unfolding add_subfolder add_below find find_in count count_in

    pub find_add_self :
        (f : Folder)
        → count p f ≡ 0
        → 0 < count parent f
        → data_at (find p (add_subfolder parent (folder p d nil) f)) ≡ some d
    find_add_self (folder r e fs) h k = ground (arith, find_add_self_in fs, same_bytes_self p)

    find_add_self_in :
        (fs : Folders)
        → count_in p fs ≡ 0
        → 0 < count_in parent fs
        → data_at (find_in p (add_below parent (folder p d nil) fs)) ≡ some d
    find_add_self_in nil h k = ground arith
    find_add_self_in (cons f fs) h k = ground (
      arith,
      find_add_self f,
      find_add_self_in fs,
      find-none p (add_subfolder parent (folder p d nil) f),
      count_add p f,
      same_bytes_self p,
    )

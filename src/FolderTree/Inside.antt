-- ===== src/FolderTree/Inside.antt =====
-- Taking a folder out of a tree with all that is below it.
use evolution_exchange.Prelude.{ℕ, ◌+◌, ◌≤◌, false, some, ◌≡◌, if◌then◌else◌, Bytes, refl, arith}
use evolution_exchange.Strings.{same_bytes, same_bytes→eq}
use evolution_exchange.FolderTree.Shape.{
  Folder, folder, Folders, nil, cons, path_of, find, find_in, remove_subfolder, remove_below,
}
use evolution_exchange.FolderTree.Count.{
  count, count_in, data_at, find-none, find_none_in, count_path, find_self,
}

-- How often q stands in the folders with path p that are below the root.
unfoldable mutual
  pub inside : Bytes → Bytes → Folder → ℕ
  inside p q (folder r d fs) = inside_in p q fs

  pub inside_in : Bytes → Bytes → Folders → ℕ
  inside_in p q nil = 0
  inside_in p q (cons f fs) =
      (if same_bytes (path_of f) p then count q f else inside p q f) + inside_in p q fs

module _ (p : Bytes) where
  mutual
    unfolding inside inside_in remove_subfolder remove_below count count_in

    pub count_remove :
        (q : Bytes) (f : Folder) → count q f ≡ count q (remove_subfolder p f) + inside p q f
    count_remove q (folder r d fs) = ground (arith, count_remove_in q fs)

    count_remove_in :
        (q : Bytes) (fs : Folders)
        → count_in q fs ≡ count_in q (remove_below p fs) + inside_in p q fs
    count_remove_in q nil = refl
    count_remove_in q (cons f fs) = ground (arith, count_remove q f, count_remove_in q fs)

  mutual
    unfolding inside inside_in remove_subfolder remove_below find find_in

    pub find_remove :
        (q : Bytes) (f : Folder)
        → inside p q f ≡ 0
        → data_at (find q (remove_subfolder p f)) ≡ data_at (find q f)
    find_remove q (folder r d fs) h = ground (arith, find_remove_in q fs)

    find_remove_in :
        (q : Bytes) (fs : Folders)
        → inside_in p q fs ≡ 0
        → data_at (find_in q (remove_below p fs)) ≡ data_at (find_in q fs)
    find_remove_in q nil h = refl
    find_remove_in q (cons f fs) h =
        ground (arith, find_remove q f, find_remove_in q fs, find-none q f)

  mutual
    unfolding inside inside_in count count_in

    inside_zero : (q : Bytes) (f : Folder) → count p f ≡ 0 → inside p q f ≡ 0
    inside_zero q (folder r d fs) h = ground (arith, inside_zero_in q fs)

    inside_zero_in : (q : Bytes) (fs : Folders) → count_in p fs ≡ 0 → inside_in p q fs ≡ 0
    inside_zero_in q nil h = refl
    inside_zero_in q (cons f fs) h =
        ground
          (arith, inside_zero q f, inside_zero_in q fs, count_path f, same_bytes→eq (path_of f) p)

  mutual
    unfolding inside inside_in count count_in find find_in

    -- Where p stands once, below the root, all that is inside is in the folder that is found.
    pub inside_found :
        (q : Bytes) (f g : Folder)
        → count p f ≤ 1
        → find p f ≡ some g
        → same_bytes (path_of f) p ≡ false
        → inside p q f ≡ count q g
    inside_found q (folder r d fs) g u h n = ground (arith, inside_found_in q fs g)

    inside_found_in :
        (q : Bytes) (fs : Folders) (g : Folder)
        → count_in p fs ≤ 1
        → find_in p fs ≡ some g
        → inside_in p q fs ≡ count q g
    inside_found_in q nil g u h = cc
    inside_found_in q (cons f fs) g u h = ground (
      arith,
      inside_found q f g,
      inside_found_in q fs g,
      inside_zero q f,
      inside_zero_in q fs,
      find-none p f,
      find_none_in p fs,
      find_self p f,
      same_bytes→eq (path_of f) p,
      count_path f,
    )

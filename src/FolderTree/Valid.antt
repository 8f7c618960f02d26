-- ===== src/FolderTree/Valid.antt =====
-- The invariant of an EFolderTree (server/storage/e-folder-tree.c), and what removal does to the tables.
use evolution_exchange.Prelude.{
  ℕ, ◌≤◌, Option, none, some, ◌≡◌, ◌↔◌, ltb, if◌then◌else◌, Bytes, refl, arith,
}
use evolution_exchange.FolderTree.{Glib, FolderTree, forget_folder, forget_folders, found}
use evolution_exchange.FolderTree.Shape.{Folder, folder, Folders, nil, cons, path_of, slash, found}
use evolution_exchange.FolderTree.Count.{count, count_in, data_at}
use evolution_exchange.FolderTree.Placed.{IsPlaced}
use evolution_exchange.FolderTree.Below.{data_count, data_count_in}

abbrev pub count_at : Bytes → Option Folder → ℕ
count_at q none = 0
count_at q (some f) = count q f

module _ (glib : Glib) where
  -- The data that stand at a path.
  abbrev pub view : FolderTree glib → Bytes → Option ℕ
  view t q = data_at (found q t.root)

  -- The root's path is "/", each folder stands below its parent's path, no two folders share a path,
  -- and the tables hold exactly the folders of the tree, by path and by data.
  pub record IsValid (t : FolderTree glib) : Type 0 where
    pub rooted : (f : Folder) → t.root ≡ some f → path_of f ≡ slash
    pub placed : (f : Folder) → t.root ≡ some f → IsPlaced f
    pub unique : (q : Bytes) → count_at q t.root ≤ 1
    pub by_path :
        (q : Bytes)
        → glib.by_path.lookup q t.path_to_folder
          ≡ (if ltb 0 (count_at q t.root) then some q else none)
    pub by_data :
        (q : Bytes) (d : ℕ) → (glib.by_data.lookup d t.data_to_path ≡ some q) ↔ (view t q ≡ some d)

  mutual
    unfolding forget_folder forget_folders count count_in

    pub forget_path :
        (q : Bytes) (f : Folder) (t : FolderTree glib)
        → glib.by_path.lookup q (forget_folder glib f t).path_to_folder
          ≡ (if ltb 0 (count q f) then none else glib.by_path.lookup q t.path_to_folder)
    forget_path q (folder p d fs) t = ground (
      arith,
      forget_path_in q fs t,
      glib.by_path.lookup-remove q p (forget_folders glib fs t).path_to_folder,
    )

    forget_path_in :
        (q : Bytes) (fs : Folders) (t : FolderTree glib)
        → glib.by_path.lookup q (forget_folders glib fs t).path_to_folder
          ≡ (if ltb 0 (count_in q fs) then none else glib.by_path.lookup q t.path_to_folder)
    forget_path_in q nil t = refl
    forget_path_in q (cons f fs) t =
        ground (arith, forget_path q f t, forget_path_in q fs (forget_folder glib f t))

  mutual
    unfolding forget_folder forget_folders data_count data_count_in

    pub forget_data :
        (d : ℕ) (f : Folder) (t : FolderTree glib)
        → glib.by_data.lookup d (forget_folder glib f t).data_to_path
          ≡ (if ltb 0 (data_count d f) then none else glib.by_data.lookup d t.data_to_path)
    forget_data d (folder p e fs) t = ground (
      arith,
      forget_data_in d fs t,
      glib.by_data.lookup-remove d e (forget_folders glib fs t).data_to_path,
    )

    forget_data_in :
        (d : ℕ) (fs : Folders) (t : FolderTree glib)
        → glib.by_data.lookup d (forget_folders glib fs t).data_to_path
          ≡ (if ltb 0 (data_count_in d fs) then none else glib.by_data.lookup d t.data_to_path)
    forget_data_in d nil t = refl
    forget_data_in d (cons f fs) t =
        ground (arith, forget_data d f t, forget_data_in d fs (forget_folder glib f t))

-- ===== src/FolderTree.antt =====
-- server/storage/e-folder-tree.c: folders in a tree, found by their path or by their data. A pointer
-- to a Folder is modelled by the path that the folder keeps, as no two folders of a tree share one;
-- `subfolders` and `parent` are the shape of the tree. Data are addresses, 0 for NULL.
use evolution_exchange.Outcome.{Outcome, fault, ok, ◌>>=◌}
pub mod Shape
pub mod Count
pub mod Inside
pub mod Placed
pub mod Below
pub mod Valid
pub mod Added
pub mod Removed
pub mod Removal
pub mod Addition
pub mod Reads
pub mod Runs
use evolution_exchange.Prelude.{
  ℕ, ◌+◌, ◌-◌, Bool, true, false, not, ◌&&◌, ◌||◌, Option, none, some, List, [], ◌∷◌, ◌++◌, ◌==◌,
  if◌then◌else◌, Bytes, codes, length, take,
}
use evolution_exchange.Strings.{same_bytes}
use evolution_exchange.Tables.{HashTable}
use evolution_exchange.FolderTree.Shape.{
  Folder, folder, Folders, nil, cons, slash, get_parent_path, path_of, data_of, subfolders_of,
  is_nil, find, add_subfolder, remove_subfolder, traverse_subtree, prepend_paths, found, without,
  with_subfolder,
}

abbrev pub pointed : Option Folder → Outcome Folder
pointed none = fault
pointed (some f) = ok f

-- GLib: the tables, and what it takes for an absolute path.
pub record Glib : Type 1 where
  pub by_path : HashTable Bytes Bytes same_bytes
  pub by_data : HashTable ℕ Bytes ◌==◌
  pub path_is_absolute : Bytes → Bool

module _ (glib : Glib) where
  -- EFolderTree; `notified` are the calls of folder_destroy_notify, the last one first.
  pub record FolderTree : Type 0 where
    pub root : Option Folder
    pub path_to_folder : glib.by_path.Table
    pub data_to_path : glib.by_data.Table
    pub notified : List (Bytes × ℕ)

  -- remove_folder on the tables: the subfolders go first.
  unfoldable mutual
    pub forget_folder : Folder → FolderTree → FolderTree
    forget_folder (folder p d fs) t =
        let t' = forget_folders fs t in
        record t' {
          path_to_folder = glib.by_path.remove p t'.path_to_folder;
          data_to_path = glib.by_data.remove d t'.data_to_path;
          notified = (p, d) ∷ t'.notified;
        }

    pub forget_folders : Folders → FolderTree → FolderTree
    forget_folders nil t = t
    forget_folders (cons f fs) t = forget_folders fs (forget_folder f t)

  -- `fault`: the pointer dangles, or is NULL.
  unfoldable pub deref : Option Bytes → FolderTree → Outcome Folder
  deref none t = fault
  deref (some p) t = pointed (found p t.root)

  unfoldable pub remove_folder : Folder → FolderTree → FolderTree
  remove_folder f t = record (forget_folder f t) { root = without (path_of f) t.root }

  -- folder_new, and the entries of the new folder in both tables.
  unfoldable pub enter : Bytes → ℕ → Option Folder → FolderTree → FolderTree
  enter path d root t = record t {
    root = root;
    path_to_folder = glib.by_path.insert path path t.path_to_folder;
    data_to_path = glib.by_data.insert d path t.data_to_path;
  }

  -- "Can only add a new root folder if the tree is empty"
  unfoldable pub replace_root : Bytes → ℕ → Folder → FolderTree → Bool × FolderTree
  replace_root path d f t =
      if is_nil (subfolders_of f)
      then (true, enter path d (some (folder path d nil)) (remove_folder f t))
      else (false, t)

  unfoldable pub add_root : Bytes → ℕ → FolderTree → Option Bytes → Outcome (Bool × FolderTree)
  add_root path d t none = ok (true, enter path d (some (folder path d nil)) t)
  add_root path d t (some p) = deref (some p) t >>= λ f. ok (replace_root path d f t)

  -- The three tests, for the parent, the path and the data.
  unfoldable pub add_child :
      Bytes
      → ℕ
      → FolderTree
      → Option Bytes
      → Option Bytes
      → Option Bytes
      → Outcome (Bool × FolderTree)
  add_child path d t none old existing = ok (false, t)
  add_child path d t (some parent) (some old) existing = ok (false, t)
  add_child path d t (some parent) none (some existing) = ok (false, t)
  add_child path d t (some parent) none none = deref (some parent) t >>= λ f.
      ok (true, enter path d (with_subfolder parent (folder path d nil) t.root) t)

  unfoldable pub add : Bytes → ℕ → FolderTree → Outcome (Bool × FolderTree)
  add path d t =
      if not (glib.path_is_absolute path)
      then ok (false, t)
      else if same_bytes path slash
      then add_root path d t (glib.by_path.lookup path t.path_to_folder)
      else add_child path d t (glib.by_path.lookup (get_parent_path path) t.path_to_folder)
          (glib.by_path.lookup path t.path_to_folder) (glib.by_data.lookup d t.data_to_path)

  abbrev pub blank : FolderTree
  blank = record {
    root = none;
    path_to_folder = glib.by_path.empty;
    data_to_path = glib.by_data.empty;
    notified = [];
  }

  -- e_folder_tree_new
  unfoldable pub new : Outcome FolderTree
  new = add slash 0 blank >>= λ r. ok r.1

  unfoldable pub remove_found : FolderTree → Option Bytes → Outcome (Bool × FolderTree)
  remove_found t none = ok (false, t)
  remove_found t (some p) = deref (some p) t >>= λ f. ok (true, remove_folder f t)

  unfoldable pub remove : Bytes → FolderTree → Outcome (Bool × FolderTree)
  remove path t =
      if not (glib.path_is_absolute path)
      then ok (false, t)
      else remove_found t (glib.by_path.lookup path t.path_to_folder)

  -- The folders that the callback has been notified of in the end.
  unfoldable pub destroy : FolderTree → Outcome (List (Bytes × ℕ))
  destroy t =
      deref (glib.by_path.lookup slash t.path_to_folder) t >>= λ f. ok (remove_folder f t).notified

  unfoldable pub foreach_from : FolderTree → Option Bytes → Outcome (List (Bytes × ℕ))
  foreach_from t none = ok []
  foreach_from t (some p) = deref (some p) t >>= λ f. ok (traverse_subtree f)

  unfoldable pub foreach : FolderTree → Outcome (List (Bytes × ℕ))
  foreach t = foreach_from t (glib.by_path.lookup slash t.path_to_folder)

  unfoldable pub get_count : FolderTree → Outcome ℕ
  get_count t = foreach t >>= λ calls. ok (length calls)

  unfoldable pub folder_data : FolderTree → Option Bytes → Outcome ℕ
  folder_data t none = ok 0
  folder_data t (some p) = deref (some p) t >>= λ f. ok (data_of f)

  unfoldable pub subfolder_paths : FolderTree → Option Bytes → Outcome (List Bytes)
  subfolder_paths t none = ok []
  subfolder_paths t (some p) = deref (some p) t >>= λ f. ok (prepend_paths (subfolders_of f) [])

  -- NULL for a path that is no folder's.
  unfoldable pub get_folder : Bytes → FolderTree → Outcome ℕ
  get_folder path t =
      if not (glib.path_is_absolute path)
      then ok 0
      else folder_data t (glib.by_path.lookup path t.path_to_folder)

  unfoldable pub get_subfolders : Bytes → FolderTree → Outcome (List Bytes)
  get_subfolders path t =
      if not (glib.path_is_absolute path)
      then ok []
      else subfolder_paths t (glib.by_path.lookup path t.path_to_folder)

  unfoldable pub get_path_for_data : ℕ → FolderTree → Option Bytes
  get_path_for_data d t = if d == 0 then none else glib.by_data.lookup d t.data_to_path

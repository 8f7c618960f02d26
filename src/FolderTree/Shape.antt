-- ===== src/FolderTree/Shape.antt =====
-- The folders of server/storage/e-folder-tree.c and their paths, without the tables that find them.
use evolution_exchange.Prelude.{
  ℕ, ◌-◌, Bool, true, false, Option, none, some, List, [], ◌∷◌, ◌++◌, ◌==◌, if◌then◌else◌, Bytes,
  codes, length, take,
}
use evolution_exchange.Props.{strrchr}
use evolution_exchange.Strings.{same_bytes}

mutual
  pub data Folder : Type 0 where
    folder : Bytes → ℕ → Folders → Folder

  pub data Folders : Type 0 where
    nil : Folders
    cons : Folder → Folders → Folders

abbrev pub slash : Bytes
slash = codes "/"

-- `last_separator` is the end of the path from its last slash on, which an absolute path has.
unfoldable pub before_separator : Bytes → Option Bytes → Bytes
before_separator path none = []
before_separator path (some last_separator) =
    if length last_separator == length path
    then slash
    else take (length path - length last_separator) path

unfoldable pub get_parent_path : Bytes → Bytes
get_parent_path path = before_separator path (strrchr path b'/')

abbrev pub path_of : Folder → Bytes
path_of (folder p d fs) = p

abbrev pub data_of : Folder → ℕ
data_of (folder p d fs) = d

abbrev pub subfolders_of : Folder → Folders
subfolders_of (folder p d fs) = fs

abbrev pub is_nil : Folders → Bool
is_nil nil = true
is_nil (cons f fs) = false

abbrev pub or_else : Option Folder → Option Folder → Option Folder
or_else (some f) g = some f
or_else none g = g

-- What a pointer to a Folder points to.
unfoldable mutual
  pub find : Bytes → Folder → Option Folder
  find p (folder q d fs) =
      let below = find_in p fs in if same_bytes q p then some (folder q d fs) else below

  pub find_in : Bytes → Folders → Option Folder
  find_in p nil = none
  find_in p (cons f fs) = or_else (find p f) (find_in p fs)

-- folder_add_subfolder: the new folder comes first.
unfoldable mutual
  pub add_subfolder : Bytes → Folder → Folder → Folder
  add_subfolder p new (folder q d fs) =
      let fs' = add_below p new fs in
      if same_bytes q p then folder q d (cons new fs') else folder q d fs'

  pub add_below : Bytes → Folder → Folders → Folders
  add_below p new nil = nil
  add_below p new (cons f fs) = cons (add_subfolder p new f) (add_below p new fs)

-- folder_remove_subfolder
unfoldable mutual
  pub remove_subfolder : Bytes → Folder → Folder
  remove_subfolder p (folder q d fs) = folder q d (remove_below p fs)

  pub remove_below : Bytes → Folders → Folders
  remove_below p nil = nil
  remove_below p (cons f fs) =
      let fs' = remove_below p fs in
      if same_bytes (path_of f) p then fs' else cons (remove_subfolder p f) fs'

-- traverse_subtree: the calls of the callback, with path and data.
unfoldable mutual
  pub traverse_subtree : Folder → List (Bytes × ℕ)
  traverse_subtree (folder p d fs) = (p, d) ∷ traverse_subfolders fs

  pub traverse_subfolders : Folders → List (Bytes × ℕ)
  traverse_subfolders nil = []
  traverse_subfolders (cons f fs) = traverse_subtree f ++ traverse_subfolders fs

-- The loop of e_folder_tree_get_subfolders: the list turns round.
unfoldable pub prepend_paths : Folders → List Bytes → List Bytes
prepend_paths nil l = l
prepend_paths (cons f fs) l = prepend_paths fs (path_of f ∷ l)

-- folder_destroy takes the folder out of its parent; the root has none.
unfoldable pub unlinked : Bytes → Folder → Option Folder
unlinked p f = if same_bytes (path_of f) p then none else some (remove_subfolder p f)

abbrev pub found : Bytes → Option Folder → Option Folder
found p none = none
found p (some f) = find p f

abbrev pub without : Bytes → Option Folder → Option Folder
without p none = none
without p (some f) = unlinked p f

abbrev pub with_subfolder : Bytes → Folder → Option Folder → Option Folder
with_subfolder p new none = none
with_subfolder p new (some f) = some (add_subfolder p new f)

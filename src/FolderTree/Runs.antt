-- ===== src/FolderTree/Runs.antt =====
-- Every EFolderTree (server/storage/e-folder-tree.c) that calls can make, and the end of one.
use evolution_exchange.FolderTree.Count.{data_at, find-none}
use evolution_exchange.Prelude.{
  ℕ, Bool, true, Option, none, some, List, [], ◌∷◌, ◌≡◌, Bytes, refl, arith,
}
use evolution_exchange.Outcome.{Outcome, ok, fault, ◌>>=◌}
use evolution_exchange.Strings.{same_bytes_self}
use evolution_exchange.FolderTree.{
  Glib, FolderTree, add, add_root, remove, new, blank, enter, deref, destroy, Folder,
}
use evolution_exchange.FolderTree.Shape.{folder, nil, slash, found, Folder}
use evolution_exchange.FolderTree.Placed.{self}
use evolution_exchange.FolderTree.Valid.{IsValid, count_at}
use evolution_exchange.FolderTree.Added.{root-IsValid}
use evolution_exchange.FolderTree.Addition.{add-IsAdded}
use evolution_exchange.FolderTree.Removal.{remove-IsRemoved, absent_lookup}

pub data Request : Type 0 where
  adding : Bytes → ℕ → Request
  removing : Bytes → Request

none_count : (q : Bytes) (o : Option Folder) → data_at (found q o) ≡ none → count_at q o ≡ 0
none_count q none h = refl
none_count q (some f) h = ground (arith, find-none q f)

module _ (glib : Glib) where
  new-IsValid :
      glib.path_is_absolute slash ≡ true
      → (t : FolderTree glib) × (new glib ≡ ok t) × IsValid glib t
  unfolding new add add_root
  new-IsValid a = (
    enter glib slash 0 (some (folder slash 0 nil)) (blank glib),
    rw a (rw (same_bytes_self slash) (rw (glib.by_path.lookup-empty slash))),
    root-IsValid glib 0 (blank glib) glib.by_path.lookup-empty glib.by_data.lookup-empty,
  )

  -- The calls one after the other, whatever each answers.
  unfoldable pub run : List Request → FolderTree glib → Outcome (FolderTree glib)
  run [] t = ok t
  run (adding path d ∷ rs) t = add glib path d t >>= λ r. run rs r.1
  run (removing path ∷ rs) t = remove glib path t >>= λ r. run rs r.1

  run-IsValid :
      (rs : List Request) (t : FolderTree glib)
      → IsValid glib t
      → (t' : FolderTree glib) × (run rs t ≡ ok t') × IsValid glib t'
  unfolding run
  run-IsValid [] t v = (t, refl, v)
  run-IsValid (adding path d ∷ rs) t v =
      let (r, e, w, h) = add-IsAdded glib path d t v in
      let (t', e', v') = run-IsValid rs r.1 w in (t', rw e e', v')
  run-IsValid (removing path ∷ rs) t v =
      let (r, e, h) = remove-IsRemoved glib path t v in
      let (t', e', v') = run-IsValid rs r.1 h.valid in (t', rw e e', v')

  -- Every sequence of e_folder_tree_add and e_folder_tree_remove on a new tree runs without
  -- following a wrong pointer, and leaves a tree whose root has the path "/", in which each
  -- folder stands below the folder of its parent path, no path stands twice, and the two tables
  -- find exactly the folders of the tree by path and by data, where GLib takes "/" for an
  -- absolute path.
  pub run-new :
      (rs : List Request)
      → glib.path_is_absolute slash ≡ true
      → (t : FolderTree glib) × ((new glib >>= run rs) ≡ ok t) × IsValid glib t
  run-new rs a =
      let (t, e, v) = new-IsValid a in let (t', e', v') = run-IsValid rs t v in (t', rw e e', v')

  -- After e_folder_tree_remove of "/" e_folder_tree_destroy follows a NULL pointer, on every
  -- valid tree, where GLib takes "/" for an absolute path.
  pub destroy-remove :
      (t : FolderTree glib)
      → IsValid glib t
      → glib.path_is_absolute slash ≡ true
      → (r : Bool × FolderTree glib) × (remove glib slash t ≡ ok r) × (destroy glib r.1 ≡ fault)
  unfolding destroy deref
  destroy-remove t v a =
      let (r, e, h) = remove-IsRemoved glib slash t v in
      (
        r,
        e,
        rw (
            absent_lookup glib slash r.1 h.valid
              (none_count slash r.1.root (h.gone a slash (self refl)))),
      )

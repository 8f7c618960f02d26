-- ===== src/FolderTree/Added.antt =====
-- e_folder_tree_add (server/storage/e-folder-tree.c) keeps the invariant, and adds one folder.
use evolution_exchange.Prelude.{
  ℕ, ◌<◌, none, some, ◌≡◌, ◌≢◌, ◌↔◌, if◌then◌else◌, Bytes, arith, ap, ◌∙◌, sym,
}
use evolution_exchange.Strings.{same_bytes, same_bytes_iff, same_bytes→eq}
use evolution_exchange.FolderTree.{Glib, FolderTree, enter}
use evolution_exchange.FolderTree.Shape.{
  Folder, folder, nil, slash, get_parent_path, add_subfolder, find, found, find_in,
}
use evolution_exchange.FolderTree.Count.{
  count, count_in, data_at, count_add, find_add_ne, find_add_self, find-none,
}
use evolution_exchange.FolderTree.Placed.{add-IsPlaced, add-path_of}
use evolution_exchange.FolderTree.Valid.{IsValid, view}

module _ (glib : Glib) where
  module _ (parent path : Bytes) (d : ℕ) (t : FolderTree glib) (f : Folder) where
    abbrev pub grown : Folder
    grown = add_subfolder parent (folder path d nil) f

    abbrev pub with_child : FolderTree glib
    with_child = enter glib path d (some grown) t

    pub view-child :
        (q : Bytes)
        → count path f ≡ 0
        → 0 < count parent f
        → data_at (find q grown) ≡ (if same_bytes path q then some d else data_at (find q f))
    view-child q z k =
        ground (
          arith,
          find_add_ne parent path d q f,
          find_add_self parent path d f,
          same_bytes→eq path q,
        )

    pub view-with_child :
        (q : Bytes)
        → t.root ≡ some f
        → count path f ≡ 0
        → 0 < count parent f
        → view glib with_child q ≡ (if same_bytes path q then some d else view glib t q)
    unfolding enter
    view-with_child q r z k =
        view-child q z k
        ∙ ap (λ o. if same_bytes path q then some d else data_at (found q o)) (sym r)

    by_data-child :
        (q : Bytes) (e : ℕ)
        → IsValid glib t
        → t.root ≡ some f
        → count path f ≡ 0
        → 0 < count parent f
        → glib.by_data.lookup d t.data_to_path ≡ none
        → (glib.by_data.lookup e (glib.by_data.insert d path t.data_to_path) ≡ some q)
          ↔ (data_at (find q grown) ≡ some e)
    by_data-child q e v r z k o =
        let old = rw r at (v.by_data q e) in
        (
          λ h. ground (
            arith,
            glib.by_data.lookup-insert e d path t.data_to_path,
            view-child q z k,
            old,
            find-none path f,
            same_bytes_iff path q,
          ),
          λ h. ground (
            arith,
            glib.by_data.lookup-insert e d path t.data_to_path,
            view-child q z k,
            old,
            same_bytes_iff path q,
          ),
        )

    pub child-IsValid :
        IsValid glib t
        → t.root ≡ some f
        → get_parent_path path ≡ parent
        → path ≢ slash
        → count path f ≡ 0
        → 0 < count parent f
        → glib.by_data.lookup d t.data_to_path ≡ none
        → IsValid glib with_child
    unfolding enter
    child-IsValid v r p n z k o = record {
      rooted = λ g e. ground (arith, add-path_of parent path d p n f, v.rooted f r);
      placed = λ g e.
          let eq : grown ≡ g = ground arith in
          rw (← eq) (add-IsPlaced parent path d p n f (v.placed f r));
      unique = λ q.
          let u = rw r at v.unique in
          ground (arith, count_add parent path d q f, same_bytes→eq path q, u q, u parent);
      by_path = λ q.
          let old = rw r at (v.by_path q) in
          ground (
            arith,
            glib.by_path.lookup-insert q path path t.path_to_folder,
            count_add parent path d q f,
            same_bytes→eq path q,
            old,
          );
      by_data = λ q e. by_data-child q e v r z k o;
    }

  pub view-root :
      (d : ℕ) (t : FolderTree glib) (q : Bytes)
      → view glib (enter glib slash d (some (folder slash d nil)) t) q
        ≡ (if same_bytes slash q then some d else none)
  unfolding enter find find_in
  view-root d t q = ground arith

  -- A root alone, in a tree of which nothing is left in the tables.
  pub root-IsValid :
      (d : ℕ) (t : FolderTree glib)
      → ((q : Bytes) → glib.by_path.lookup q t.path_to_folder ≡ none)
      → ((e : ℕ) → glib.by_data.lookup e t.data_to_path ≡ none)
      → IsValid glib (enter glib slash d (some (folder slash d nil)) t)
  unfolding enter find count count_in find_in
  root-IsValid d t a b = record {
    rooted = λ g e. ground arith;
    placed = λ g e. let eq : folder slash d nil ≡ g = ground arith in rw (← eq) tt;
    unique = λ q. ground arith;
    by_path = λ q. ground (
      arith,
      glib.by_path.lookup-insert q slash slash t.path_to_folder,
      a q,
      same_bytes→eq slash q,
    );
    by_data = λ q e. (
      λ h.
          ground (
            arith,
            glib.by_data.lookup-insert e d slash t.data_to_path,
            b e,
            same_bytes_iff slash q,
          ),
      λ h.
          ground (
            arith,
            glib.by_data.lookup-insert e d slash t.data_to_path,
            b e,
            same_bytes_iff slash q,
          ),
    );
  }

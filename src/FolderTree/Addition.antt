-- ===== src/FolderTree/Addition.antt =====
-- e_folder_tree_add (server/storage/e-folder-tree.c): what it adds, and what it refuses.
use evolution_exchange.PropertySet.Typed.{true_not_false}
use evolution_exchange.Prelude.{
  ℕ, ◌<◌, Bool, true, false, none, some, ◌≡◌, ◌≢◌, inl, inr, if◌then◌else◌, Bytes, refl, arith, ap,
  ◌∙◌, sym, Bool-cases,
}
use evolution_exchange.Outcome.{Outcome, ok}
use evolution_exchange.Strings.{same_bytes, same_bytes_iff, same_bytes→eq, same_bytes_self}
use evolution_exchange.FolderTree.{
  Glib, FolderTree, add, add_root, add_child, replace_root, enter, remove_folder, deref, data_of,
  pointed,
}
use evolution_exchange.FolderTree.Shape.{
  Folder, folder, nil, cons, path_of, slash, get_parent_path, find, found, without, data_of,
  unlinked, find_in,
}
use evolution_exchange.FolderTree.Count.{find_self, count_path, count, count_in, data_at}
use evolution_exchange.FolderTree.Placed.{ℕ-cases}
use evolution_exchange.FolderTree.Valid.{IsValid, view, count_at}
use evolution_exchange.FolderTree.Added.{
  child-IsValid, view-root, view-with_child, root-IsValid, with_child,
}
use evolution_exchange.FolderTree.Removed.{removed-IsValid, removed-root}
use evolution_exchange.FolderTree.Removal.{
  absent_lookup, present_lookup, absent_view, present_found, Option-cases,
}

none-some : {d : ℕ} → none ≡ some d → ⊥
none-some h = cc

without_self : (f : Folder) → without (path_of f) (some f) ≡ none
unfolding unlinked
without_self f = rw (same_bytes_self (path_of f))

module _ (glib : Glib) where
  -- Why nothing is added: the path is relative; the root has a folder below it; or the parent is
  -- missing, the path is taken, or the data belong to another path.
  pub data Refusal (path : Bytes) (d : ℕ) (t : FolderTree glib) : Type 0 where
    relative : glib.path_is_absolute path ≡ false → Refusal path d t
    busy_root : (q : Bytes) → path ≡ slash → q ≢ slash → 0 < count_at q t.root → Refusal path d t
    no_parent : path ≢ slash → view glib t (get_parent_path path) ≡ none → Refusal path d t
    taken : (e : ℕ) → path ≢ slash → view glib t path ≡ some e → Refusal path d t
    same_data : (q : Bytes) → path ≢ slash → view glib t q ≡ some d → Refusal path d t

  pub data IsAdded (path : Bytes) (d : ℕ) (t : FolderTree glib)
      : Bool → FolderTree glib → Type 0 where
    refused : Refusal path d t → IsAdded path d t false t
    added :
        {t' : FolderTree glib}
        → ((q : Bytes) → view glib t' q ≡ (if same_bytes path q then some d else view glib t q))
        → IsAdded path d t true t'

  abbrev Adds : Bytes → ℕ → FolderTree glib → Outcome (Bool × FolderTree glib) → Type 0
  Adds path d t o =
      (r : Bool × FolderTree glib) × (o ≡ ok r) × IsValid glib r.1 × IsAdded path d t r.0 r.1

  view-some :
      (path : Bytes) (t : FolderTree glib)
      → 0 < count_at path t.root
      → (e : ℕ) × (view glib t path ≡ some e)
  view-some path t k = let (f, r, (g, e)) = present_found path t.root k in (data_of g, rw r (rw e))

  add_child-Adds :
      (path : Bytes) (d : ℕ) (t : FolderTree glib)
      → IsValid glib t
      → path ≢ slash
      → Adds path d t (
          add_child glib path d t
            (glib.by_path.lookup (get_parent_path path) t.path_to_folder)
            (glib.by_path.lookup path t.path_to_folder)
            (glib.by_data.lookup d t.data_to_path))
  unfolding add_child deref
  add_child-Adds path d t v n = elim (ℕ-cases (count_at (get_parent_path path) t.root)) [
    | inr z ↦ (
      (false, t),
      rw (absent_lookup glib (get_parent_path path) t v z),
      v,
      refused (no_parent n (absent_view (get_parent_path path) t.root z)),
    )
    | inl k ↦
        rw (present_lookup glib (get_parent_path path) t v k)
          (elim (ℕ-cases (count_at path t.root)) [
            | inl k' ↦
                let (e, h) = view-some path t k' in
                ((false, t), rw (present_lookup glib path t v k'), v, refused (taken e n h))
            | inr z ↦
                rw (absent_lookup glib path t v z)
                  (elim (Option-cases (glib.by_data.lookup d t.data_to_path)) [
                    | inr (q, o) ↦
                        ((false, t), rw o, v, refused (same_data q n ((v.by_data q d).0 o)))
                    | inl o ↦
                        let (f, r, (g, e)) = present_found (get_parent_path path) t.root k in
                        (
                          (true, with_child glib (get_parent_path path) path d t f),
                          rw o (rw r (rw e)),
                          child-IsValid glib (get_parent_path path) path d t f v r refl n
                              (rw r at z) (rw r at k) o,
                          added (λ q.
                              view-with_child glib (get_parent_path path) path d t f q r (rw r at z)
                                (rw r at k)),
                        )
                  ])
          ])
  ]

  empty_by_path :
      (t : FolderTree glib)
      → IsValid glib t
      → t.root ≡ none
      → (q : Bytes) → glib.by_path.lookup q t.path_to_folder ≡ none
  empty_by_path t v r q = absent_lookup glib q t v (rw r refl)

  empty_by_data :
      (t : FolderTree glib)
      → IsValid glib t
      → t.root ≡ none
      → (e : ℕ) → glib.by_data.lookup e t.data_to_path ≡ none
  empty_by_data t v r e = elim (Option-cases (glib.by_data.lookup e t.data_to_path)) [
    | inl o ↦ o
    | inr (q, o) ↦ let w = rw r at ((v.by_data q e).0 o) in absurd (none-some w)
  ]

  pub rootless : (t : FolderTree glib) → IsValid glib t → count_at slash t.root ≡ 0 → t.root ≡ none
  rootless t v z = elim (Option-cases t.root) [
    | inl r ↦ r
    | inr (f, r) ↦ let z' = rw r at z in absurd (ground (arith, v.rooted f r, count_path f))
  ]

  root_only :
      (d : ℕ) (p : Bytes) (e : ℕ) (q : Bytes) (t : FolderTree glib)
      → t.root ≡ some (folder p e nil)
      → p ≡ slash
      → (if same_bytes slash q then some d else none)
        ≡ (if same_bytes slash q then some d else view glib t q)
  unfolding find find_in
  root_only d p e q t r h = elim (Bool-cases (same_bytes slash q)) [
    | inl s ↦ rw s refl
    | inr s ↦
        rw s (sym (ap (λ o. data_at (found q o)) r ∙ ground (arith, ap (λ x. same_bytes x q) h)))
  ]

  replace_root-Adds :
      (d : ℕ) (t : FolderTree glib) (f : Folder)
      → IsValid glib t
      → t.root ≡ some f
      → Adds slash d t (ok (replace_root glib slash d f t))
  unfolding replace_root find find_in count count_in
  replace_root-Adds d t (folder p e (cons h hs)) v r = (
    (false, t),
    refl,
    v,
    refused (
        busy_root (path_of h) refl ((v.placed (folder p e (cons h hs)) r).1)
          (rw r (ground (arith, count_path h)))),
  )
  replace_root-Adds d t (folder p e nil) v r =
      let gone =
        removed-root glib t p (folder p e nil) (folder p e nil) r
          (find_self p (folder p e nil) (same_bytes_self p)) in
      let v' =
        removed-IsValid glib t p (folder p e nil) (folder p e nil) v r
          (find_self p (folder p e nil) (same_bytes_self p)) in
      let bare = gone ∙ without_self (folder p e nil) in
      (
        (
          true,
          enter glib slash d (some (folder slash d nil)) (remove_folder glib (folder p e nil) t),
        ),
        refl,
        root-IsValid glib d (remove_folder glib (folder p e nil) t)
            (empty_by_path (remove_folder glib (folder p e nil) t) v' bare)
            (empty_by_data (remove_folder glib (folder p e nil) t) v' bare),
        added (λ q.
            view-root glib d (remove_folder glib (folder p e nil) t) q
            ∙ root_only d p e q t r (v.rooted (folder p e nil) r)),
      )

  pub deref_found :
      (p : Bytes) (t : FolderTree glib) (f g : Folder)
      → t.root ≡ some f
      → find p f ≡ some g
      → deref glib (some p) t ≡ ok g
  unfolding deref
  deref_found p t f g r e = ap (λ o. pointed (found p o)) r ∙ ap pointed e

  add_root-Adds :
      (d : ℕ) (t : FolderTree glib)
      → IsValid glib t
      → Adds slash d t (add_root glib slash d t (glib.by_path.lookup slash t.path_to_folder))
  unfolding add_root
  add_root-Adds d t v = elim (ℕ-cases (count_at slash t.root)) [
    | inr z ↦
        let r = rootless t v z in
        (
          (true, enter glib slash d (some (folder slash d nil)) t),
          rw (absent_lookup glib slash t v z),
          root-IsValid glib d t (empty_by_path t v r) (empty_by_data t v r),
          added (λ q.
              view-root glib d t q
              ∙ ap (λ o. if same_bytes slash q then some d else data_at (found q o)) (sym r)),
        )
    | inl k ↦
        let (f, r, (g, e)) = present_found slash t.root k in
        let same = find_self slash f (rw (v.rooted f r) (same_bytes_self slash)) in
        rw (present_lookup glib slash t v k)
          (rw (deref_found slash t f f r same) (replace_root-Adds d t f v r))
  ]

  -- On a valid tree e_folder_tree_add adds the data at the path and changes nothing else, or
  -- leaves the tree as it is, because the path is relative, is "/" while the root has a folder
  -- below it, has no parent in the tree, or is taken, or because the data belong to another path;
  -- the tree stays valid.
  pub add-IsAdded :
      (path : Bytes) (d : ℕ) (t : FolderTree glib)
      → IsValid glib t
      → (r : Bool × FolderTree glib) × (add glib path d t ≡ ok r)
        × IsValid glib r.1
        × IsAdded path d t r.0 r.1
  unfolding add
  add-IsAdded path d t v = elim (Bool-cases (glib.path_is_absolute path)) [
    | inr a ↦ ((false, t), rw a, v, refused (relative a))
    | inl a ↦ elim (Bool-cases (same_bytes path slash)) [
      | inl s ↦
          let e = same_bytes→eq path slash s in
          let (r, o, w, h) = add_root-Adds d t v in (r, rw a (rw s (rw e o)), w, rw e h)
      | inr s ↦
          let (r, o, w, h) =
            add_child-Adds path d t v (λ e. true_not_false ((same_bytes_iff path slash).1 e) s) in
          (r, rw a (rw s o), w, h)
    ]
  ]

-- ===== src/FolderTree/Removed.antt =====
-- remove_folder (server/storage/e-folder-tree.c) keeps the invariant, and takes out one subtree.
use evolution_exchange.Prelude.{
  ℕ, ◌+◌, ◌≤◌, none, some, ◌≡◌, inl, inr, ◌↔◌, ltb, if◌then◌else◌, Bytes, arith, ◌∙◌, sym,
  Bool-cases,
}
use evolution_exchange.Strings.{same_bytes}
use evolution_exchange.FolderTree.{Glib, FolderTree, remove_folder, forget_folder}
use evolution_exchange.FolderTree.Shape.{
  Folder, path_of, remove_subfolder, find, found, unlinked, without,
}
use evolution_exchange.FolderTree.Count.{count, data_at, find-none, find_path, find_self}
use evolution_exchange.FolderTree.Inside.{count_remove, find_remove, inside_found}
use evolution_exchange.FolderTree.Below.{
  data_count, find_data, data_count-find, data_find, count-find,
}
use evolution_exchange.FolderTree.Placed.{ℕ-cases, remove-IsPlaced, remove-path_of}
use evolution_exchange.FolderTree.Valid.{IsValid, count_at, forget_path, forget_data}

-- A folder g that p finds in a tree f, where every path stands once.
module _ (p : Bytes) (f g : Folder) (e : find p f ≡ some g) (u : (q : Bytes) → count q f ≤ 1) where
  pub count-without : (q : Bytes) → count_at q (without p (some f)) + count q g ≡ count q f
  unfolding unlinked
  count-without q = elim (Bool-cases (same_bytes (path_of f) p)) [
    | inl s ↦ ground (arith, find_self p f)
    | inr s ↦ ground (arith, count_remove p q f, inside_found p q f g, u p)
  ]

  pub data_at-without :
      (q : Bytes)
      → data_at (found q (without p (some f)))
        ≡ (if ltb 0 (count q g) then none else data_at (find q f))
  unfolding unlinked
  data_at-without q = elim (Bool-cases (same_bytes (path_of f) p)) [
    | inl s ↦ ground (arith, find_self p f, find-none q f)
    | inr s ↦ ground (
      arith,
      count_remove p q f,
      inside_found p q f g,
      u p,
      u q,
      find_remove p q f,
      find-none q (remove_subfolder p f),
    )
  ]

module _ (glib : Glib) (t : FolderTree glib) (p : Bytes) (f g : Folder) where
  abbrev removed : FolderTree glib
  removed = remove_folder glib g t

  by_data-removed :
      (q : Bytes) (d : ℕ)
      → IsValid glib t
      → t.root ≡ some f
      → find p f ≡ some g
      → (glib.by_data.lookup d (forget_folder glib g t).data_to_path ≡ some q)
        ↔ (data_at (found q (without p (some f))) ≡ some d)
  by_data-removed q d v r e =
      let u = rw r at v.unique in
      let old = rw r at (v.by_data q d) in
      (
        λ h. ground (
          arith,
          forget_data glib d g t,
          data_at-without p f g e u q,
          old,
          data_find q p f g e (u q),
          data_count-find q d g,
        ),
        λ h. elim (ℕ-cases (data_count d g)) [
          | inr o ↦ ground (arith, forget_data glib d g t, data_at-without p f g e u q, old)
          | inl o ↦
              let (q₂, e₂) = find_data d g (λ x. ground (arith, u x, count-find x p f g)) o in
              let old₂ = rw r at (v.by_data q₂ d) in
              absurd (
                ground (
                  arith,
                  data_at-without p f g e u q,
                  old,
                  old₂,
                  find-none q₂ g,
                  data_find q₂ p f g e (u q₂),
                ))
        ],
      )

  pub removed-root : t.root ≡ some f → find p f ≡ some g → removed.root ≡ without p (some f)
  unfolding remove_folder
  removed-root r e = rw r (rw (find_path p f g e))

  kept-folder : (h : Folder) → without p (some f) ≡ some h → h ≡ remove_subfolder p f
  unfolding unlinked
  kept-folder h e = ground arith

  pub removed-IsValid : IsValid glib t → t.root ≡ some f → find p f ≡ some g → IsValid glib removed
  unfolding remove_folder
  removed-IsValid v r e = record {
    rooted = λ h e'.
        rw (kept-folder h (sym (removed-root r e) ∙ e')) (remove-path_of p f ∙ v.rooted f r);
    placed = λ h e'.
        rw (kept-folder h (sym (removed-root r e) ∙ e')) (remove-IsPlaced p f (v.placed f r));
    unique = λ q.
        let u = rw r at v.unique in
        rw (removed-root r e) (ground (arith, count-without p f g e u q, u q));
    by_path = λ q.
        let u = rw r at v.unique in
        let old = rw r at (v.by_path q) in
        rw (removed-root r e)
          (ground (arith, count-without p f g e u q, u q, old, forget_path glib q g t));
    by_data = λ q d. rw (removed-root r e) (by_data-removed q d v r e);
  }

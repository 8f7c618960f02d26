-- ===== src/FolderTree/Removal.antt =====
-- e_folder_tree_remove (server/storage/e-folder-tree.c) takes out a folder and all that is below it.
use evolution_exchange.Prelude.{
  ◌<◌, Bool, true, false, ◌&&◌, Option, none, some, ◌≡◌, ◌≢◌, ◌⊎◌, inl, inr, ltb, Bytes, refl,
  arith, ap, ◌∙◌, sym, Bool-cases,
}
use evolution_exchange.Outcome.{ok}
use evolution_exchange.FolderTree.{Glib, FolderTree, remove_folder, remove, remove_found, deref}
use evolution_exchange.FolderTree.Shape.{Folder, slash, get_parent_path, find, found}
use evolution_exchange.FolderTree.Count.{count_path, count, data_at, find-none, find_path}
use evolution_exchange.FolderTree.Below.{find-IsPlaced}
use evolution_exchange.FolderTree.Placed.{ℕ-cases, IsUnder, self, below, parent_in, in-IsUnder}
use evolution_exchange.FolderTree.Valid.{IsValid, view, count_at}
use evolution_exchange.FolderTree.Removed.{removed-IsValid, removed-root, data_at-without}

pub Option-cases {ℓ} : {A : Type ℓ} (o : Option A) → (o ≡ none) ⊎ ((a : A) × (o ≡ some a))
Option-cases none = inl refl
Option-cases (some a) = inr (a, refl)

pub absent_view :
    (path : Bytes) (o : Option Folder) → count_at path o ≡ 0 → data_at (found path o) ≡ none
absent_view path none z = refl
absent_view path (some f) z = ground (arith, find-none path f)

pub present_found :
    (path : Bytes) (o : Option Folder)
    → 0 < count_at path o
    → (f : Folder) × (o ≡ some f) × ((g : Folder) × (find path f ≡ some g))
present_found path none k = absurd (omega arith)
present_found path (some f) k = elim (Option-cases (find path f)) [
  | inl e ↦ absurd (ground (arith, find-none path f))
  | inr (g, e) ↦ (f, refl, (g, e))
]

module _ (glib : Glib) where
  none_parent :
      (q : Bytes) (t : FolderTree glib) (f : Folder)
      → IsValid glib t
      → t.root ≡ some f
      → q ≢ slash
      → data_at (find (get_parent_path q) f) ≡ none
      → data_at (find q f) ≡ none
  none_parent q t f v r n e = elim (ℕ-cases (count q f)) [
    | inr z ↦ ground (arith, find-none q f)
    | inl k ↦ elim (parent_in q f (v.placed f r) k) [
      | inl h ↦ absurd (n (sym h ∙ v.rooted f r))
      | inr h ↦ absurd (ground (arith, find-none (get_parent_path q) f))
    ]
  ]

  -- Where a path is no folder's, none below it is one's.
  none_under :
      (p q : Bytes) (t : FolderTree glib)
      → IsValid glib t
      → view glib t p ≡ none
      → IsUnder p q
      → view glib t q ≡ none
  none_under p q t v h (self e) = rw (← e) h
  none_under p q t v h (below n u) =
      let ih = none_under p (get_parent_path q) t v h u in
      elim (Option-cases t.root) [
        | inl r ↦ rw r refl
        | inr (f, r) ↦ rw r (none_parent q t f v r n (rw r at ih))
      ]

  removed-IsUnder :
      (path : Bytes) (t : FolderTree glib) (f g : Folder)
      → IsValid glib t
      → t.root ≡ some f
      → find path f ≡ some g
      → ((q : Bytes) → ¬ IsUnder path q → view glib (remove_folder glib g t) q ≡ view glib t q)
        × (view glib (remove_folder glib g t) path ≡ none)
  removed-IsUnder path t f g v r e =
      let u = rw r at v.unique in
      let reads = λ (q : Bytes).
        ap (λ o. data_at (found q o)) (removed-root glib t path f g r e)
        ∙ data_at-without path f g e u q in
      (
        λ q n. reads q ∙ (elim (ℕ-cases (count q g)) [
          | inl k ↦ absurd (
              n (
                rw (← find_path path f g e)
                  (in-IsUnder q g (find-IsPlaced path f g (v.placed f r) e) k)))
          | inr z ↦ rw (z, r) refl
        ]),
        reads path ∙ ground (arith, count_path g, find_path path f g e),
      )

  -- What e_folder_tree_remove makes of a tree: its result, and the new tree.
  pub record IsRemoved (path : Bytes) (t : FolderTree glib) (done : Bool) (t' : FolderTree glib)
      : Type 0 where
    pub valid : IsValid glib t'
    pub found_it : done ≡ (glib.path_is_absolute path && ltb 0 (count_at path t.root))
    pub kept : (q : Bytes) → ¬ IsUnder path q → view glib t' q ≡ view glib t q
    pub gone :
        glib.path_is_absolute path ≡ true → (q : Bytes) → IsUnder path q → view glib t' q ≡ none

  pub absent_lookup :
      (path : Bytes) (t : FolderTree glib)
      → IsValid glib t
      → count_at path t.root ≡ 0
      → glib.by_path.lookup path t.path_to_folder ≡ none
  absent_lookup path t v z = ground (arith, v.by_path path)

  pub present_lookup :
      (path : Bytes) (t : FolderTree glib)
      → IsValid glib t
      → 0 < count_at path t.root
      → glib.by_path.lookup path t.path_to_folder ≡ some path
  present_lookup path t v k = ground (arith, v.by_path path)

  removed_found :
      (path : Bytes) (t : FolderTree glib)
      → IsValid glib t
      → 0 < count_at path t.root
      → (g : Folder) × (remove_found glib t (some path) ≡ ok (true, remove_folder glib g t))
        × IsValid glib (remove_folder glib g t)
        × ((q : Bytes) → ¬ IsUnder path q → view glib (remove_folder glib g t) q ≡ view glib t q)
        × (view glib (remove_folder glib g t) path ≡ none)
  unfolding remove_found deref
  removed_found path t v k =
      let (f, r, (g, e)) = present_found path t.root k in
      let (kept, gone) = removed-IsUnder path t f g v r e in
      (g, rw r (rw e), removed-IsValid glib t path f g v r e, kept, gone)

  -- On a valid tree e_folder_tree_remove answers TRUE exactly for the absolute paths of its
  -- folders; then nothing is left at the path or below it, all other paths keep their data, and
  -- the tree stays valid.
  pub remove-IsRemoved :
      (path : Bytes) (t : FolderTree glib)
      → IsValid glib t
      → (r : Bool × FolderTree glib) × (remove glib path t ≡ ok r) × IsRemoved path t r.0 r.1
  unfolding remove remove_found
  remove-IsRemoved path t v = elim (Bool-cases (glib.path_is_absolute path)) [
    | inr a ↦ (
      (false, t),
      rw a,
      record { valid = v; found_it = rw a; kept = λ q n. refl; gone = λ h. cc },
    )
    | inl a ↦ elim (ℕ-cases (count_at path t.root)) [
      | inr z ↦ (
        (false, t),
        rw a (rw (absent_lookup path t v z)),
        record {
          valid = v;
          found_it = ground arith;
          kept = λ q n. refl;
          gone = λ h q u. none_under path q t v (absent_view path t.root z) u;
        },
      )
      | inl k ↦
          let (g, e, v', kept, gone) = removed_found path t v k in
          (
            (true, remove_folder glib g t),
            rw a (rw (present_lookup path t v k) e),
            record {
              valid = v';
              found_it = ground arith;
              kept = kept;
              gone = λ h q u. none_under path q (remove_folder glib g t) v' gone u;
            },
          )
    ]
  ]

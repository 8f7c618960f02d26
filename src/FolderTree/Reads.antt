-- ===== src/FolderTree/Reads.antt =====
-- What the functions of server/storage/e-folder-tree.c that change nothing say of a tree.
use evolution_exchange.Prelude.{
  ℕ, ◌+◌, ◌≤◌, false, Option, none, some, List, [], ◌∷◌, ◌++◌, ◌≡◌, ◌↔◌, ◌==◌, inl, inr,
  if◌then◌else◌, length, Bytes, refl, arith, ap, ◌∙◌, sym, Bool-cases,
}
use evolution_exchange.Outcome.{ok}
use evolution_exchange.Strings.{same_bytes, same_bytes_iff, same_bytes_self}
use evolution_exchange.Tables.{IsIn, IsIn-append}
use evolution_exchange.FolderTree.{
  Glib, FolderTree, foreach, foreach_from, get_count, get_folder, folder_data, get_path_for_data,
}
use evolution_exchange.FolderTree.Shape.{
  Folder, Folders, folder, nil, cons, slash, find, find_in, found, traverse_subtree,
  traverse_subfolders,
}
use evolution_exchange.FolderTree.Count.{
  count, count_in, data_at, find-none, find_none_in, find_self,
}
use evolution_exchange.FolderTree.Below.{IsUnique, AreUnique}
use evolution_exchange.FolderTree.Placed.{ℕ-cases}
use evolution_exchange.FolderTree.Valid.{IsValid, view, count_at}
use evolution_exchange.FolderTree.Addition.{rootless, deref_found}
use evolution_exchange.FolderTree.Removal.{
  absent_lookup, present_lookup, absent_view, present_found,
}

mutual
  unfolding find find_in count count_in traverse_subtree traverse_subfolders

  traverse_subtree-IsIn :
      (q : Bytes) (d : ℕ) (f : Folder)
      → IsUnique f
      → IsIn (q, d) (traverse_subtree f) ↔ (data_at (find q f) ≡ some d)
  traverse_subtree-IsIn q d (folder p e fs) u =
      let ih = traverse_subfolders-IsIn q d fs (λ x. ground (arith, u x)) in
      (
        λ h. ground (arith, ih, u q, find_none_in q fs, same_bytes_self p),
        λ h. ground (arith, ih, same_bytes_iff p q),
      )

  traverse_subfolders-IsIn :
      (q : Bytes) (d : ℕ) (fs : Folders)
      → AreUnique fs
      → IsIn (q, d) (traverse_subfolders fs) ↔ (data_at (find_in q fs) ≡ some d)
  traverse_subfolders-IsIn q d nil u = (λ h. absurd h, λ h. cc)
  traverse_subfolders-IsIn q d (cons f fs) u =
      let a = traverse_subtree-IsIn q d f (λ x. ground (arith, u x)) in
      let b = traverse_subfolders-IsIn q d fs (λ x. ground (arith, u x)) in
      let c = IsIn-append (q, d) (traverse_subtree f) (traverse_subfolders fs) in
      (
        λ h. ground (arith, a, b, c, u q, find-none q f, find_none_in q fs),
        λ h. ground (arith, a, b, c, u q, find-none q f, find_none_in q fs),
      )

-- How many of the calls are made for a path.
abbrev pub times : Bytes → List (Bytes × ℕ) → ℕ
times q [] = 0
times q (c ∷ cs) = (if same_bytes c.0 q then 1 else 0) + times q cs

times-append : (q : Bytes) (xs ys : List (Bytes × ℕ)) → times q (xs ++ ys) ≡ times q xs + times q ys
times-append q [] ys = omega arith
times-append q (x ∷ xs) ys = omega (arith, times-append q xs ys)

mutual
  unfolding count count_in traverse_subtree traverse_subfolders

  times-traverse : (q : Bytes) (f : Folder) → times q (traverse_subtree f) ≡ count q f
  times-traverse q (folder p d fs) = omega (arith, times-traverse_in q fs)

  times-traverse_in : (q : Bytes) (fs : Folders) → times q (traverse_subfolders fs) ≡ count_in q fs
  times-traverse_in q nil = refl
  times-traverse_in q (cons f fs) = omega (
    arith,
    times-append q (traverse_subtree f) (traverse_subfolders fs),
    times-traverse q f,
    times-traverse_in q fs,
  )

none-some : {d : ℕ} → none ≡ some d → ⊥
none-some h = cc

module _ (glib : Glib) where
  -- The calls are those for the folders of the tree, each made once; their number is the count.
  pub record IsTraversal (t : FolderTree glib) (calls : List (Bytes × ℕ)) : Type 0 where
    pub goes_through : foreach glib t ≡ ok calls
    pub counts : get_count glib t ≡ ok (length calls)
    pub sound : (q : Bytes) (d : ℕ) → IsIn (q, d) calls ↔ (view glib t q ≡ some d)
    pub once : (q : Bytes) → times q calls ≤ 1

  -- On a valid tree e_folder_tree_foreach calls the function once for each folder, with its path
  -- and its data, and for nothing else, and e_folder_tree_get_count counts these calls.
  pub foreach-IsTraversal :
      (t : FolderTree glib) → IsValid glib t → (calls : List (Bytes × ℕ)) × IsTraversal t calls
  unfolding foreach foreach_from get_count
  foreach-IsTraversal t v = elim (ℕ-cases (count_at slash t.root)) [
    | inr z ↦
        let r = rootless glib t v z in
        (
          [],
          record {
            goes_through = rw (absent_lookup glib slash t v z);
            counts = rw (absent_lookup glib slash t v z);
            sound = λ q d. (
              λ i. absurd i,
              λ h. absurd (none-some (sym (ap (λ o. data_at (found q o)) r) ∙ h)),
            );
            once = λ q. omega arith;
          },
        )
    | inl k ↦
        let (f, r, (g, e)) = present_found slash t.root k in
        let same = find_self slash f (rw (v.rooted f r) (same_bytes_self slash)) in
        let u = rw r at v.unique in
        let reads = λ (q : Bytes). ap (λ o. data_at (found q o)) r in
        (
          traverse_subtree f,
          record {
            goes_through =
                rw (present_lookup glib slash t v k) (rw (deref_found glib slash t f f r same));
            counts =
                rw (present_lookup glib slash t v k) (rw (deref_found glib slash t f f r same));
            sound = λ q d. (
              λ i. reads q ∙ (traverse_subtree-IsIn q d f u).0 i,
              λ h. (traverse_subtree-IsIn q d f u).1 (sym (reads q) ∙ h),
            );
            once = λ q. rw (times-traverse q f) (u q);
          },
        )
  ]

  abbrev pub or_null : Option ℕ → ℕ
  or_null none = 0
  or_null (some d) = d

  get_folder_found :
      (path : Bytes) (t : FolderTree glib)
      → IsValid glib t
      → folder_data glib t (glib.by_path.lookup path t.path_to_folder)
        ≡ ok (or_null (view glib t path))
  unfolding folder_data
  get_folder_found path t v = elim (ℕ-cases (count_at path t.root)) [
    | inr z ↦ rw (absent_lookup glib path t v z) (rw (absent_view path t.root z))
    | inl k ↦
        let (f, r, (g, e)) = present_found path t.root k in
        rw (present_lookup glib path t v k) (
          rw (deref_found glib path t f g r e)
            (ap (λ o. ok (or_null (data_at o))) (sym (ap (found path) r ∙ e))))
  ]

  -- On a valid tree e_folder_tree_get_folder gives the data that stand at an absolute path, NULL
  -- for others, and e_folder_tree_get_path_for_data is its inverse on data that are not NULL.
  pub lookups-view :
      (path : Bytes) (d : ℕ) (t : FolderTree glib)
      → IsValid glib t
      → (get_folder glib path t
          ≡ ok (if glib.path_is_absolute path then or_null (view glib t path) else 0))
        × ((get_path_for_data glib d t ≡ some path)
            ↔ (((d == 0) ≡ false) × (view glib t path ≡ some d)))
  unfolding get_folder get_path_for_data
  lookups-view path d t v = (
    elim (Bool-cases (glib.path_is_absolute path)) [
      | inl a ↦ rw a (get_folder_found path t v)
      | inr a ↦ rw a
    ],
    (λ h. ground (arith, v.by_data path d), λ h. ground (arith, v.by_data path d)),
  )

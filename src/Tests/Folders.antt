-- ===== src/Tests/Folders.antt =====
-- The results on trees of folders, applied to a concrete one.
use evolution_exchange.Prelude.{
  ℕ, Bool, true, false, ◌==◌, List, [], ◌∷◌, ◌≡◌, ◌↔◌, some, refl, Bytes, codes, ==→eq, ==-self,
  if◌then◌else◌,
}
use evolution_exchange.Outcome.{ok, fault, ◌>>=◌}
use evolution_exchange.Strings.{same_bytes, same_bytes_iff}
use evolution_exchange.Tables.Listed.{listed}
use evolution_exchange.FolderTree.{
  Glib, FolderTree, new, add, remove, destroy, get_folder, get_path_for_data,
}
use evolution_exchange.FolderTree.Shape.{slash}
use evolution_exchange.FolderTree.Valid.{IsValid, view}
use evolution_exchange.FolderTree.Addition.{IsAdded, add-IsAdded}
use evolution_exchange.FolderTree.Removal.{IsRemoved, remove-IsRemoved}
use evolution_exchange.FolderTree.Runs.{Request, adding, removing, run, run-new, destroy-remove}
use evolution_exchange.FolderTree.Reads.{IsTraversal, foreach-IsTraversal, or_null, lookups-view}

==-iff : (j k : ℕ) → ((j == k) ≡ true) ↔ (j ≡ k)
==-iff j k = (==→eq j k, λ e. rw e (==-self k))

abbrev is_absolute : Bytes → Bool
is_absolute [] = false
is_absolute (c ∷ s) = c == b'/'

abbrev glib : Glib
glib = record {
  by_path = listed same_bytes same_bytes_iff;
  by_data = listed ◌==◌ ==-iff;
  path_is_absolute = is_absolute;
}

-- Two folders are added, one below the other, and a third one that has no parent.
abbrev requests : List Request
requests =
    adding (codes "/a") 7
    ∷ adding (codes "/a/b") 8
    ∷ adding (codes "/x/y") 9
    ∷ removing (codes "/a/b")
    ∷ []

built : (t : FolderTree glib) × ((new glib >>= run glib requests) ≡ ok t) × IsValid glib t
built = run-new glib requests refl

-- The tree that they make.
abbrev tree : FolderTree glib
tree = built.0

tree_example : (t : FolderTree glib) × ((new glib >>= run glib requests) ≡ ok t) × IsValid glib t
tree_example = run-new glib requests refl

folder_example :
    (r : Bool × FolderTree glib) × (add glib (codes "/a/c") 10 tree ≡ ok r)
    × IsValid glib r.1
    × IsAdded glib (codes "/a/c") 10 tree r.0 r.1
folder_example = add-IsAdded glib (codes "/a/c") 10 tree built.2

remove_example :
    (r : Bool × FolderTree glib) × (remove glib (codes "/a") tree ≡ ok r)
    × IsRemoved glib (codes "/a") tree r.0 r.1
remove_example = remove-IsRemoved glib (codes "/a") tree built.2

walk_example : (calls : List (Bytes × ℕ)) × IsTraversal glib tree calls
walk_example = foreach-IsTraversal glib tree built.2

lookups_example :
    (get_folder glib (codes "/a") tree
      ≡ ok (if is_absolute (codes "/a") then or_null glib (view glib tree (codes "/a")) else 0))
    × ((get_path_for_data glib 7 tree ≡ some (codes "/a"))
        ↔ (((7 == 0) ≡ false) × (view glib tree (codes "/a") ≡ some 7)))
lookups_example = lookups-view glib (codes "/a") 7 tree built.2

destroy_example :
    (r : Bool × FolderTree glib) × (remove glib slash tree ≡ ok r) × (destroy glib r.1 ≡ fault)
destroy_example = destroy-remove glib tree built.2 refl

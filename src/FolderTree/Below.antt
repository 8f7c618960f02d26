-- ===== src/FolderTree/Below.antt =====
-- What the folder that a path finds has of the tree's folders.
use evolution_exchange.Prelude.{
  ℕ, ◌+◌, ◌≤◌, ◌<◌, Option, none, some, ◌≡◌, ◌⊎◌, inl, inr, ◌==◌, if◌then◌else◌, Bytes, refl, arith,
  Bool-cases,
}
use evolution_exchange.Strings.{same_bytes, same_bytes_self}
use evolution_exchange.FolderTree.Shape.{Folder, folder, Folders, nil, cons, or_else, find, find_in}
use evolution_exchange.FolderTree.Count.{count, count_in, data_at, find-none, find_none_in}
use evolution_exchange.FolderTree.Placed.{IsPlaced, ArePlaced, ℕ-cases}

unfoldable mutual
  pub data_count : ℕ → Folder → ℕ
  data_count d (folder p e fs) = (if e == d then 1 else 0) + data_count_in d fs

  pub data_count_in : ℕ → Folders → ℕ
  data_count_in d nil = 0
  data_count_in d (cons f fs) = data_count d f + data_count_in d fs

or_else_cases :
    (a b : Option Folder) (g : Folder) → or_else a b ≡ some g → (a ≡ some g) ⊎ (b ≡ some g)
or_else_cases none b g e = inr e
or_else_cases (some f) b g e = inl e

mutual
  unfolding find find_in

  pub find-IsPlaced : (p : Bytes) (f g : Folder) → IsPlaced f → find p f ≡ some g → IsPlaced g
  find-IsPlaced p (folder r d fs) g h e = elim (Bool-cases (same_bytes r p)) [
    | inl s ↦ let eq : folder r d fs ≡ g = ground arith in rw (← eq) h
    | inr s ↦ find_in-IsPlaced p r fs g h (ground arith)
  ]

  find_in-IsPlaced :
      (p r : Bytes) (fs : Folders) (g : Folder)
      → ArePlaced r fs
      → find_in p fs ≡ some g
      → IsPlaced g
  find_in-IsPlaced p r nil g h e = cc
  find_in-IsPlaced p r (cons f fs) g (x, y, z, w) e =
      elim (or_else_cases (find p f) (find_in p fs) g e) [
        | inl o ↦ find-IsPlaced p f g z o
        | inr o ↦ find_in-IsPlaced p r fs g w o
      ]

mutual
  unfolding find find_in count count_in

  pub count-find : (q p : Bytes) (f g : Folder) → find p f ≡ some g → count q g ≤ count q f
  count-find q p (folder r d fs) g e = ground (arith, count-find_in q p fs g)

  count-find_in :
      (q p : Bytes) (fs : Folders) (g : Folder) → find_in p fs ≡ some g → count q g ≤ count_in q fs
  count-find_in q p nil g e = cc
  count-find_in q p (cons f fs) g e = ground (arith, count-find q p f g, count-find_in q p fs g)

mutual
  unfolding find find_in count count_in

  -- Where q stands once in the tree, and stands in a folder of it, both find the same.
  pub data_find :
      (q p : Bytes) (f g : Folder)
      → find p f ≡ some g
      → count q f ≤ 1
      → 0 < count q g
      → data_at (find q g) ≡ data_at (find q f)
  data_find q p (folder r d fs) g e u k = elim (Bool-cases (same_bytes r p)) [
    | inl s ↦ let eq : folder r d fs ≡ g = ground arith in rw (← eq) refl
    | inr s ↦ ground (arith, data_find_in q p fs g, count-find_in q p fs g)
  ]

  data_find_in :
      (q p : Bytes) (fs : Folders) (g : Folder)
      → find_in p fs ≡ some g
      → count_in q fs ≤ 1
      → 0 < count q g
      → data_at (find q g) ≡ data_at (find_in q fs)
  data_find_in q p nil g e u k = cc
  data_find_in q p (cons f fs) g e u k = ground (
    arith,
    data_find q p f g,
    data_find_in q p fs g,
    count-find q p f g,
    count-find_in q p fs g,
    find-none q f,
    find_none_in q fs,
  )

mutual
  unfolding find find_in data_count data_count_in

  pub data_count-find :
      (q : Bytes) (d : ℕ) (f : Folder) → data_at (find q f) ≡ some d → 0 < data_count d f
  data_count-find q d (folder r c fs) e = ground (arith, data_count-find_in q d fs)

  data_count-find_in :
      (q : Bytes) (d : ℕ) (fs : Folders) → data_at (find_in q fs) ≡ some d → 0 < data_count_in d fs
  data_count-find_in q d nil e = cc
  data_count-find_in q d (cons f fs) e =
      ground (arith, data_count-find q d f, data_count-find_in q d fs)

abbrev pub IsUnique : Folder → Type 0
IsUnique f = (q : Bytes) → count q f ≤ 1

abbrev pub AreUnique : Folders → Type 0
AreUnique fs = (q : Bytes) → count_in q fs ≤ 1

mutual
  unfolding find find_in count count_in data_count data_count_in

  pub find_data :
      (d : ℕ) (f : Folder)
      → IsUnique f
      → 0 < data_count d f
      → (q : Bytes) × (data_at (find q f) ≡ some d)
  find_data d (folder r c fs) u k = elim (Bool-cases (c == d)) [
    | inl s ↦ (r, ground (arith, same_bytes_self r))
    | inr s ↦
        let (q, e) = find_data_in d fs (λ q. ground (arith, u q)) (ground arith) in
        (q, ground (arith, u q, find_none_in q fs))
  ]

  find_data_in :
      (d : ℕ) (fs : Folders)
      → AreUnique fs
      → 0 < data_count_in d fs
      → (q : Bytes) × (data_at (find_in q fs) ≡ some d)
  find_data_in d nil u k = absurd (omega arith)
  find_data_in d (cons f fs) u k = elim (ℕ-cases (data_count d f)) [
    | inl o ↦ let (q, e) = find_data d f (λ q. ground (arith, u q)) o in (q, ground arith)
    | inr o ↦
        let (q, e) = find_data_in d fs (λ q. ground (arith, u q)) (ground arith) in
        (q, ground (arith, u q, find-none q f, find_none_in q fs))
  ]

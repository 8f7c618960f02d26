-- ===== src/VirtualPath/Fits.antt =====
-- What e_path_to_physical of server/lib/e2k-path.c writes, and that its buffer is large enough.
use evolution_exchange.Prelude.{
  ◌+◌, ◌≤◌, Bool, true, false, Option, List, [], ◌∷◌, ◌++◌, length, ◌==◌, Bytes, codes, ◌≡◌, refl,
  sym, ap, ◌∙◌, arith, length-append, append-nil, All, ℕ, ◌*◌, ◌<◌, ◌^◌, as_gint, pos,
}
use evolution_exchange.VirtualPath.{
  skip_slashes, added_length, mangle, prefix_or_empty, physical_length, path_to_physical,
}

mangle_fits :
    (skipping : Bool) (s : Bytes) → length (mangle skipping s) ≤ length s + added_length skipping s
unfolding mangle added_length
mangle_fits skipping [] = omega arith
mangle_fits true (c ∷ s) = let ih = mangle_fits (c == b'/') s in ground arith
mangle_fits false (c ∷ s) =
    let ih = mangle_fits (c == b'/') s in
    ground (arith, length-append (codes "subfolders/") (mangle (c == b'/') s))

added_length-bound : (skipping : Bool) (s : Bytes) → added_length skipping s ≤ 11 * length s
unfolding added_length
added_length-bound skipping [] = omega arith
added_length-bound true (c ∷ s) = let ih = added_length-bound (c == b'/') s in ground arith
added_length-bound false (c ∷ s) = let ih = added_length-bound (c == b'/') s in ground arith

length-skip_slashes : (s : Bytes) → length (skip_slashes s) ≤ length s
unfolding skip_slashes
length-skip_slashes [] = omega arith
length-skip_slashes (c ∷ s) = let ih = length-skip_slashes s in ground arith

as_gint_small : (n : ℕ) → n < 2 ^ 31 → as_gint n ≡ pos n
as_gint_small n h = ground arith

-- Where the length of the prefix and twelve times that of the path stay below 2 ^ 31 - 2, the
-- length that e_path_to_physical computes does not overflow, and what it writes, with the
-- terminator, is not longer than the buffer of that length.
pub path_to_physical-fits :
    (prefix : Option Bytes) (vpath : Bytes)
    → length (prefix_or_empty prefix) + 12 * length vpath + 2 < 2 ^ 31
    → (n : ℕ) × (physical_length prefix vpath ≡ pos n)
      × (length (path_to_physical prefix vpath) + 1 ≤ n)
unfolding path_to_physical physical_length
path_to_physical-fits prefix vpath h =
    let p = prefix_or_empty prefix in
    let m = mangle false (skip_slashes vpath) in
    let s = skip_slashes vpath in
    (
      length s + 1 + length p + 1 + added_length false s,
      as_gint_small _ (omega (arith, added_length-bound false s, length-skip_slashes vpath)),
      omega (
        arith,
        mangle_fits false (skip_slashes vpath),
        length-append (p ++ codes "/") m,
        length-append p (codes "/"),
      ),
    )

-- Names with something between them.
abbrev pub join : Bytes → List Bytes → Bytes
join between [] = []
join between (n ∷ []) = n
join between (n ∷ m ∷ names) = n ++ (between ++ join between (m ∷ names))

-- A name has a byte, and no slash.
abbrev pub HasNoSlash : Bytes → Type 0
HasNoSlash s = All (λ c. (c == b'/') ≡ false) s

abbrev pub IsName : Bytes → Type 0
IsName [] = ⊥
IsName (c ∷ s) = HasNoSlash (c ∷ s)

mangle_name : (n s : Bytes) → HasNoSlash n → mangle false (n ++ s) ≡ n ++ mangle false s
unfolding mangle
mangle_name [] s h = refl
mangle_name (c ∷ n) s (h, hs) = rw h (ap (λ r. c ∷ r) (mangle_name n s hs))

after_slash : (n s : Bytes) → IsName n → mangle true (n ++ s) ≡ mangle false (n ++ s)
unfolding mangle
after_slash [] s h = absurd h
after_slash (c ∷ n) s (h, hs) = rw h refl

IsName-HasNoSlash : (n : Bytes) → IsName n → HasNoSlash n
IsName-HasNoSlash [] h = absurd h
IsName-HasNoSlash (c ∷ n) h = h

after_slash-join :
    (m : Bytes) (names : List Bytes)
    → IsName m
    → mangle true (join (codes "/") (m ∷ names)) ≡ mangle false (join (codes "/") (m ∷ names))
after_slash-join [] [] h = absurd h
after_slash-join (c ∷ m) [] h =
    sym (ap (mangle true) (append-nil (c ∷ m)))
    ∙ after_slash (c ∷ m) [] h
    ∙ ap (mangle false) (append-nil (c ∷ m))
after_slash-join m (n ∷ names) h = after_slash m (codes "/" ++ join (codes "/") (n ∷ names)) h

mangle-join :
    (names : List Bytes)
    → All IsName names
    → mangle false (join (codes "/") names) ≡ join (codes "/subfolders/") names
unfolding mangle
mangle-join [] h = refl
mangle-join (n ∷ []) (h, hs) =
    sym (ap (mangle false) (append-nil n)) ∙ mangle_name n [] (IsName-HasNoSlash n h) ∙ append-nil n
mangle-join (n ∷ m ∷ names) (h, (g, gs)) =
    mangle_name n (codes "/" ++ join (codes "/") (m ∷ names)) (IsName-HasNoSlash n h)
    ∙ ap (λ r. n ++ (codes "/subfolders/" ++ r))
        (after_slash-join m names g ∙ mangle-join (m ∷ names) (g, gs))

skip_slashes-join :
    (names : List Bytes)
    → All IsName names
    → skip_slashes (join (codes "/") names) ≡ join (codes "/") names
unfolding skip_slashes
skip_slashes-join [] h = refl
skip_slashes-join ([] ∷ names) (h, hs) = absurd h
skip_slashes-join ((c ∷ n) ∷ []) ((h, g), hs) = rw h refl
skip_slashes-join ((c ∷ n) ∷ m ∷ names) ((h, g), hs) = rw h refl

-- Of a path made of a slash and names with single slashes between them, where a name has a byte
-- and no slash, e_path_to_physical makes the prefix, a slash, and the names with "/subfolders/"
-- between them.
pub path_to_physical-join :
    (prefix : Option Bytes) (names : List Bytes)
    → All IsName names
    → path_to_physical prefix (codes "/" ++ join (codes "/") names)
      ≡ prefix_or_empty prefix ++ codes "/" ++ join (codes "/subfolders/") names
unfolding path_to_physical skip_slashes
path_to_physical-join prefix names h =
    ap (λ s. prefix_or_empty prefix ++ codes "/" ++ s)
      (ap (mangle false) (skip_slashes-join names h) ∙ mangle-join names h)

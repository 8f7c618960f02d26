-- ===== src/Uri/Relative.antt =====
-- A relative uri of server/lib/e2k-uri.c, put behind its prefix, is found again.
use evolution_exchange.Prelude.{
  ◌≡◌, ◌≢◌, refl, ap, ◌∙◌, Option, none, some, [], ◌∷◌, ◌++◌, append_assoc, ==-self, ne→==, Bytes,
  codes, Bool, if◌then◌else◌, false, arith, ◌==◌, ℕ,
}
use evolution_exchange.Props.{strrchr}
use evolution_exchange.Text.{slashed}
use evolution_exchange.Uri.{uri_concat, behind_prefix, skip_slashes, uri_relative}

-- The string does not start with a slash.
abbrev pub NoSlash : Bytes → Type 0
NoSlash [] = Unit {0}
NoSlash (c ∷ s) = c ≢ b'/'

behind_prefix-append : (xs ys : Bytes) → behind_prefix xs (xs ++ ys) ≡ some ys
unfolding behind_prefix
behind_prefix-append [] ys = refl
behind_prefix-append (x ∷ xs) ys = rw (==-self x) (behind_prefix-append xs ys)

skip_slashes-NoSlash : (s : Bytes) → NoSlash s → skip_slashes s ≡ s
unfolding skip_slashes
skip_slashes-NoSlash [] h = refl
skip_slashes-NoSlash (c ∷ s) h = rw (ne→== c b'/' h) refl

skip_one : (s : Bytes) → skip_slashes (b'/' ∷ s) ≡ skip_slashes s
unfolding skip_slashes
skip_one s = refl

at_prefix : (xs ys : Bytes) → uri_relative xs (xs ++ ys) ≡ skip_slashes ys
unfolding uri_relative
at_prefix xs ys = rw (behind_prefix-append xs ys, uri_relative) refl

with_slash : (xs ys : Bytes) → NoSlash ys → uri_relative xs ((xs ++ codes "/") ++ ys) ≡ ys
with_slash xs ys h =
    ap (uri_relative xs) (append_assoc xs (codes "/") ys)
    ∙ (at_prefix xs (b'/' ∷ ys) ∙ (skip_one ys ∙ skip_slashes-NoSlash ys h))

relative-slashed :
    (xs ys : Bytes) (r : Option Bytes) → NoSlash ys → uri_relative xs (slashed xs r ++ ys) ≡ ys
relative-slashed xs ys none h = with_slash xs ys h
relative-slashed xs ys (some []) h = with_slash xs ys h
relative-slashed xs ys (some (c ∷ [])) h = at_prefix xs ys ∙ skip_slashes-NoSlash ys h
relative-slashed xs ys (some (c ∷ d ∷ s)) h = with_slash xs ys h

-- The string ends with a slash.
abbrev pub ends_in_slash : Bytes → Bool
ends_in_slash [] = false
ends_in_slash (c ∷ []) = c == b'/'
ends_in_slash (c ∷ d ∷ s) = ends_in_slash (d ∷ s)

shift :
    (c d : ℕ) (s : Bytes) (r : Option Bytes)
    → slashed
        (c ∷ d ∷ s)
        (elim r [ some t ↦ some t | none ↦ if c == b'/' then some (c ∷ d ∷ s) else none ])
      ≡ c ∷ slashed (d ∷ s) r
shift c d s none = ground arith
shift c d s (some []) = refl
shift c d s (some (x ∷ [])) = refl
shift c d s (some (x ∷ y ∷ t)) = refl

slashed-ends :
    (s : Bytes) → slashed s (strrchr s b'/') ≡ (if ends_in_slash s then s else s ++ codes "/")
unfolding strrchr
slashed-ends [] = refl
slashed-ends (c ∷ []) = ground arith
slashed-ends (c ∷ d ∷ s) =
    shift c d s (strrchr (d ∷ s) b'/') ∙ ap (λ t. c ∷ t) (slashed-ends (d ∷ s)) ∙ ground arith

-- For a relative path that does not start with a slash e2k_uri_concat puts the path behind the
-- prefix, with a slash between them exactly if the prefix does not end with one, and
-- e2k_uri_relative finds the path again in this uri.
pub uri_relative-uri_concat :
    (uri_prefix tail : Bytes)
    → NoSlash tail
    → (uri_concat uri_prefix tail ≡ (
        if ends_in_slash uri_prefix then uri_prefix ++ tail else uri_prefix ++ codes "/" ++ tail))
      × (uri_relative uri_prefix (uri_concat uri_prefix tail) ≡ tail)
unfolding uri_concat
uri_relative-uri_concat uri_prefix tail h = (
  ap (λ t. t ++ tail) (slashed-ends uri_prefix) ∙ ground arith,
  relative-slashed uri_prefix tail (strrchr uri_prefix b'/') h,
)

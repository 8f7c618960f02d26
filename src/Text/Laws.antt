-- ===== src/Text/Laws.antt =====
-- The laws of the string functions of server/lib/e2k-utils.c.
use evolution_exchange.Prelude.{
  ℕ, suc, ◌+◌, ◌-◌, ◌*◌, ◌%◌, ◌^◌, ◌≡◌, ◌≢◌, refl, ap, ◌∙◌, Bool-cases, inl, inr, Option, none,
  some, [], ◌∷◌, ◌++◌, ◌==◌, if◌then◌else◌, Bytes, codes, length, All, map, arith, ne→==,
}
use mathlib.Core.Path.{subst}
use mathlib.Core.Option.{some-injective}
use evolution_exchange.Props.{strrchr}
use evolution_exchange.Props.Names.{strrchr-append}
use evolution_exchange.Text.{
  lf_to_crlf, crlf_length, crlf_to_lf, slashed, strdup_with_trailing_slash, hash_from,
  ascii_strcase_hash,
}

-- A text without CR is converted to CRLF lines and back without loss.
pub crlf_to_lf-lf_to_crlf : (s : Bytes) → All (λ c. c ≢ b'\r') s → crlf_to_lf (lf_to_crlf s) ≡ s
unfolding crlf_to_lf lf_to_crlf
crlf_to_lf-lf_to_crlf [] h = refl
crlf_to_lf-lf_to_crlf (c ∷ s) h = elim (Bool-cases (c == b'\n')) [
  | inl e ↦ rw (e, ne→== c b'\r' h.0, crlf_to_lf-lf_to_crlf s h.1) refl
  | inr e ↦ rw (e, ne→== c b'\r' h.0, crlf_to_lf-lf_to_crlf s h.1) refl
]

-- The converted text fills the memory that e2k_lf_to_crlf allocates for it exactly.
length-lf_to_crlf : (s : Bytes) → length (lf_to_crlf s) ≡ crlf_length s
unfolding crlf_length lf_to_crlf
length-lf_to_crlf [] = refl
length-lf_to_crlf (c ∷ s) = elim (Bool-cases (c == b'\n')) [
  | inl e ↦ rw e (ap (λ n. suc (suc n)) (length-lf_to_crlf s))
  | inr e ↦ rw e (ap suc (length-lf_to_crlf s))
]

slash-again :
    (c : ℕ) (s : Bytes) (r : Option Bytes)
    → strrchr (c ∷ s) b'/' ≡ r
    → strdup_with_trailing_slash (slashed (c ∷ s) r) ≡ some (slashed (c ∷ s) r)
unfolding strdup_with_trailing_slash strrchr
slash-again c s (some (x ∷ [])) e = ap (λ r. some (slashed (c ∷ s) r)) e
slash-again c s (some []) e =
    ap (λ r. some (slashed ((c ∷ s) ++ codes "/") r)) (strrchr-append (c ∷ s) [] b'/' refl)
slash-again c s (some (x ∷ y ∷ t)) e =
    ap (λ r. some (slashed ((c ∷ s) ++ codes "/") r)) (strrchr-append (c ∷ s) [] b'/' refl)
slash-again c s none e =
    ap (λ r. some (slashed ((c ∷ s) ++ codes "/") r)) (strrchr-append (c ∷ s) [] b'/' refl)

-- A path that e2k_strdup_with_trailing_slash has returned is copied by it as it is.
pub strdup_with_trailing_slash-twice :
    (path path₁ : Bytes)
    → strdup_with_trailing_slash path ≡ some path₁
    → strdup_with_trailing_slash path₁ ≡ some path₁
unfolding strdup_with_trailing_slash
strdup_with_trailing_slash-twice [] path₁ e = ground arith
strdup_with_trailing_slash-twice (c ∷ s) path₁ e =
    subst (λ q. strdup_with_trailing_slash q ≡ some q) (some-injective _ _ e)
      (slash-again c s (strrchr (c ∷ s) b'/') refl)

abbrev first : Bytes → ℕ
first [] = 0
first (c ∷ s) = c

abbrev others : Bytes → Bytes
others [] = []
others (c ∷ s) = s

module _ (g_ascii_tolower : ℕ → ℕ) where
  hash_from-map :
      (s t : Bytes) (h : ℕ)
      → map g_ascii_tolower s ≡ map g_ascii_tolower t
      → hash_from g_ascii_tolower h s ≡ hash_from g_ascii_tolower h t
  unfolding hash_from
  hash_from-map [] [] h e = refl
  hash_from-map [] (d ∷ t) h e = ground arith
  hash_from-map (c ∷ s) [] h e = ground arith
  hash_from-map (c ∷ s) (d ∷ t) h e =
      ap (λ v. hash_from g_ascii_tolower ((h * 32 + 2 ^ 32 - h + v) % 2 ^ 32) s) (ap first e)
      ∙ hash_from-map s t _ (ap others e)

  -- Strings that g_ascii_tolower makes equal have the same hash, which a GHashTable relies on.
  ascii_strcase_hash-map :
      (s t : Bytes)
      → map g_ascii_tolower s ≡ map g_ascii_tolower t
      → ascii_strcase_hash g_ascii_tolower s ≡ ascii_strcase_hash g_ascii_tolower t
  unfolding ascii_strcase_hash
  ascii_strcase_hash-map [] [] e = refl
  ascii_strcase_hash-map [] (d ∷ t) e = ground arith
  ascii_strcase_hash-map (c ∷ s) [] e = ground arith
  ascii_strcase_hash-map (c ∷ s) (d ∷ t) e =
      ap (λ v. if v == 0 then v else hash_from g_ascii_tolower v s) (ap first e)
      ∙ ap (λ w. if g_ascii_tolower d == 0 then g_ascii_tolower d else w)
          (hash_from-map s t (g_ascii_tolower d) (ap others e))

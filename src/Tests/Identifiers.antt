-- ===== src/Tests/Identifiers.antt =====
-- Runs of server/lib/e2k-sid.c and server/lib/e2k-path.c.
use evolution_exchange.Prelude.{
  ℕ, pos, true, none, some, [], ◌∷◌, ◌++◌, List, Bytes, codes, ◌≡◌, ◌≢◌, inr, refl, arith, All,
  false,
}
use evolution_exchange.Outcome.{ok, fault, ◌>>=◌}
use evolution_exchange.Sid.{
  Sid, user, well_known_group, new_from_binary_sid, new_from_string_sid, get_string_sid,
  get_binary_sid, binary_sid_equal, print_sid, print_decimal, print_digits,
}
use evolution_exchange.VirtualPath.{
  path_to_physical, physical_length, prefix_or_empty, skip_slashes, mangle,
}
use evolution_exchange.VirtualPath.Fits.{path_to_physical-fits, path_to_physical-join, join}
use evolution_exchange.Prelude.{length, ◌+◌, ◌≤◌}
use evolution_exchange.Sid.RoundTrip.{binary, Is32, get_binary_sid-get_string_sid}
use evolution_exchange.Sid.Nameless.{new_from_binary_sid-nameless, binary_sid_equal-binary}

abbrev domain_user : List ℕ
domain_user = 21 ∷ 4000000000 ∷ 513 ∷ []

print_test : print_decimal 4000000000 ≡ codes "4000000000"
unfolding print_decimal print_digits
print_test = refl

fit : All Is32 domain_user
fit = (omega arith, (omega arith, (omega arith, tt)))

sid_example :
    (s : Bytes) × (x y : Sid) × ((new_from_binary_sid user
          (binary 5 domain_user ++ 7 ∷ [])
          (some (codes "joe"))
        >>= λ a. get_string_sid a)
      ≡ ok (s, x))
    × ((new_from_string_sid user s (some (codes "joe")) >>= λ a. get_binary_sid a)
        ≡ ok (binary 5 domain_user, y))
sid_example =
    get_binary_sid-get_string_sid user 5 domain_user (7 ∷ []) (codes "joe") (omega arith)
      (omega arith) fit (inr (omega arith))

anonymous_example :
    (new_from_binary_sid well_known_group (binary 5 domain_user ++ []) none ≡ fault)
    × (user ≢ well_known_group
        → (sid : Sid) × (new_from_binary_sid user (binary 5 domain_user ++ []) none ≡ ok sid)
          × (sid.display_name ≡ none)
          × (print_sid (binary 5 domain_user) >>= λ s. ok (some s)) ≡ ok sid.string_sid)
anonymous_example = new_from_binary_sid-nameless user 5 domain_user [] fit

same_sid_example :
    ((◌≡◌ {A = ℕ} 5 6) × (domain_user ≡ domain_user)
      → binary_sid_equal (binary 5 domain_user ++ 1 ∷ []) (binary 6 domain_user ++ 2 ∷ [])
        ≡ ok true)
    × (¬ ((◌≡◌ {A = ℕ} 5 6) × (domain_user ≡ domain_user))
        → binary_sid_equal (binary 5 domain_user ++ 1 ∷ []) (binary 6 domain_user ++ 2 ∷ [])
          ≡ ok false)
same_sid_example = binary_sid_equal-binary 5 6 domain_user domain_user (1 ∷ []) (2 ∷ []) fit fit

abbrev mail_names : List Bytes
mail_names = codes "a" ∷ codes "bc" ∷ []

path_test : path_to_physical none (codes "//a//b/") ≡ codes "/a/subfolders/b/subfolders/"
unfolding path_to_physical prefix_or_empty skip_slashes mangle
path_test = refl

path_fits_example :
    (n : ℕ) × (physical_length none (codes "a//b") ≡ pos n)
    × (length (path_to_physical none (codes "a//b")) + 1 ≤ n)
path_fits_example =
    path_to_physical-fits none (codes "a//b") (unfold prefix_or_empty in omega arith)

path_example :
    path_to_physical (some (codes "/home")) (codes "/" ++ join (codes "/") mail_names)
    ≡ prefix_or_empty (some (codes "/home")) ++ codes "/" ++ join (codes "/subfolders/") mail_names
path_example =
    path_to_physical-join (some (codes "/home")) mail_names ((refl, tt), ((refl, (refl, tt)), tt))

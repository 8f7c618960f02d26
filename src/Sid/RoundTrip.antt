-- ===== src/Sid/RoundTrip.antt =====
-- The binary form of an identifier, its string, and back: server/lib/e2k-sid.c.
use evolution_exchange.Sid.{
  print_decimal, print_subauthorities, is_digit, count_dashes, write_subauthorities, print_sid,
  parse_sid, print_digits, copy_binary, new_from_string_sid, new_from_binary_sid, binary_sid_len,
  sid_new_internal, fill_string, choose_name, SidType, get_string_sid, get_binary_sid, Sid, front,
}
use evolution_exchange.Prelude.{
  ℕ, suc, ◌+◌, ◌*◌, ◌%◌, ◌^◌, ◌<◌, ◌≤◌, true, none, some, List, [], ◌∷◌, ◌++◌, length, drop, leb,
  Bytes, codes, All, ◌≡◌, refl, sym, ap, ◌∙◌, arith, append_assoc, length-append, append-nil,
  le→ltb, ◌⊎◌, inl, inr, take-append,
}
use evolution_exchange.Outcome.{ok, ◌>>=◌}
use evolution_exchange.Strings.{same_bytes}
use evolution_exchange.Wire.{append_uint32, write_uint32}
use evolution_exchange.Wire.RoundTrip.{read_uint32-append}
use evolution_exchange.Sid.Decimal.{
  Ends, strtoul_decimal-print_decimal, count_dashes-print_decimal, length-print_decimal,
  print_decimal_long,
}

abbrev pub flat : List ℕ → Bytes
flat [] = []
flat (v ∷ vs) = append_uint32 v ++ flat vs

-- The identifier of an authority and its subauthorities.
abbrev pub binary : ℕ → List ℕ → Bytes
binary authority subs = 1 ∷ length subs ∷ 0 ∷ 0 ∷ 0 ∷ 0 ∷ 0 ∷ authority ∷ flat subs

abbrev pub subauthority_text : List ℕ → Bytes
subauthority_text [] = []
subauthority_text (v ∷ vs) = codes "-" ++ print_decimal v ++ subauthority_text vs

abbrev pub Is32 : ℕ → Type 0
Is32 v = v < 2 ^ 32

pub drop-append_uint32 : (v : ℕ) (s : Bytes) → drop 4 (append_uint32 v ++ s) ≡ s
unfolding append_uint32 write_uint32
drop-append_uint32 v s = refl

print_subauthorities_next :
    (count v : ℕ) (s : Bytes)
    → v < 2 ^ 32
    → print_subauthorities (suc count) (append_uint32 v ++ s)
      ≡ (print_subauthorities count s >>= λ rest. ok (codes "-" ++ print_decimal v ++ rest))
unfolding print_subauthorities
print_subauthorities_next count v s h =
    let e : v % 2 ^ 32 ≡ v = omega arith in
    rw (read_uint32-append v s ∙ ap ok e, drop-append_uint32 v s) refl

print_subauthorities-flat :
    (subs : List ℕ) (rest : Bytes)
    → All Is32 subs
    → print_subauthorities (length subs) (flat subs ++ rest) ≡ ok (subauthority_text subs)
unfolding print_subauthorities
print_subauthorities-flat [] rest h = refl
print_subauthorities-flat (v ∷ vs) rest (l, h) =
    ap (print_subauthorities (suc (length vs))) (append_assoc (append_uint32 v) (flat vs) rest)
    ∙ print_subauthorities_next (length vs) v (flat vs ++ rest) l
    ∙ rw (print_subauthorities-flat vs rest h) refl

subauthority_text-Ends : (subs : List ℕ) → Ends (subauthority_text subs)
unfolding is_digit
subauthority_text-Ends [] = tt
subauthority_text-Ends (v ∷ vs) = refl

count_dashes-subauthority_text :
    (subs : List ℕ) → count_dashes (subauthority_text subs) ≡ length subs
unfolding count_dashes
count_dashes-subauthority_text [] = refl
count_dashes-subauthority_text (v ∷ vs) =
    ap (λ n. 1 + n)
      (count_dashes-print_decimal v (subauthority_text vs) ∙ count_dashes-subauthority_text vs)
    ∙ omega arith

write_subauthorities-subauthority_text :
    (subs : List ℕ)
    → All Is32 subs
    → write_subauthorities (length subs) (subauthority_text subs) ≡ flat subs
unfolding write_subauthorities
write_subauthorities-subauthority_text [] h = refl
write_subauthorities-subauthority_text (v ∷ vs) (l, h) =
    rw (strtoul_decimal-print_decimal v (subauthority_text vs) l (subauthority_text-Ends vs))
      (ap (λ b. append_uint32 v ++ b) (write_subauthorities-subauthority_text vs h))

pub print_sid-binary :
    (authority : ℕ) (subs : List ℕ) (rest : Bytes)
    → All Is32 subs
    → print_sid (binary authority subs ++ rest)
      ≡ ok (codes "S-1-" ++ print_decimal authority ++ subauthority_text subs)
unfolding print_sid print_decimal print_digits
print_sid-binary authority subs rest h = rw (print_subauthorities-flat subs rest h) refl

pub parse_sid-subauthority_text :
    (authority : ℕ) (subs : List ℕ)
    → authority < 2 ^ 8
    → length subs < 2 ^ 8
    → All Is32 subs
    → parse_sid (codes "S-1-" ++ print_decimal authority ++ subauthority_text subs)
      ≡ ok (binary authority subs)
unfolding parse_sid
parse_sid-subauthority_text authority subs h l k =
    let n =
      count_dashes-print_decimal authority (subauthority_text subs)
      ∙ count_dashes-subauthority_text subs in
    let p =
      strtoul_decimal-print_decimal authority (subauthority_text subs) (omega arith)
        (subauthority_text-Ends subs) in
    let e : length subs % 2 ^ 8 ≡ length subs = omega arith in
    let f : authority % 2 ^ 8 ≡ authority = omega arith in
    let g =
      le→ltb (length (codes "S-1-" ++ print_decimal authority ++ subauthority_text subs)) 4
        (omega arith) in
    rw (n, p, write_subauthorities-subauthority_text subs k, e, f, g) refl

-- The string names an identifier that new_from_string_sid takes.
abbrev pub IsLong : ℕ → List ℕ → Type 0
IsLong authority subs = (10 ≤ authority) ⊎ (1 ≤ length subs)

length-string :
    (authority : ℕ) (subs : List ℕ)
    → IsLong authority subs
    → 6 ≤ length (codes "S-1-" ++ print_decimal authority ++ subauthority_text subs)
length-string authority [] (inl h) =
    ground (arith, append-nil (print_decimal authority), print_decimal_long authority h)
length-string authority [] (inr h) = absurd (omega arith)
length-string authority (v ∷ vs) h = ground (
  arith,
  length-append (print_decimal authority) (subauthority_text (v ∷ vs)),
  length-print_decimal authority,
)

length-flat : (subs : List ℕ) → length (flat subs) ≡ length subs * 4
unfolding append_uint32 write_uint32
length-flat [] = refl
length-flat (v ∷ vs) = omega (arith, length-flat vs)

front-append : (n : ℕ) (xs ys : Bytes) → length xs ≡ n → front n (xs ++ ys) ≡ ok xs
front-append n xs ys e =
    let l : leb n (length (xs ++ ys)) ≡ true = ground (arith, length-append xs ys) in
    rw (l, sym e, take-append xs ys) refl

pub front-binary :
    (authority : ℕ) (subs : List ℕ) (rest : Bytes)
    → front (8 + length subs * 4) (binary authority subs ++ rest) ≡ ok (binary authority subs)
front-binary authority subs rest =
    front-append (8 + length subs * 4) (binary authority subs) rest
      (omega (arith, length-flat subs))

pub copy_binary-binary :
    (authority : ℕ) (subs : List ℕ) (rest : Bytes)
    → copy_binary (some (binary authority subs ++ rest)) ≡ ok (some (binary authority subs))
unfolding copy_binary binary_sid_len
copy_binary-binary authority subs rest = rw (front-binary authority subs rest) refl

new_from_string_sid-subauthority_text :
    (type : SidType) (authority : ℕ) (subs : List ℕ) (name : Bytes)
    → IsLong authority subs
    → new_from_string_sid type
        (codes "S-1-" ++ print_decimal authority ++ subauthority_text subs)
        (some name)
      ≡ ok (record {
        type = type;
        binary_sid = none;
        display_name = some name;
        string_sid = some (codes "S-1-" ++ print_decimal authority ++ subauthority_text subs);
      })
unfolding new_from_string_sid sid_new_internal copy_binary fill_string choose_name same_bytes
new_from_string_sid-subauthority_text type authority subs name g =
    rw
      (le→ltb (length (codes "S-1-" ++ print_decimal authority ++ subauthority_text subs)) 6
        (length-string authority subs g))
      refl

-- The string of a binary identifier of revision 1, with a display name and with padding that is
-- zero, is taken by e2k_sid_new_from_string_sid and gives back the binary form without the memory
-- behind it, if there is a subauthority or the authority has two digits.
pub get_binary_sid-get_string_sid :
    (type : SidType) (authority : ℕ) (subs : List ℕ) (rest name : Bytes)
    → authority < 2 ^ 8
    → length subs < 2 ^ 8
    → All Is32 subs
    → IsLong authority subs
    → (s : Bytes) × (x y : Sid) × ((new_from_binary_sid type
            (binary authority subs ++ rest)
            (some name)
          >>= λ a. get_string_sid a)
        ≡ ok (s, x))
      × ((new_from_string_sid type s (some name) >>= λ a. get_binary_sid a)
          ≡ ok (binary authority subs, y))
unfolding new_from_binary_sid sid_new_internal fill_string choose_name get_string_sid get_binary_sid
get_binary_sid-get_string_sid type authority subs rest name h l k g =
    let s = codes "S-1-" ++ print_decimal authority ++ subauthority_text subs in
    let b = binary authority subs in
    let x : Sid = record {
      type = type;
      binary_sid = some b;
      string_sid = some s;
      display_name = some name;
    } in
    (
      s,
      x,
      x,
      rw (copy_binary-binary authority subs rest)
          (rw (ap print_sid (sym (append-nil b)) ∙ print_sid-binary authority subs [] k) refl),
      rw (new_from_string_sid-subauthority_text type authority subs name g)
          (rw (parse_sid-subauthority_text authority subs h l k) refl),
    )

-- ===== src/Sid/Nameless.antt =====
-- Identifiers that are made without a display name, and compared: server/lib/e2k-sid.c.
use evolution_exchange.Wire.RoundTrip.{read_uint32-append}
use evolution_exchange.Wire.{append_uint32, write_uint32, read_uint32}
use evolution_exchange.Sid.{
  SidType, binary_sid_equal, new_from_binary_sid, well_known_group, Sid, print_sid,
  sid_new_internal, append_uint32, binary_sid_len, fill_string, choose_name, get_string_sid,
  name_of, read_uint32, well_known_name, front, print_decimal,
}
use evolution_exchange.Prelude.{
  ℕ, ◌+◌, ◌*◌, Bool, true, false, none, some, List, [], ◌∷◌, ◌++◌, length, Bytes, All, ◌≡◌, ◌≢◌,
  refl, sym, ap, ◌∙◌, arith, drop, ap₂, append-nil, Bool-cases, ◌==◌, inl, ==→eq, inr, ==-self,
  codes,
}
use evolution_exchange.Outcome.{Outcome, ok, fault, ◌>>=◌}
use evolution_exchange.Strings.{same_bytes, same_bytes_iff, same_bytes→eq}
use evolution_exchange.Sid.RoundTrip.{
  binary, Is32, front-binary, copy_binary-binary, print_sid-binary, flat, subauthority_text,
}

name_of-none : (type : SidType) → type ≢ well_known_group → name_of type none ≡ ok none
unfolding name_of
name_of-none well_known_group h = absurd (h refl)
name_of-none _ h = refl

-- Without a display name e2k_sid_new_from_binary_sid follows a NULL pointer for a well-known
-- group, and makes an identifier of any other type with no display name, though its string is
-- known, where the identifier has revision 1 and padding that is zero.
pub new_from_binary_sid-nameless :
    (type : SidType) (authority : ℕ) (subs : List ℕ) (rest : Bytes)
    → All Is32 subs
    → (new_from_binary_sid well_known_group (binary authority subs ++ rest) none ≡ fault)
      × (type ≢ well_known_group
          → (sid : Sid) × (new_from_binary_sid type (binary authority subs ++ rest) none ≡ ok sid)
            × (sid.display_name ≡ none)
            × (print_sid (binary authority subs) >>= λ s. ok (some s)) ≡ ok sid.string_sid)
unfolding new_from_binary_sid sid_new_internal fill_string choose_name get_string_sid name_of
    well_known_name
new_from_binary_sid-nameless type authority subs rest h =
    let p =
      ap print_sid (sym (append-nil (binary authority subs)))
      ∙ print_sid-binary authority subs [] h in
    (
      rw (copy_binary-binary authority subs rest, p) refl,
      λ n. (
        record {
          type = type;
          binary_sid = some (binary authority subs);
          string_sid = some (codes "S-1-" ++ print_decimal authority ++ subauthority_text subs);
          display_name = none;
        },
        rw (copy_binary-binary authority subs rest, p, name_of-none type n) refl,
        refl,
        rw p refl,
      ),
    )

-- The number at the front of the memory.
abbrev value : Outcome ℕ → ℕ
value (ok n) = n
value _ = 0

abbrev truth : Outcome Bool → Bool
truth (ok b) = b
truth _ = false

abbrev authority_of : Bytes → ℕ
authority_of (_ ∷ _ ∷ _ ∷ _ ∷ _ ∷ _ ∷ _ ∷ a ∷ _) = a
authority_of _ = 0

flat_injective : (as_ bs : List ℕ) → All Is32 as_ → All Is32 bs → flat as_ ≡ flat bs → as_ ≡ bs
unfolding append_uint32 write_uint32
flat_injective [] [] h k e = refl
flat_injective [] (b ∷ bs) h k e = absurd (ground arith)
flat_injective (a ∷ as_) [] h k e = absurd (ground arith)
flat_injective (a ∷ as_) (b ∷ bs) (h, hs) (k, ks) e =
    let r =
      sym (read_uint32-append a (flat as_)) ∙ ap read_uint32 e ∙ read_uint32-append b (flat bs) in
    let v = ap value r in
    let w : a ≡ b = omega arith in
    ap₂ (λ x xs. x ∷ xs) w (flat_injective as_ bs hs ks (ap (drop 4) e))

equal_lengths :
    (a b : ℕ) (as_ bs : List ℕ) (xs ys : Bytes)
    → length as_ ≡ length bs
    → binary_sid_equal (binary a as_ ++ xs) (binary b bs ++ ys)
      ≡ ok (same_bytes (binary a as_) (binary b bs))
unfolding binary_sid_equal binary_sid_len
equal_lengths a b as_ bs xs ys l =
    let e : (8 + length as_ * 4 == 8 + length bs * 4) ≡ true = ground arith in
    let f : front (8 + length as_ * 4) (binary b bs ++ ys) ≡ ok (binary b bs) =
      ap (λ n. front (8 + n * 4) (binary b bs ++ ys)) l ∙ front-binary b bs ys in
    rw (e, front-binary a as_ xs, f) refl

other_lengths :
    (a b : ℕ) (as_ bs : List ℕ) (xs ys : Bytes)
    → length as_ ≢ length bs
    → binary_sid_equal (binary a as_ ++ xs) (binary b bs ++ ys) ≡ ok false
unfolding binary_sid_equal binary_sid_len
other_lengths a b as_ bs xs ys l =
    let e : (8 + length as_ * 4 == 8 + length bs * 4) ≡ false = ground arith in rw e refl

-- e2k_sid_binary_sid_equal answers TRUE for two identifiers in memory, of revision 1 and with
-- padding that is zero, if they have the same authority and the same subauthorities, and FALSE
-- otherwise, and reads nothing behind either of them.
pub binary_sid_equal-binary :
    (a b : ℕ) (as_ bs : List ℕ) (xs ys : Bytes)
    → All Is32 as_
    → All Is32 bs
    → ((a ≡ b) × (as_ ≡ bs) → binary_sid_equal (binary a as_ ++ xs) (binary b bs ++ ys) ≡ ok true)
      × (¬ ((a ≡ b) × (as_ ≡ bs))
          → binary_sid_equal (binary a as_ ++ xs) (binary b bs ++ ys) ≡ ok false)
binary_sid_equal-binary a b as_ bs xs ys h k = (
  λ (p, q).
      equal_lengths a b as_ bs xs ys (ap length q)
      ∙ ap ok ((same_bytes_iff (binary a as_) (binary b bs)).1 (ap₂ binary p q)),
  λ n. elim (Bool-cases (length as_ == length bs)) [
    | inl l ↦
        let e = equal_lengths a b as_ bs xs ys (==→eq (length as_) (length bs) l) in
        elim (Bool-cases (same_bytes (binary a as_) (binary b bs))) [
          | inl t ↦
              let same = same_bytes→eq (binary a as_) (binary b bs) t in
              absurd (n (ap authority_of same, flat_injective as_ bs h k (ap (drop 8) same)))
          | inr f ↦ e ∙ ap ok f
        ]
    | inr l ↦ other_lengths a b as_ bs xs ys (λ q. ground (arith, ==-self (length as_)))
  ],
)

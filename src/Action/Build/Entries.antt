-- ===== src/Action/Build/Entries.antt =====
-- The entries that e2k_addr_list_set_local and e2k_addr_list_set_oneoff make can be kept in a rule.
use evolution_exchange.Wire.{
  append_uint32, append_uint16, write_uint16, write_uint32, append_string,
}
use evolution_exchange.Prelude.{
  ℕ, zero, suc, ◌+◌, ◌<◌, ◌^◌, ◌≡◌, refl, ap, ◌∙◌, some, List, [], ◌∷◌, ◌++◌, Bytes, codes, All,
  All-append, map, length, arith, ◌≢◌, length-append, Bool-cases, ◌==◌, inl, inr,
}
use evolution_exchange.Outcome.{ok}
use evolution_exchange.Platform.{Platform}
use evolution_exchange.Props.{proptag_prop, rule_prop_set}
use evolution_exchange.Props.Names.{prop_proptag-proptag_prop}
use evolution_exchange.PropValue.{PropValue, Value, string, binary, int, proptag_type}
use evolution_exchange.PropValue.RoundTrip.{prop_of, IsStorable, Fits}
use evolution_exchange.EntryId.{entryid_generate_local, search_key_generate, upcase, mapi_local_uid}
use evolution_exchange.Action.{AddrEntry, append_uint32, append_uint16, write_uint16}
use evolution_exchange.Action.Storable.{IsStorableEntry, IsStorableList}
use evolution_exchange.Action.Build.{
  set_values, core_values, local_values, set_entry, addr_list_set_local,
}

abbrev value_of : ℕ × Value → PropValue
value_of (t, v) = record { prop = prop_of t; value = v }

rule_prop_set-proptag_prop : (t : ℕ) → t < 2 ^ 32 → rule_prop_set (proptag_prop t) ≡ ok (prop_of t)
unfolding rule_prop_set
rule_prop_set-proptag_prop t h = rw (prop_proptag-proptag_prop t h) refl

set_values-eq :
    (vs : List (ℕ × Value)) → All (λ (t, v). t < 2 ^ 32) vs → set_values vs ≡ ok (map value_of vs)
unfolding set_values
set_values-eq [] h = refl
set_values-eq ((t, v) ∷ vs) h = rw (rule_prop_set-proptag_prop t h.0, set_values-eq vs h.1) refl

module _ (p : Platform) where
  -- The string converts to UTF-16.
  abbrev pub IsValid : Bytes → Type 0
  IsValid s = (us : List ℕ) × (p.utf8_to_utf16 s ≡ some us)

  -- The tag is of a type for which the value fits, and not of one that is written as another.
  abbrev IsGood : ℕ × Value → Type 0
  IsGood (t, v) =
      (t < 2 ^ 32)
      × (proptag_type t ≢ 0x001e)
      × (proptag_type t ≢ 0x84b0)
      × Fits p (proptag_type t) v

  good : (vs : List (ℕ × Value)) → All IsGood vs → All (IsStorable p) (map value_of vs)
  good [] h = tt
  good ((t, v) ∷ vs) h = (
    record {
      canonical = record { named = refl; fits = h.0.0; not_string8 = h.0.1; not_rule = h.0.2 };
      fitting = h.0.3;
    },
    good vs h.1,
  )

length-upcase : (f : ℕ → ℕ) (s : Bytes) → length (upcase f s) ≡ length s
unfolding upcase
length-upcase f [] = refl
length-upcase f (c ∷ s) = elim (Bool-cases (c == 0)) [
  | inl e ↦ rw e refl
  | inr e ↦ rw e (ap suc (length-upcase f s))
]

length-search_key_generate :
    (f : ℕ → ℕ) (addrtype address : Bytes)
    → length (search_key_generate f addrtype address) ≡ length addrtype + length address + 2
unfolding search_key_generate
length-search_key_generate f addrtype address =
    length-upcase f (addrtype ++ (codes ":" ++ (address ++ 0 ∷ [])))
    ∙ omega (
      arith,
      length-append addrtype (codes ":" ++ (address ++ 0 ∷ [])),
      length-append address (0 ∷ []),
    )

length-entryid_generate_local : (dn : Bytes) → length (entryid_generate_local dn) ≡ length dn + 25
unfolding entryid_generate_local append_uint32 append_uint16 write_uint16 write_uint32
    mapi_local_uid append_string
length-entryid_generate_local dn = omega (arith, length-append dn (0 ∷ []))

module _ (p : Platform) (g_ascii_toupper : ℕ → ℕ) where
  IsGood-string :
      (t : ℕ) (s : Bytes)
      → t < 2 ^ 32
      → proptag_type t ≡ 0x001f
      → IsValid p s
      → IsGood p (t, string (some s))
  IsGood-string t s h e v = (h, (λ k. absurd (omega arith)), (λ k. absurd (omega arith)), (e, v))

  IsGood-int : (t n : ℕ) → t < 2 ^ 32 → proptag_type t ≡ 0x0003 → n < 2 ^ 32 → IsGood p (t, int n)
  IsGood-int t n h e v = (h, (λ k. absurd (omega arith)), (λ k. absurd (omega arith)), (e, v))

  IsGood-binary :
      (t : ℕ) (b : Bytes)
      → t < 2 ^ 32
      → proptag_type t ≡ 0x0102
      → length b < 2 ^ 16
      → IsGood p (t, binary b)
  IsGood-binary t b h e v = (h, (λ k. absurd (omega arith)), (λ k. absurd (omega arith)), (e, v))

  core-IsGood :
      (entryid name email_type email_addr : Bytes)
      → length entryid < 2 ^ 16
      → IsValid p name
      → IsValid p email_type
      → IsValid p email_addr
      → length email_type + length email_addr + 2 < 2 ^ 16
      → All (IsGood p) (core_values g_ascii_toupper entryid name email_type email_addr)
  unfolding core_values
  core-IsGood entryid name email_type email_addr short n t a fits = (
    IsGood-binary _ entryid (omega arith) refl short,
    (
      IsGood-string _ name (omega arith) refl n,
      (
        IsGood-int _ _ (omega arith) refl (omega arith),
        (
          IsGood-int _ _ (omega arith) refl (omega arith),
          (
            IsGood-string _ name (omega arith) refl n,
            (
              IsGood-string _ email_addr (omega arith) refl a,
              (
                IsGood-string _ email_type (omega arith) refl t,
                (
                  IsGood-int _ _ (omega arith) refl (omega arith),
                  (
                    IsGood-int _ _ (omega arith) refl (omega arith),
                    (
                      IsGood-binary _ _ (omega arith) refl (
                          omega (
                            arith,
                            length-search_key_generate g_ascii_toupper email_type email_addr,
                          )),
                      tt,
                    ),
                  ),
                ),
              ),
            ),
          ),
        ),
      ),
    ),
  )

  set_entry-IsStorableList :
      (list : List AddrEntry) (n : ℕ) (entry : AddrEntry)
      → n < length list
      → All (IsStorableEntry p) list
      → IsStorableEntry p entry
      → (list₁ : List AddrEntry) × (set_entry list n entry ≡ ok list₁)
        × (length list₁ ≡ length list)
        × All (IsStorableEntry p) list₁
  unfolding set_entry
  set_entry-IsStorableList [] n entry h s e = absurd (omega arith)
  set_entry-IsStorableList (x ∷ xs) zero entry h s e = (entry ∷ xs, refl, refl, (e, s.1))
  set_entry-IsStorableList (x ∷ xs) (suc n) entry h s e =
      let r = set_entry-IsStorableList xs n entry (omega arith) s.1 e in
      (x ∷ r.0, rw r.1 refl, ap suc r.2, (s.0, r.3))

  abbrev IsLocal : Bytes → Bytes → Bytes → Type 0
  IsLocal name dn email =
      (length dn < 65000)
      × IsValid p name
      × IsValid p dn
      × IsValid p email
      × IsValid p (codes "EX")
      × IsValid p (codes "FIXME")

  local-IsGood :
      (name dn email : Bytes)
      → IsLocal name dn email
      → All (IsGood p) (local_values g_ascii_toupper name dn email)
  unfolding local_values
  local-IsGood name dn email h =
      All-append (IsGood p)
        (core_values g_ascii_toupper (entryid_generate_local dn) name (codes "EX") dn) _
        (core-IsGood _ name (codes "EX") dn (omega (arith, length-entryid_generate_local dn)) h.1
          h.4 h.2 (omega arith))
        (
          IsGood-string _ (codes "FIXME") (omega arith) refl h.5,
          (IsGood-string _ email (omega arith) refl h.3, tt),
        )

  tags_fit : (vs : List (ℕ × Value)) → All (IsGood p) vs → All (λ (t, v). t < 2 ^ 32) vs
  tags_fit [] h = tt
  tags_fit (v ∷ vs) h = (h.0.0, tags_fit vs h.1)

  local_entry :
      (name dn email : Bytes)
      → IsLocal name dn email
      → IsStorableEntry p (map value_of (local_values g_ascii_toupper name dn email))
  local_entry name dn email h =
      (few, good p (local_values g_ascii_toupper name dn email) (local-IsGood name dn email h))
    where
      few : length (map value_of (local_values g_ascii_toupper name dn email)) < 2 ^ 16
      few = unfold local_values core_values in omega arith

  -- Where the texts convert to UTF-16 and the DN has less than 65000 bytes,
  -- e2k_addr_list_set_local sets an existing entry of a list that a rule can hold, and the list
  -- stays one of the same length that a rule can hold.
  addr_list_set_local-IsStorableList :
      (list : List AddrEntry) (n : ℕ) (name dn email : Bytes)
      → n < length list
      → IsStorableList p list
      → length dn < 65000
      → IsValid p name
      → IsValid p dn
      → IsValid p email
      → IsValid p (codes "EX")
      → IsValid p (codes "FIXME")
      → (list₁ : List AddrEntry) × (addr_list_set_local g_ascii_toupper list n name dn email
          ≡ ok list₁)
        × (length list₁ ≡ length list)
        × IsStorableList p list₁
  unfolding addr_list_set_local
  addr_list_set_local-IsStorableList list n name dn email h s short vn vd ve vx vf =
      let ok_ : IsLocal name dn email = (short, vn, vd, ve, vx, vf) in
      let r =
        set_entry-IsStorableList list n (map value_of (local_values g_ascii_toupper name dn email))
          h s.1 (local_entry name dn email ok_) in
      (
        r.0,
        rw
            (set_values-eq (local_values g_ascii_toupper name dn email)
              (tags_fit _ (local-IsGood name dn email ok_)))
            r.1,
        r.2,
        (omega (arith, r.2, s.0), r.3),
      )

-- ===== src/Ntlm/Parsing.antt =====
-- When xntlm_parse_challenge of server/xntlm/xntlm.c writes outside of its buffers.
use evolution_exchange.FolderTree.Placed.{ℕ-cases}
use evolution_exchange.Prelude.{
  ℕ, zero, suc, ◌+◌, ◌-◌, ◌*◌, ◌/◌, ◌%◌, ◌^◌, ◌≤◌, ◌<◌, Bool, true, false, not, ◌&&◌, ◌||◌, none,
  some, [], ◌∷◌, length, take, drop, ltb, leb, ◌==◌, if◌then◌else◌, Bytes, ◌≡◌, ◌⊎◌, inl, inr, refl,
  arith, Bool-cases, length-drop, lt→ltb, ltb→lt, ◌∙◌, le→ltb, ltb→le, ==→eq, ==-self, ne→==,
}
use evolution_exchange.Outcome.{ok, failed, fault, ◌>>=◌}
use evolution_exchange.Ntlm.{
  first, get_shorty, strip_from, strip_dup, Challenge, read_field, read_fields, copy_nonce,
  parse_challenge,
}

first-drop : (mem : Bytes) (pos : ℕ) → pos < length mem → (b : ℕ) × first (drop pos mem) ≡ ok b
first-drop [] pos h = absurd (ground arith)
first-drop (b ∷ bs) zero h = (b, refl)
first-drop (b ∷ bs) (suc pos) h = first-drop bs pos (omega arith)

get_shorty-ok : (mem : Bytes) (pos : ℕ) → pos + 2 ≤ length mem → (v : ℕ) × get_shorty mem pos ≡ ok v
unfolding get_shorty
get_shorty-ok mem pos h =
    let (low, l) = first-drop mem pos (omega arith) in
    let (high, g) = first-drop mem (suc pos) (omega arith) in (low + high * 2 ^ 8, ground arith)

strip_from-ok :
    (size used : ℕ) (mem : Bytes) (n : ℕ)
    → n % 2 ≡ 0
    → used + n / 2 < size
    → n ≤ length mem
    → (s : Bytes) × strip_from size used mem n ≡ ok s
unfolding strip_from
strip_from-ok size used mem zero e b h = ([], ground arith)
strip_from-ok size used mem (suc zero) e b h = absurd (omega arith)
strip_from-ok size used [] (suc (suc n)) e b h = absurd (ground arith)
strip_from-ok size used (c ∷ []) (suc (suc n)) e b h = absurd (ground arith)
strip_from-ok size used (c ∷ d ∷ mem) (suc (suc n)) e b h =
    let (s, r) = strip_from-ok size (suc used) mem n (omega arith) (omega arith) (omega arith) in
    (c ∷ s, ground arith)

strip_from-fault :
    (size used : ℕ) (mem : Bytes) (n : ℕ)
    → n % 2 ≡ 1
    → size ≤ used + n / 2 + 1
    → strip_from size used mem n ≡ fault
unfolding strip_from
strip_from-fault size used mem zero e b = absurd (omega arith)
strip_from-fault size used [] (suc zero) e b = refl
strip_from-fault size used (c ∷ mem) (suc zero) e b = ground arith
strip_from-fault size used [] (suc (suc n)) e b = refl
strip_from-fault size used (c ∷ mem) (suc (suc n)) e b =
    let ih = strip_from-fault size (suc used) (drop 1 mem) n (omega arith) (omega arith) in
    ground arith

strip_dup-ok :
    (mem : Bytes) (n : ℕ) → n % 2 ≡ 0 → n ≤ length mem → (s : Bytes) × strip_dup mem n ≡ ok s
unfolding strip_dup
strip_dup-ok mem n e h = strip_from-ok (n / 2 + 1) 0 mem n e (omega arith) h

strip_dup-fault : (mem : Bytes) (n : ℕ) → n % 2 ≡ 1 → strip_dup mem n ≡ fault
unfolding strip_dup
strip_dup-fault mem n e = strip_from-fault (n / 2 + 1) 0 mem n e (omega arith)

module _ (want_nt want_w2k : Bool) where
  -- Whether strip_dup copies a field of this type.
  abbrev pub is_wanted : ℕ → Bool
  is_wanted type = (type == 2 && want_nt) || (type == 4 && want_w2k)

  read_field-ok :
      (mem : Bytes) (type dlen : ℕ) (c : Challenge)
      → (is_wanted type ≡ true → dlen % 2 ≡ 0)
      → dlen ≤ length mem
      → (c' : Challenge) × read_field want_nt want_w2k mem type dlen c ≡ ok c'
  unfolding read_field
  read_field-ok mem type dlen c e h = elim (Bool-cases (is_wanted type)) [
    | inl w ↦
        let (s, r) = strip_dup-ok mem dlen (e w) h in
        elim (Bool-cases (type == 2)) [
          | inl t ↦ (record c { nt_domain = some s }, ground arith)
          | inr t ↦ (record c { w2k_domain = some s }, ground arith)
        ]
    | inr w ↦ (c, ground arith)
  ]

  read_field-fault :
      (mem : Bytes) (type dlen : ℕ) (c : Challenge)
      → is_wanted type ≡ true
      → dlen % 2 ≡ 1
      → read_field want_nt want_w2k mem type dlen c ≡ fault
  unfolding read_field
  read_field-fault mem type dlen c w e = ground (arith, strip_dup-fault mem dlen e)

  -- The loop at `off` comes to a field that it copies and that has an odd length.
  pub data MeetsOdd (chall : Bytes) (len : ℕ) : ℕ → Type 0 where
    here :
        {off : ℕ} (type dlen : ℕ)
        → off + 4 < len
        → get_shorty chall off ≡ ok type
        → get_shorty chall (off + 2) ≡ ok dlen
        → off + 4 + dlen ≤ len
        → is_wanted type ≡ true
        → dlen % 2 ≡ 1
        → MeetsOdd chall len off
    later :
        {off : ℕ} (type dlen : ℕ)
        → off + 4 < len
        → get_shorty chall off ≡ ok type
        → get_shorty chall (off + 2) ≡ ok dlen
        → off + 4 + dlen ≤ len
        → MeetsOdd chall len (off + 4 + dlen)
        → MeetsOdd chall len off

  -- A round that does not leave the loop.
  read_fields_next :
      (fuel : ℕ) (chall : Bytes) (len off type dlen : ℕ) (c : Challenge)
      → off + 4 < len
      → get_shorty chall off ≡ ok type
      → get_shorty chall (off + 2) ≡ ok dlen
      → off + 4 + dlen ≤ len
      → read_fields want_nt want_w2k (suc fuel) chall len off c ≡ (
          read_field want_nt want_w2k (drop (off + 4) chall) type dlen c >>= λ c'.
          read_fields want_nt want_w2k fuel chall len (off + 4 + dlen) c')
  unfolding read_fields
  read_fields_next fuel chall len off type dlen c a t d g =
      rw (lt→ltb off (len - 4) (omega arith), t, d, le→ltb len (off + 4 + dlen) g) refl

  read_fields-ok :
      (fuel : ℕ) (chall : Bytes) (len off : ℕ) (c : Challenge)
      → len ≤ length chall
      → off ≤ len
      → len < fuel + off
      → ¬ MeetsOdd chall len off
      → (c' : Challenge) × read_fields want_nt want_w2k fuel chall len off c ≡ ok c'
  unfolding read_fields
  read_fields-ok zero chall len off c l o f m = absurd (omega arith)
  read_fields-ok (suc fuel) chall len off c l o f m = elim (Bool-cases (ltb off (len - 4))) [
    | inr e ↦ (c, rw e refl)
    | inl e ↦
        let a : off + 4 < len = ground (arith, ltb→lt off (len - 4) e) in
        let (type, t) = get_shorty-ok chall off (omega arith) in
        let (dlen, d) = get_shorty-ok chall (off + 2) (omega arith) in
        elim (Bool-cases (ltb len (off + 4 + dlen))) [
          | inl g ↦ (c, rw (e, t, d, g) refl)
          | inr g ↦
              let b = ltb→le len (off + 4 + dlen) g in
              let even : is_wanted type ≡ true → dlen % 2 ≡ 0 = λ w. elim (ℕ-cases (dlen % 2)) [
                | inr z ↦ z
                | inl z ↦ absurd (m (here type dlen a t d b w (omega arith)))
              ] in
              let (c1, r) =
                read_field-ok (drop (off + 4) chall) type dlen c even
                  (ground (arith, length-drop (off + 4) chall)) in
              let (c2, q) =
                read_fields-ok fuel chall len (off + 4 + dlen) c1 l b (omega arith)
                  (λ k. m (later type dlen a t d b k)) in
              (c2, read_fields_next fuel chall len off type dlen c a t d b ∙ rw r q)
        ]
  ]

  read_fields-fault :
      (fuel : ℕ) (chall : Bytes) (len off : ℕ) (c : Challenge)
      → len ≤ length chall
      → off ≤ len
      → len < fuel + off
      → MeetsOdd chall len off
      → read_fields want_nt want_w2k fuel chall len off c ≡ fault
  read_fields-fault zero chall len off c l o f m = absurd (omega arith)
  read_fields-fault (suc fuel) chall len off c l o f (here type dlen a t d g w e) =
      read_fields_next fuel chall len off type dlen c a t d g
      ∙ rw (read_field-fault (drop (off + 4) chall) type dlen c w e) refl
  read_fields-fault (suc fuel) chall len off c l o f (later type dlen a t d g m) =
      read_fields_next fuel chall len off type dlen c a t d g
      ∙ elim (Bool-cases (is_wanted type && dlen % 2 == 1)) [
        | inl w ↦
            rw
              (read_field-fault (drop (off + 4) chall) type dlen c (ground arith)
                (ground (arith, ==→eq (dlen % 2) 1)))
              refl
        | inr w ↦
            let (c1, r) =
              read_field-ok (drop (off + 4) chall) type dlen c
                (λ v. ground (arith, ==-self (dlen % 2), ne→== (dlen % 2) 1))
                (ground (arith, length-drop (off + 4) chall)) in
            rw r (read_fields-fault fuel chall len (off + 4 + dlen) c1 l g (omega arith) m)
      ]

-- A challenge is not searched for domains when the caller wants none.
wanted :
    (want_nt want_w2k : Bool) (chall : Bytes) (len off : ℕ)
    → MeetsOdd want_nt want_w2k chall len off
    → (not want_nt && not want_w2k) ≡ false
wanted want_nt want_w2k chall len off (here type dlen a t d g w e) = ground arith
wanted want_nt want_w2k chall len off (later type dlen a t d g m) =
    wanted want_nt want_w2k chall len (off + 4 + dlen) m

-- What xntlm_parse_challenge tests before its loop, which starts at `off`.
pub record IsHeaded (chall : Bytes) (len off : ℕ) : Type 0 where
  pub held : len ≤ length chall
  pub long : 48 ≤ len
  pub offset : get_shorty chall 44 ≡ ok off
  pub dlen : ℕ
  pub field : get_shorty chall 40 ≡ ok dlen
  pub inside : off + dlen ≤ len

reads : (chall : Bytes) (len : ℕ) → len ≤ length chall → 48 ≤ len → leb 32 (length chall) ≡ true
reads chall len h g = ground arith

parse_headed :
    (want_nonce want_nt want_w2k : Bool) (chall : Bytes) (len off : ℕ)
    → IsHeaded chall len off
    → (c : Challenge) × parse_challenge want_nonce want_nt want_w2k chall len ≡ (
        if not want_nt && not want_w2k
        then ok c
        else read_fields want_nt want_w2k (suc len) chall len off c)
unfolding parse_challenge copy_nonce
parse_headed true want_nt want_w2k chall len off h = (
  record { nonce = some (take 8 (drop 24 chall)); nt_domain = none; w2k_domain = none },
  rw
      (
        le→ltb len 48 h.long,
        h.offset,
        h.field,
        le→ltb len (off + h.dlen) h.inside,
        reads chall len h.held h.long,
      )
      refl,
)
parse_headed false want_nt want_w2k chall len off h = (
  record { nonce = none; nt_domain = none; w2k_domain = none },
  rw (le→ltb len 48 h.long, h.offset, h.field, le→ltb len (off + h.dlen) h.inside) refl,
)

-- The loop of a challenge comes to a field that it copies and that has an odd length.
abbrev pub HasOddField : Bool → Bool → Bytes → ℕ → Type 0
HasOddField want_nt want_w2k chall len =
    (off : ℕ) × (_ : IsHeaded chall len off) × MeetsOdd want_nt want_w2k chall len off

-- xntlm_parse_challenge, of a length that the memory has, returns TRUE or FALSE without an access
-- outside of a buffer, unless its loop comes to a domain field that the caller asks for and that
-- has an odd length.
pub parse_challenge-ok :
    (want_nonce want_nt want_w2k : Bool) (chall : Bytes) (len : ℕ)
    → len ≤ length chall
    → ¬ HasOddField want_nt want_w2k chall len
    → (parse_challenge want_nonce want_nt want_w2k chall len ≡ failed)
      ⊎ ((c : Challenge) × parse_challenge want_nonce want_nt want_w2k chall len ≡ ok c)
unfolding parse_challenge
parse_challenge-ok want_nonce want_nt want_w2k chall len l m = elim (Bool-cases (ltb len 48)) [
  | inl e ↦ inl (rw e refl)
  | inr e ↦
      let long = ltb→le len 48 e in
      let (off, o) = get_shorty-ok chall 44 (omega arith) in
      let (dlen, d) = get_shorty-ok chall 40 (omega arith) in
      elim (Bool-cases (ltb len (off + dlen))) [
        | inl g ↦ inl (rw (e, o, d, g) refl)
        | inr g ↦
            let inside = ltb→le len (off + dlen) g in
            let h : IsHeaded chall len off = record {
              held = l;
              long = long;
              offset = o;
              dlen = dlen;
              field = d;
              inside = inside;
            } in
            let (c, p) = parse_headed want_nonce want_nt want_w2k chall len off h in
            elim (Bool-cases (not want_nt && not want_w2k)) [
              | inl w ↦ inr (c, p ∙ rw w refl)
              | inr w ↦
                  let (c1, q) =
                    read_fields-ok want_nt want_w2k (suc len) chall len off c l (omega arith)
                      (omega arith) (λ k. m (off, h, k)) in
                  inr (c1, p ∙ rw w q)
            ]
      ]
]

-- When the loop of xntlm_parse_challenge comes to a domain field that the caller asks for and
-- that has an odd length, a byte is written outside of the buffer of strip_dup.
pub parse_challenge-fault :
    (want_nonce want_nt want_w2k : Bool) (chall : Bytes) (len : ℕ)
    → HasOddField want_nt want_w2k chall len
    → parse_challenge want_nonce want_nt want_w2k chall len ≡ fault
parse_challenge-fault want_nonce want_nt want_w2k chall len (off, h, m) =
    let (c, p) = parse_headed want_nonce want_nt want_w2k chall len off h in
    p
    ∙ rw (wanted want_nt want_w2k chall len off m) (
        read_fields-fault want_nt want_w2k (suc len) chall len off c h.held
          (ground (arith, h.inside)) (omega arith) m)

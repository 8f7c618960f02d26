-- ===== src/Action/RoundTrip.antt =====
-- A storable action is read back, but for the key of a MOVE or COPY.
use evolution_exchange.Prelude.{
  ℕ, suc, ◌+◌, ◌-◌, ◌%◌, ◌<◌, ◌≡◌, refl, ap, false, some, List, [], ◌∷◌, ◌++◌, Bytes, length,
  length-append, append_assoc, drop-append, All, pos, below, arith,
}
use evolution_exchange.Outcome.{Outcome, ok, ◌>>=◌}
use evolution_exchange.Platform.{Platform, HasUnicode}
use evolution_exchange.PropValue.{PropValue, extract_propvalue}
use evolution_exchange.PropValue.RoundTrip.{IsStorable, written, written-Reads}
use evolution_exchange.Wire.{
  Cursor, Reader, window, copy_bytes, read_byte, append_uint32, extract_uint32, append_uint16,
  extract_uint16, append_byte, append_binary, extract_binary,
}
use evolution_exchange.Wire.Reads.{Reads, Reads-bind, window_eq, advance-window}
use evolution_exchange.Wire.RoundTrip.{
  uint32-Reads_fits, uint16-Reads_fits, binary-Reads, copy_bytes-append,
}
use evolution_exchange.Restriction.Step.{advance_byte}
use evolution_exchange.Loops.{extract_many}
use evolution_exchange.Loops.Reads.{concat_map, many-Reads}
use evolution_exchange.Strings.{same_bytes}
use evolution_exchange.Action.{
  ActionType, move, copy, reply, oof_reply, defer, bounce, forward, delegate, tag, delete,
  action_code, action_of_code, AddrEntry, Act, xfer, reply_to, defer_data, bounce_code, addr_list,
  proptag, nothing, Action, xfer_prefix, xfer_prefix_len, mapi_folder, expect_one, strip_prefix,
  strip_folder, extract_xfer, extract_reply, extract_entry, extract_addr_list, extract_act,
  labelled, extract_fields, extract_action, append_xfer,
}
use evolution_exchange.Action.Storable.{
  IsStorableEntry, IsStorableXfer, IsStorableReply, IsStorableList, IsStorableAct, written_entry,
  written_act, written_fields, written_action, IsStorableAction, reread_act, reread_action,
}

-- For a call that is given exactly the bytes of its object.
abbrev pub Decodes : {A : Type 0} → (Cursor → Outcome A) → Bytes → A → Type 0
Decodes r written a = (rest : Bytes) → r (window (written ++ rest) (length written)) ≡ ok a

Decodes-bind :
    {A B : Type 0} (r : Reader A) (k : A → Cursor → Outcome B) (xs ys : Bytes) (a : A) (b : B)
    → Reads r xs a
    → Decodes (k a) ys b
    → Decodes (λ c. r c >>= λ (x, c₁). k x c₁) (xs ++ ys) b
Decodes-bind r k xs ys a b first second rest =
    rw (append_assoc xs ys rest, length-append xs ys, first (ys ++ rest) (length ys)) (second rest)

Decodes-end :
    {A B : Type 0} (r : Reader A) (g : A → Outcome B) (xs : Bytes) (a : A) (b : B)
    → Reads r xs a
    → g a ≡ ok b
    → Decodes (λ c. r c >>= λ (x, c₁). g x) xs b
Decodes-end r g xs a b first e rest =
    rw (window_eq (xs ++ rest) (length xs) (length xs + 0) (omega arith), first rest 0) e

one-Reads : Reads expect_one (append_byte 1) tt
unfolding expect_one append_byte read_byte
one-Reads rest n = rw enough (ap (λ c. ok (tt, c)) (advance-window (1 ∷ []) rest n))
  where
    enough : below (pos (1 + n)) 1 ≡ false
    enough = ground arith

strip_prefix-append : (s : Bytes) → 0 < length s → strip_prefix (xfer_prefix ++ s) ≡ ok s
unfolding strip_prefix same_bytes xfer_prefix
strip_prefix-append s h = ground arith

prefix_length : length xfer_prefix ≡ 36
unfolding xfer_prefix
prefix_length = refl

module _ (p : Platform) where
  strip_folder-key : (f : Bytes) → strip_folder p (mapi_folder ∷ f) ≡ ok (f ++ p.slack ∷ [])
  unfolding strip_folder
  strip_folder-key f = refl

  append_xfer_binaries :
      (s f : Bytes)
      → length f ≡ 48
      → append_xfer s f
        ≡ append_byte 1 ++ (append_binary (xfer_prefix ++ s) ++ append_binary (mapi_folder ∷ f))
  unfolding append_xfer append_binary append_byte
  append_xfer_binaries s f h = simp (append_assoc, prefixed, ap suc h)
    where
      prefixed : length (xfer_prefix ++ s) ≡ length s + xfer_prefix_len
      prefixed = omega (arith, length-append xfer_prefix s, prefix_length)

  xfer-Decodes :
      (s f : Bytes)
      → IsStorableXfer p s f
      → Decodes (extract_xfer p) (append_xfer s f) (xfer s (f ++ p.slack ∷ []))
  unfolding extract_xfer
  xfer-Decodes s f h = rw (append_xfer_binaries s f h.2) (
      Decodes-bind expect_one _ (append_byte 1) _ tt _ one-Reads (
        Decodes-bind extract_binary _ (append_binary (xfer_prefix ++ s)) _ (xfer_prefix ++ s) _
          (binary-Reads _ (omega (arith, length-append xfer_prefix s, prefix_length)))
          (λ rest. rw (strip_prefix-append s h.0) (
            Decodes-end extract_binary (λ key. strip_folder p key >>= λ k. ok (xfer s k))
              (append_binary (mapi_folder ∷ f)) (mapi_folder ∷ f) (xfer s (f ++ p.slack ∷ []))
              (binary-Reads (mapi_folder ∷ f) (omega arith)) (rw (strip_folder-key f)) rest))))

  reply-Decodes :
      (e g : Bytes) → IsStorableReply p e g → Decodes extract_reply (e ++ g) (reply_to e g)
  unfolding extract_reply
  reply-Decodes e g h rest = rw (
    append_assoc e g rest,
    length-append e g,
    h.1,
    long,
    shorter,
    copy_bytes-append e (g ++ rest),
    drop-append e (g ++ rest),
    guid,
  )
    where
      long : below (pos (length e + 16)) 17 ≡ false
      long = ground (arith, h.0)

      shorter : length e + 16 - 16 ≡ length e
      shorter = omega arith

      guid : copy_bytes 16 (g ++ rest) ≡ ok g
      guid = rw (← h.1) (copy_bytes-append g rest)

  many_props-Reads :
      HasUnicode p
      → p.big_endian ≡ false
      → (props : List PropValue) → All (IsStorable p) props
      → All (λ pv. Reads (extract_propvalue p) (written p pv) pv) props
  many_props-Reads laws little [] h = tt
  many_props-Reads laws little (pv ∷ props) h =
      (written-Reads p laws little pv h.0, many_props-Reads laws little props h.1)

  module _ (laws : HasUnicode p) (little : p.big_endian ≡ false) where
    entry-Reads :
        (entry : AddrEntry)
        → IsStorableEntry p entry
        → Reads (extract_entry p) (written_entry p entry) entry
    unfolding extract_entry written_entry
    entry-Reads entry h = Reads-bind expect_one _ (append_byte 1) _ tt entry one-Reads (
        Reads-bind extract_uint16 _ (append_uint16 (length entry)) _ (length entry) entry
          (uint16-Reads_fits _ h.0)
          (many-Reads (extract_propvalue p) (written p) entry
            (many_props-Reads laws little entry h.1)))

    entries-Reads :
        (es : List AddrEntry)
        → All (IsStorableEntry p) es
        → All (λ e. Reads (extract_entry p) (written_entry p e) e) es
    entries-Reads [] h = tt
    entries-Reads (e ∷ es) h = (entry-Reads e h.0, entries-Reads es h.1)

    list-Decodes :
        (es : List AddrEntry)
        → IsStorableList p es
        → Decodes (extract_addr_list p) (written_act p (addr_list es)) (addr_list es)
    unfolding extract_addr_list written_act
    list-Decodes es h =
        Decodes-bind extract_uint16 _ (append_uint16 (length es)) _ (length es) _
          (uint16-Reads_fits _ h.0)
          (Decodes-end (extract_many (extract_entry p) (length es)) (λ x. ok (addr_list x))
            (concat_map (written_entry p) es) es (addr_list es)
            (many-Reads (extract_entry p) (written_entry p) es (entries-Reads es h.1)) refl)

    act-Decodes :
        (t : ActionType) (a : Act)
        → IsStorableAct p t a
        → Decodes (extract_act p (some t)) (written_act p a) (reread_act p a)
    unfolding extract_act written_act
    act-Decodes move (xfer s f) h = xfer-Decodes s f h
    act-Decodes copy (xfer s f) h = xfer-Decodes s f h
    act-Decodes reply (reply_to e g) h = reply-Decodes e g h
    act-Decodes oof_reply (reply_to e g) h = reply-Decodes e g h
    act-Decodes defer (defer_data b) h = λ rest. rw (copy_bytes-append b rest)
    act-Decodes bounce (bounce_code n) h =
        Decodes-end extract_uint32 (λ x. ok (bounce_code x)) (append_uint32 n) n (bounce_code n)
          (uint32-Reads_fits n h) refl
    act-Decodes forward (addr_list es) h = list-Decodes es h
    act-Decodes delegate (addr_list es) h = list-Decodes es h
    act-Decodes tag (proptag pv) h =
        Decodes-end (extract_propvalue p) (λ x. ok (proptag x)) (written p pv) pv (proptag pv)
          (written-Reads p laws little pv h) refl
    act-Decodes delete nothing h = λ rest. refl
    act-Decodes _ _ h = absurd h

  action_of_code-action_code : (t : ActionType) → action_of_code (action_code t % 256) ≡ some t
  unfolding action_of_code action_code
  action_of_code-action_code move = refl
  action_of_code-action_code _ = refl

  module _ (laws : HasUnicode p) (little : p.big_endian ≡ false) where
    -- Behind the type byte: two numbers, then what the type asks for.
    behind_type-Decodes :
        (a : Action)
        → IsStorableAction p a
        → Decodes
            (λ c. extract_uint32 c >>= λ (flavor, c₁). extract_uint32 c₁ >>= λ (flags, c₂).
              extract_act p (some a.type) c₂ >>= λ act.
              labelled
                (some a.type)
                λ t. record { type = t; flavor = flavor; flags = flags; act = act })
            (append_uint32 a.flavor ++ (append_uint32 a.flags ++ written_act p a.act))
            (reread_action p a)
    behind_type-Decodes a s =
        Decodes-bind extract_uint32 _ (append_uint32 a.flavor) _ a.flavor _
          (uint32-Reads_fits _ s.flavor_fits)
          (Decodes-bind extract_uint32 _ (append_uint32 a.flags) _ a.flags _
            (uint32-Reads_fits _ s.flags_fits)
            (λ rest. rw (act-Decodes laws little a.type a.act s.act_fits rest)))

    fields-Decodes :
        (a : Action)
        → IsStorableAction p a
        → Decodes (extract_fields p) (written_fields p a) (reread_action p a)
    unfolding extract_fields written_fields append_byte read_byte
    fields-Decodes a s rest =
        rw
          (
            below_one (length (behind a)),
            advance_byte (action_code a.type % 256) (behind a ++ rest) (length (behind a)),
            action_of_code-action_code a.type,
          )
          (behind_type-Decodes a s rest)
      where
        below_one : (m : ℕ) → below (pos (suc m)) 1 ≡ false
        below_one m = ground arith

        behind : Action → Bytes
        behind b = append_uint32 b.flavor ++ (append_uint32 b.flags ++ written_act p b.act)

    -- A storable action is read back as written, but for the last byte of a key.
    pub action-Reads :
        (a : Action)
        → IsStorableAction p a
        → Reads (extract_action p) (written_action p a) (reread_action p a)
    unfolding extract_action written_action
    action-Reads a s =
        Reads-bind extract_uint16 _ (append_uint16 (length (written_fields p a)))
          (written_fields p a) (length (written_fields p a)) (reread_action p a)
          (uint16-Reads_fits _ s.length_fits)
          λ rest n.
            rw (fields-Decodes a s rest)
              (ap (λ c. ok (reread_action p a, c)) (advance-window (written_fields p a) rest n))

    pub actions-All :
        (as_ : List Action)
        → All (IsStorableAction p) as_
        → All (λ a. Reads (extract_action p) (written_action p a) (reread_action p a)) as_
    actions-All [] h = tt
    actions-All (a ∷ as_) h = (action-Reads a h.0, actions-All as_ h.1)

-- ===== src/Action/Storable.antt =====
-- The actions that the binary form can hold, the bytes that stand for them, and what is read back.
use evolution_exchange.Prelude.{
  ℕ, zero, suc, ◌+◌, ◌<◌, ◌≡◌, refl, ap, List, [], ◌∷◌, ◌++◌, Bytes, length, take, All, arith, ◌^◌,
}
use evolution_exchange.Outcome.{ok}
use evolution_exchange.Platform.{Platform}
use evolution_exchange.PropValue.{append_propvalue}
use evolution_exchange.PropValue.RoundTrip.{IsStorable, written, append_propvalue-IsStorable}
use evolution_exchange.Wire.{append_uint32, append_uint16, append_byte}
use evolution_exchange.Wire.RoundTrip.{patch_uint16-append}
use evolution_exchange.Loops.Reads.{concat_map, append_many-eq}
use evolution_exchange.Restriction.Storable.{All-storable}
use evolution_exchange.Action.{
  ActionType, move, copy, reply, oof_reply, defer, bounce, forward, delegate, tag, delete,
  action_code, AddrEntry, Act, xfer, reply_to, defer_data, bounce_code, addr_list, proptag, nothing,
  Action, append_xfer, append_entry, append_addr_list, append_act, append_action,
}

module _ (p : Platform) where
  abbrev pub IsStorableEntry : AddrEntry → Type 0
  IsStorableEntry entry = (length entry < 2 ^ 16) × All (IsStorable p) entry

  -- A store's entryid that is not empty, and a folder's source key of 48 bytes.
  abbrev pub IsStorableXfer : Bytes → Bytes → Type 0
  IsStorableXfer s f = (0 < length s) × (length s + 36 < 2 ^ 16) × (length f ≡ 48)

  abbrev pub IsStorableReply : Bytes → Bytes → Type 0
  IsStorableReply e g = (0 < length e) × (length g ≡ 16)

  abbrev pub IsStorableList : List AddrEntry → Type 0
  IsStorableList es = (length es < 2 ^ 16) × All IsStorableEntry es

  -- The union member belongs to the type, and fits.
  abbrev pub IsStorableAct : ActionType → Act → Type 0
  IsStorableAct move (xfer s f) = IsStorableXfer s f
  IsStorableAct copy (xfer s f) = IsStorableXfer s f
  IsStorableAct reply (reply_to e g) = IsStorableReply e g
  IsStorableAct oof_reply (reply_to e g) = IsStorableReply e g
  IsStorableAct defer (defer_data b) = Unit {0}
  IsStorableAct bounce (bounce_code n) = n < 2 ^ 32
  IsStorableAct forward (addr_list es) = IsStorableList es
  IsStorableAct delegate (addr_list es) = IsStorableList es
  IsStorableAct tag (proptag pv) = IsStorable p pv
  IsStorableAct delete nothing = Unit {0}
  IsStorableAct _ _ = ⊥

  unfoldable pub written_entry : AddrEntry → Bytes
  written_entry entry =
      append_byte 1 ++ (append_uint16 (length entry) ++ concat_map (written p) entry)

  unfoldable pub written_act : Act → Bytes
  written_act (xfer s f) = append_xfer s f
  written_act (reply_to e g) = e ++ g
  written_act (defer_data b) = b
  written_act (bounce_code n) = append_uint32 n
  written_act (addr_list es) = append_uint16 (length es) ++ concat_map written_entry es
  written_act (proptag pv) = written p pv
  written_act nothing = []

  unfoldable pub written_fields : Action → Bytes
  written_fields a =
      append_byte (action_code a.type)
      ++ (append_uint32 a.flavor ++ (append_uint32 a.flags ++ written_act a.act))

  unfoldable pub written_action : Action → Bytes
  written_action a = append_uint16 (length (written_fields a)) ++ written_fields a

  pub record IsStorableAction (a : Action) : Type 0 where
    pub flavor_fits : a.flavor < 2 ^ 32
    pub flags_fits : a.flags < 2 ^ 32
    pub act_fits : IsStorableAct a.type a.act
    pub length_fits : length (written_fields a) < 2 ^ 16

  -- What reading makes of a MOVE or COPY: the folder's key has a byte too much at its end.
  abbrev pub reread_act : Act → Act
  reread_act (xfer s f) = xfer s (f ++ p.slack ∷ [])
  reread_act (reply_to e g) = reply_to e g
  reread_act (defer_data b) = defer_data b
  reread_act (bounce_code n) = bounce_code n
  reread_act (addr_list es) = addr_list es
  reread_act (proptag pv) = proptag pv
  reread_act nothing = nothing

  abbrev pub reread_action : Action → Action
  reread_action a = record a { act = reread_act a.act }

  entries_written :
      (es : List AddrEntry)
      → All IsStorableEntry es
      → All (λ e. append_entry p e ≡ ok (written_entry e)) es
  unfolding append_entry written_entry
  entries_written [] h = tt
  entries_written (e ∷ es) h = (
    rw (append_many-eq (append_propvalue p) (written p) e (All-storable p e h.0.1)),
    entries_written es h.1,
  )

  list_written :
      (es : List AddrEntry)
      → IsStorableList es
      → append_addr_list p es ≡ ok (written_act (addr_list es))
  unfolding append_addr_list written_act
  list_written es h = rw (append_many-eq (append_entry p) written_entry es (entries_written es h.1))

  take_all : (g : Bytes) (n : ℕ) → length g ≡ n → take n g ≡ g
  take_all [] zero h = refl
  take_all [] (suc n) h = refl
  take_all (b ∷ g) zero h = absurd (omega arith)
  take_all (b ∷ g) (suc n) h = ap (λ t. b ∷ t) (take_all g n (omega arith))

  act_written :
      (t : ActionType) (a : Act) → IsStorableAct t a → append_act p t a ≡ ok (written_act a)
  unfolding append_act written_act
  act_written move (xfer s f) h = refl
  act_written copy (xfer s f) h = refl
  act_written reply (reply_to e g) h = rw (take_all g 16 h.1)
  act_written oof_reply (reply_to e g) h = rw (take_all g 16 h.1)
  act_written defer (defer_data b) h = refl
  act_written bounce (bounce_code n) h = refl
  act_written forward (addr_list es) h = list_written es h
  act_written delegate (addr_list es) h = list_written es h
  act_written tag (proptag pv) h = append_propvalue-IsStorable p pv h
  act_written delete nothing h = refl
  act_written _ _ h = absurd h

  pub append_action-storable :
      (a : Action) → IsStorableAction a → append_action p a ≡ ok (written_action a)
  unfolding append_action written_action written_fields
  append_action-storable a s =
      rw (act_written a.type a.act s.act_fits) (ap ok (patch_uint16-append _))

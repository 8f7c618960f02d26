-- ===== src/Action.antt =====
-- Rule actions: the types of server/lib/e2k-rule.h and the binary form of
-- server/lib/e2k-action.c.
pub mod Storable
pub mod RoundTrip
pub mod Array
pub mod Overrun
pub mod Build
use evolution_exchange.Prelude.{
  ℕ, zero, suc, ◌+◌, ◌-◌, ◌%◌, ◌^◌, Bool, true, false, ◌&&◌, ◌||◌, not, Option, none, some, List,
  [], ◌∷◌, ◌++◌, leb, ◌==◌, if◌then◌else◌, Bytes, length, take, drop, below, ℤ, pos, negsuc,
}
use evolution_exchange.Strings.{same_bytes}
use evolution_exchange.Outcome.{Outcome, ok, failed, fault, starved, ◌>>=◌}
use evolution_exchange.Platform.{Platform}
use evolution_exchange.PropValue.{PropValue, append_propvalue, extract_propvalue}
use evolution_exchange.Wire.{
  Cursor, Reader, window, advance, copy_bytes, read_byte, append_uint32, extract_uint32,
  append_uint16, extract_uint16, write_uint16, append_byte, extract_binary, rounds, patch_uint32,
  patch_uint16,
}
use evolution_exchange.Loops.{extract_many, append_many}

-- E2kActionType
pub data ActionType : Type 0 where
  move copy reply oof_reply defer bounce forward delegate tag delete mark_as_read : ActionType

unfoldable pub action_code : ActionType → ℕ
action_code move = 1
action_code copy = 2
action_code reply = 3
action_code oof_reply = 4
action_code defer = 5
action_code bounce = 6
action_code forward = 7
action_code delegate = 8
action_code tag = 9
action_code delete = 10
action_code mark_as_read = 11

-- The labels of a switch on the type byte; `none` is its default.
unfoldable pub action_of_code : ℕ → Option ActionType
action_of_code (suc zero) = some move
action_of_code (suc (suc zero)) = some copy
action_of_code (suc (suc (suc zero))) = some reply
action_of_code (suc (suc (suc (suc zero)))) = some oof_reply
action_of_code (suc (suc (suc (suc (suc zero))))) = some defer
action_of_code (suc (suc (suc (suc (suc (suc zero)))))) = some bounce
action_of_code (suc (suc (suc (suc (suc (suc (suc zero))))))) = some forward
action_of_code (suc (suc (suc (suc (suc (suc (suc (suc zero)))))))) = some delegate
action_of_code (suc (suc (suc (suc (suc (suc (suc (suc (suc zero))))))))) = some tag
action_of_code (suc (suc (suc (suc (suc (suc (suc (suc (suc (suc zero)))))))))) = some delete
action_of_code (suc (suc (suc (suc (suc (suc (suc (suc (suc (suc (suc zero))))))))))) =
    some mark_as_read
action_of_code _ = none

-- An E2kAddrEntry is its array of values, an E2kAddrList the array of its entries.
abbrev pub AddrEntry : Type 0
AddrEntry = List PropValue

-- The union of an E2kAction; `nothing` where no member is used.
pub data Act : Type 0 where
  xfer : Bytes → Bytes → Act
  reply_to : Bytes → Bytes → Act
  defer_data : Bytes → Act
  bounce_code : ℕ → Act
  addr_list : List AddrEntry → Act
  proptag : PropValue → Act
  nothing : Act

-- E2kAction
pub record Action : Type 0 where
  pub type : ActionType
  pub flavor : ℕ
  pub flags : ℕ
  pub act : Act

-- E2K_ACTION_XFER_STORE_ENTRYID_PREFIX and its length
unfoldable pub xfer_prefix : Bytes
xfer_prefix =
    0x00 ∷ 0x00 ∷ 0x00 ∷ 0x00 ∷ 0x38 ∷ 0xa1 ∷ 0xbb ∷ 0x10 ∷ 0x05 ∷ 0xe5 ∷ 0x10 ∷ 0x1a ∷ 0xa1 ∷ 0xbb
    ∷ 0x08 ∷ 0x00 ∷ 0x2b ∷ 0x2a ∷ 0x56 ∷ 0xc2 ∷ 0x00 ∷ 0x00 ∷ 0x45 ∷ 0x4d ∷ 0x53 ∷ 0x4d ∷ 0x44
    ∷ 0x42 ∷ 0x2e ∷ 0x44 ∷ 0x4c ∷ 0x4c ∷ 0x00 ∷ 0x00 ∷ 0x00 ∷ 0x00 ∷ []

abbrev pub xfer_prefix_len : ℕ
xfer_prefix_len = 36

-- MAPI_FOLDER of server/lib/mapi.h
abbrev pub mapi_folder : ℕ
mapi_folder = 3

-- `*len < 1 || **data != 1` and the step over that byte.
unfoldable pub expect_one : Reader (Unit {0})
expect_one c =
    if below c.len 1
    then failed
    else (read_byte c.ptr >>= λ b. if b == 1 then ok (tt, advance 1 c) else failed)

-- "Remove the constant part"
unfoldable pub strip_prefix : Bytes → Outcome Bytes
strip_prefix id =
    if leb (length id) xfer_prefix_len || not (same_bytes (take xfer_prefix_len id) xfer_prefix)
    then failed
    else ok (drop xfer_prefix_len id)

-- The template GUID is the last 16 bytes.
unfoldable pub extract_reply : Cursor → Outcome Act
extract_reply c =
    if below c.len 17
    then failed
    else (copy_bytes (rounds c.len - 16) c.ptr >>= λ entryid.
        copy_bytes 16 (drop (rounds c.len - 16) c.ptr) >>= λ guid. ok (reply_to entryid guid))

unfoldable pub append_xfer : Bytes → Bytes → Bytes
append_xfer store_entryid folder_source_key =
    append_byte 1
    ++ (append_uint16 (length store_entryid + xfer_prefix_len)
        ++ (xfer_prefix
            ++ (store_entryid
                ++ (append_uint16 49 ++ (append_byte mapi_folder ++ folder_source_key)))))

-- `type`, where a switch label belongs to it; else the call has failed already.
abbrev pub labelled : Option ActionType → (ActionType → Action) → Outcome Action
labelled (some t) f = ok (f t)
labelled none f = failed

module _ (p : Platform) where
  -- "Likewise", but the length is not reduced: the memmove copies one byte from behind the array.
  unfoldable pub strip_folder : Bytes → Outcome Bytes
  strip_folder [] = failed
  strip_folder (b ∷ key) = if b == mapi_folder then ok (key ++ p.slack ∷ []) else failed

  unfoldable pub extract_xfer : Cursor → Outcome Act
  extract_xfer c = expect_one c >>= λ (_, c₁). extract_binary c₁ >>= λ (id, c₂).
      strip_prefix id >>= λ store_entryid. extract_binary c₂ >>= λ (key, c₃).
      strip_folder key >>= λ folder_source_key. ok (xfer store_entryid folder_source_key)

  unfoldable pub extract_entry : Reader AddrEntry
  extract_entry c = expect_one c >>= λ (_, c₁).
      extract_uint16 c₁ >>= λ (nvalues, c₂). extract_many (extract_propvalue p) nvalues c₂

  unfoldable pub extract_addr_list : Cursor → Outcome Act
  extract_addr_list c = extract_uint16 c >>= λ (nentries, c₁).
      extract_many extract_entry nentries c₁ >>= λ (entries, c₂). ok (addr_list entries)

  -- The switch of extract_action, on the bytes that belong to the action.
  unfoldable pub extract_act : Option ActionType → Cursor → Outcome Act
  extract_act (some move) c = extract_xfer c
  extract_act (some copy) c = extract_xfer c
  extract_act (some reply) c = extract_reply c
  extract_act (some oof_reply) c = extract_reply c
  extract_act (some defer) c = copy_bytes (rounds c.len) c.ptr >>= λ bytes. ok (defer_data bytes)
  extract_act (some bounce) c = extract_uint32 c >>= λ (code, c₁). ok (bounce_code code)
  extract_act (some forward) c = extract_addr_list c
  extract_act (some delegate) c = extract_addr_list c
  extract_act (some tag) c = extract_propvalue p c >>= λ (pv, c₁). ok (proptag pv)
  extract_act (some delete) c = ok nothing
  extract_act (some mark_as_read) c = failed
  extract_act none c = failed

  unfoldable pub extract_fields : Cursor → Outcome Action
  extract_fields c =
      if below c.len 1
      then failed
      else (read_byte c.ptr >>= λ type. extract_uint32 (advance 1 c) >>= λ (flavor, c₁).
          extract_uint32 c₁ >>= λ (flags, c₂). extract_act (action_of_code type) c₂ >>= λ act.
          labelled (action_of_code type)
            λ t. record { type = t; flavor = flavor; flags = flags; act = act })

  -- `actlen` is not compared with `*len`: the action's own bytes may end behind the array, and
  -- `*len` may become negative.
  unfoldable pub extract_action : Reader Action
  extract_action c = extract_uint16 c >>= λ (actlen, c₁).
      extract_fields (window c₁.ptr actlen) >>= λ act. ok (act, advance actlen c₁)

  unfoldable pub actions_extract : Reader (List Action)
  actions_extract c = extract_uint32 c >>= λ (actlen, c₁).
      if below c₁.len actlen
      then failed
      else (extract_uint16 c₁ >>= λ (nacts, c₂). extract_many extract_action nacts c₂)

  unfoldable pub append_entry : AddrEntry → Outcome Bytes
  append_entry entry = append_many (append_propvalue p) entry >>= λ bs.
      ok (append_byte 1 ++ (append_uint16 (length entry) ++ bs))

  unfoldable pub append_addr_list : List AddrEntry → Outcome Bytes
  append_addr_list entries =
      append_many append_entry entries >>= λ bs. ok (append_uint16 (length entries) ++ bs)

  -- The switch of append_action. A union member other than the type's own is read as garbage.
  unfoldable pub append_act : ActionType → Act → Outcome Bytes
  append_act move (xfer s f) = ok (append_xfer s f)
  append_act copy (xfer s f) = ok (append_xfer s f)
  append_act reply (reply_to e g) = ok (e ++ take 16 g)
  append_act oof_reply (reply_to e g) = ok (e ++ take 16 g)
  append_act defer (defer_data b) = ok b
  append_act bounce (bounce_code n) = ok (append_uint32 n)
  append_act forward (addr_list es) = append_addr_list es
  append_act delegate (addr_list es) = append_addr_list es
  append_act tag (proptag pv) = append_propvalue p pv
  append_act delete a = ok []
  append_act mark_as_read a = ok []
  append_act _ _ = fault

  unfoldable pub append_action : Action → Outcome Bytes
  append_action a = append_act a.type a.act >>= λ bs.
      let ba =
        append_uint16 0
        ++ (append_byte (action_code a.type)
            ++ (append_uint32 a.flavor ++ (append_uint32 a.flags ++ bs))) in
      ok (patch_uint16 (length ba - 2) ba)

  unfoldable pub actions_append : List Action → Outcome Bytes
  actions_append actions = append_many append_action actions >>= λ bs.
      let ba = append_uint32 0 ++ (append_uint16 (length actions) ++ bs) in
      ok (patch_uint32 (length ba - 4) ba)

-- ===== src/Action/Build.antt =====
-- The functions that make actions and address lists in server/lib/e2k-action.c. The names of MAPI
-- properties are made from the tags of server/lib/mapi-properties, as the build does it.
pub mod Entries
use evolution_exchange.Prelude.{
  ℕ, zero, suc, ◌+◌, Bool, true, false, Option, none, some, List, [], ◌∷◌, ◌++◌, Bytes, codes, take,
}
use evolution_exchange.Outcome.{Outcome, ok, fault, ◌>>=◌}
use evolution_exchange.Platform.{Platform}
use evolution_exchange.Props.{RuleProp, rule_prop_set, proptag_prop}
use evolution_exchange.PropValue.{PropValue, Value, string, binary, int, bool}
use evolution_exchange.EntryId.{
  entryid_generate_local, entryid_generate_oneoff, search_key_generate,
}
use evolution_exchange.Action.{
  ActionType, move, copy, reply, oof_reply, defer, bounce, forward, delegate, tag, delete,
  AddrEntry, Act, xfer, reply_to, defer_data, bounce_code, addr_list, proptag, nothing, Action,
}

-- g_new0: the flavor and the flags are zero.
abbrev new_action : ActionType → Act → Action
new_action t a = record { type = t; flavor = 0; flags = 0; act = a }

unfoldable pub action_move : Bytes → Bytes → Action
action_move store_entryid folder_source_key = new_action move (xfer store_entryid folder_source_key)

unfoldable pub action_copy : Bytes → Bytes → Action
action_copy store_entryid folder_source_key = new_action copy (xfer store_entryid folder_source_key)

unfoldable pub action_reply : Bytes → Bytes → Action
action_reply template_entryid template_guid =
    new_action reply (reply_to template_entryid (take 16 template_guid))

unfoldable pub action_oof_reply : Bytes → Bytes → Action
action_oof_reply template_entryid template_guid =
    new_action oof_reply (reply_to template_entryid (take 16 template_guid))

unfoldable pub action_defer : Bytes → Action
action_defer bytes = new_action defer (defer_data bytes)

unfoldable pub action_bounce : ℕ → Action
action_bounce code = new_action bounce (bounce_code code)

-- `none` is the NULL for a list without entries.
unfoldable pub forward_action : ActionType → List AddrEntry → Option Action
forward_action t [] = none
forward_action forward (e ∷ es) = some (new_action forward (addr_list (e ∷ es)))
forward_action delegate (e ∷ es) = some (new_action delegate (addr_list (e ∷ es)))
forward_action t (e ∷ es) = none

unfoldable pub action_forward : List AddrEntry → Option Action
action_forward list = forward_action forward list

unfoldable pub action_delegate : List AddrEntry → Option Action
action_delegate list = forward_action delegate list

unfoldable pub action_tag : Bytes → Value → Outcome Action
action_tag propname value = rule_prop_set propname >>= λ prop.
    ok (new_action tag (proptag (record { prop = prop; value = value })))

unfoldable pub action_delete : Action
action_delete = new_action delete nothing

unfoldable pub addr_list_new : ℕ → List AddrEntry
addr_list_new zero = []
addr_list_new (suc nentries) = [] ∷ addr_list_new nentries

-- `list->entry[entry_num] = entry`
unfoldable pub set_entry : List AddrEntry → ℕ → AddrEntry → Outcome (List AddrEntry)
set_entry [] n entry = fault
set_entry (e ∷ es) zero entry = ok (entry ∷ es)
set_entry (e ∷ es) (suc n) entry = set_entry es n entry >>= λ rest. ok (e ∷ rest)

-- e2k_rule_prop_set and a value, for each tag.
unfoldable pub set_values : List (ℕ × Value) → Outcome AddrEntry
set_values [] = ok []
set_values ((t, v) ∷ rest) = rule_prop_set (proptag_prop t) >>= λ prop.
    set_values rest >>= λ pvs. ok (record { prop = prop; value = v } ∷ pvs)

-- PR_ENTRYID, PR_DISPLAY_NAME, PR_OBJECT_TYPE, PR_DISPLAY_TYPE, PR_TRANSMITTABLE_DISPLAY_NAME,
-- PR_EMAIL_ADDRESS, PR_ADDRTYPE, PR_SEND_INTERNET_ENCODING, PR_RECIPIENT_TYPE and PR_SEARCH_KEY;
-- MAPI_MAILUSER is 6, DT_MAILUSER is 0, MAPI_TO is 1.
unfoldable pub core_values : (ℕ → ℕ) → Bytes → Bytes → Bytes → Bytes → List (ℕ × Value)
core_values g_ascii_toupper entryid display_name email_type email_addr =
    (0x0fff0102, binary entryid)
    ∷ (0x3001001f, string (some display_name))
    ∷ (0x0ffe0003, int 6)
    ∷ (0x39000003, int 0)
    ∷ (0x3a20001f, string (some display_name))
    ∷ (0x3003001f, string (some email_addr))
    ∷ (0x3002001f, string (some email_type))
    ∷ (0x3a710003, int 0)
    ∷ (0x0c150003, int 1)
    ∷ (0x300b0102, binary (search_key_generate g_ascii_toupper email_type email_addr))
    ∷ []

-- The values of a local user: PR_EMS_AB_DISPLAY_NAME_PRINTABLE and PR_SMTP_ADDRESS come last.
unfoldable pub local_values : (ℕ → ℕ) → Bytes → Bytes → Bytes → List (ℕ × Value)
local_values g_ascii_toupper display_name exchange_dn email =
    core_values g_ascii_toupper (entryid_generate_local exchange_dn) display_name (codes "EX")
      exchange_dn
    ++ (0x39ff001f, string (some (codes "FIXME"))) ∷ (0x39fe001f, string (some email)) ∷ []

-- The values of a one-off user: PR_SEND_RICH_INFO and PR_RECORD_KEY come last.
unfoldable pub oneoff_values : Platform → (ℕ → ℕ) → Bytes → Bytes → List (ℕ × Value)
oneoff_values p g_ascii_toupper display_name email =
    core_values g_ascii_toupper (entryid_generate_oneoff p display_name email true) display_name
      (codes "SMTP") email
    ++ (0x3a40000b, bool 0)
      ∷ (0x0ff90102, binary (entryid_generate_oneoff p display_name email false))
      ∷ []

unfoldable pub addr_list_set_local :
    (ℕ → ℕ) → List AddrEntry → ℕ → Bytes → Bytes → Bytes → Outcome (List AddrEntry)
addr_list_set_local g_ascii_toupper list entry_num display_name exchange_dn email =
    set_values (local_values g_ascii_toupper display_name exchange_dn email) >>= λ entry.
    set_entry list entry_num entry

unfoldable pub addr_list_set_oneoff :
    Platform → (ℕ → ℕ) → List AddrEntry → ℕ → Bytes → Bytes → Outcome (List AddrEntry)
addr_list_set_oneoff p g_ascii_toupper list entry_num display_name email =
    set_values (oneoff_values p g_ascii_toupper display_name email) >>= λ entry.
    set_entry list entry_num entry

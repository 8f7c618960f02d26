-- ===== src/Tests/Rules.antt =====
-- The results on restrictions, actions and rules, applied to concrete inputs.
use evolution_exchange.Restriction.Storable.{written_rn, written_rns}
use evolution_exchange.PropValue.RoundTrip.{written, written_value}
use evolution_exchange.PropValue.{append_proptag, rule_proptag}
use evolution_exchange.Unicode.{append_unicode, append_units}
use evolution_exchange.Action.Overrun.{deferred, extract_action-overrun}
use evolution_exchange.Action.Storable.{reread_action}
use evolution_exchange.Restriction.Safe.{restriction_extract-IsSafe}
use evolution_exchange.Wire.{
  window, append_uint16, append_uint32, append_byte, append_string, write_uint16, write_uint32,
}
use evolution_exchange.Outcome.{◌>>=◌, ok, fault}
use evolution_exchange.Action.{
  extract_action, Action, actions_append, move, actions_extract, xfer, forward, addr_list,
  append_xfer, xfer_prefix,
}
use evolution_exchange.Rules.RoundTrip.{
  IsStorableSet, reread_set, rules_from_binary-rules_to_binary, written_rule, written_body,
}
use evolution_exchange.Action.Array.{
  AreStorableActions, actions_extract-actions_append, counted_actions, written_actions,
}
use evolution_exchange.Wire.Reads.{ReadsBack}
use evolution_exchange.Wire.Safe.{Within}
use evolution_exchange.Restriction.{
  and, not, Restriction, restriction_extract, restriction_append, and, cons, content, property, nil,
}
use evolution_exchange.Prelude.{
  Bytes, some, arith, codes, ◌∷◌, refl, [], map, ◌≡◌, ◌++◌, length, ◌+◌, ◌<◌, ◌^◌,
}
use evolution_exchange.Restriction.RoundTrip.{
  IsStorableCondition, restriction_extract-restriction_append, written_condition,
}
use evolution_exchange.Rules.{RuleSet, Rule, rules_to_binary, rules_from_binary}
use evolution_exchange.Prelude.{[], ◌∷◌}
use evolution_exchange.Action.Storable.{written_act, written_entry, written_fields, written_action}
use evolution_exchange.Tests.{machine, machine_unicode, subject, subject-IsStorable, Bytes, List}

condition_safe_example :
    Within 4 9 (restriction_extract machine (window (5 ∷ 0 ∷ 0 ∷ 0 ∷ 0 ∷ 0 ∷ 2 ∷ 2 ∷ 8 ∷ []) 9))
condition_safe_example =
    restriction_extract-IsSafe machine (5 ∷ 0 ∷ 0 ∷ 0 ∷ 0 ∷ 0 ∷ 2 ∷ 2 ∷ 8 ∷ []) 9 (omega arith)

overrun_example :
    extract_action machine (
      window
        (append_uint16 14 ++ deferred 0 0 (1 ∷ 2 ∷ []))
        (length (append_uint16 14 ++ deferred 0 0 (1 ∷ 2 ∷ []))))
    ≡ fault
overrun_example =
    extract_action-overrun machine 0 0 5 (1 ∷ 2 ∷ []) (omega arith) (omega arith) (omega arith)
      (omega arith)

-- Not both: the subject holds "hi", and it is "hi".
abbrev subjects : Restriction
subjects = not (and (cons (content 1 subject) (cons (property 4 subject) nil)))

subjects-length : length (append_uint16 0 ++ written_rn machine subjects) < 2 ^ 32
unfolding append_uint16 append_uint32 append_byte append_string append_unicode append_units
    append_proptag append_xfer rule_proptag xfer_prefix write_uint16 write_uint32 written
    written_value written_rn written_rns written_condition written_act written_entry written_fields
    written_action counted_actions written_actions written_rule written_body
subjects-length = omega arith

subjects-IsStorable : IsStorableCondition machine (some subjects)
subjects-IsStorable = (
  (omega arith, ((omega arith, subject-IsStorable), ((omega arith, subject-IsStorable), tt))),
  subjects-length,
)

condition_example :
    ReadsBack
      (restriction_append machine (some subjects))
      (restriction_extract machine)
      (some subjects)
condition_example =
    restriction_extract-restriction_append machine machine_unicode refl (some subjects)
      subjects-IsStorable

-- A move, and a forward to an entry with one value.
abbrev key : Bytes
key =
    5 ∷ 5 ∷ 5 ∷ 5 ∷ 5 ∷ 5 ∷ 5 ∷ 5 ∷ 5 ∷ 5 ∷ 5 ∷ 5 ∷ 5 ∷ 5 ∷ 5 ∷ 5 ∷ 5 ∷ 5 ∷ 5 ∷ 5 ∷ 5 ∷ 5 ∷ 5 ∷ 5
    ∷ 5 ∷ 5 ∷ 5 ∷ 5 ∷ 5 ∷ 5 ∷ 5 ∷ 5 ∷ 5 ∷ 5 ∷ 5 ∷ 5 ∷ 5 ∷ 5 ∷ 5 ∷ 5 ∷ 5 ∷ 5 ∷ 5 ∷ 5 ∷ 5 ∷ 5 ∷ 5 ∷ 5
    ∷ []

abbrev acts : List Action
acts =
    record { type = move; flavor = 0; flags = 0; act = xfer (1 ∷ 2 ∷ []) key }
    ∷ record { type = forward; flavor = 3; flags = 0; act = addr_list ((subject ∷ []) ∷ []) }
    ∷ []

move-length :
    length (
      written_fields machine
        (record { type = move; flavor = 0; flags = 0; act = xfer (1 ∷ 2 ∷ []) key }))
    < 2 ^ 16
unfolding append_uint16 append_uint32 append_byte append_string append_unicode append_units
    append_proptag append_xfer rule_proptag xfer_prefix write_uint16 write_uint32 written
    written_value written_rn written_rns written_condition written_act written_entry written_fields
    written_action counted_actions written_actions written_rule written_body
move-length = omega arith

forward-length :
    length (
      written_fields machine
        (record { type = forward; flavor = 3; flags = 0; act = addr_list ((subject ∷ []) ∷ []) }))
    < 2 ^ 16
unfolding append_uint16 append_uint32 append_byte append_string append_unicode append_units
    append_proptag append_xfer rule_proptag xfer_prefix write_uint16 write_uint32 written
    written_value written_rn written_rns written_condition written_act written_entry written_fields
    written_action counted_actions written_actions written_rule written_body
forward-length = omega arith

acts-length : length (counted_actions machine acts) < 2 ^ 32
unfolding append_uint16 append_uint32 append_byte append_string append_unicode append_units
    append_proptag append_xfer rule_proptag xfer_prefix write_uint16 write_uint32 written
    written_value written_rn written_rns written_condition written_act written_entry written_fields
    written_action counted_actions written_actions written_rule written_body
acts-length = omega arith

acts-AreStorable : AreStorableActions machine acts
acts-AreStorable = record {
  few = omega arith;
  each = (
    record {
      flavor_fits = omega arith;
      flags_fits = omega arith;
      act_fits = (omega arith, omega arith, refl);
      length_fits = move-length;
    },
    (
      record {
        flavor_fits = omega arith;
        flags_fits = omega arith;
        act_fits = (omega arith, ((omega arith, (subject-IsStorable, tt)), tt));
        length_fits = forward-length;
      },
      tt,
    ),
  );
  length_fits = acts-length;
}

actions_example :
    ReadsBack
      (actions_append machine acts)
      (actions_extract machine)
      (map (reread_action machine) acts)
actions_example = actions_extract-actions_append machine machine_unicode refl acts acts-AreStorable

abbrev filter : Rule
filter = record {
  name = codes "f";
  sequence = 10;
  state = 1;
  user_flags = 0;
  level = 0;
  condition_lcid = 0;
  condition = some subjects;
  actions = acts;
  provider = codes "R";
  provider_data = 1 ∷ [];
}

abbrev filters : RuleSet
filters = record { version = 2; codepage = 1252; rules = filter ∷ [] }

total-length : 1 + length (written_body machine filters) < 2 ^ 31
unfolding append_uint16 append_uint32 append_byte append_string append_unicode append_units
    append_proptag append_xfer rule_proptag xfer_prefix write_uint16 write_uint32 written
    written_value written_rn written_rns written_condition written_act written_entry written_fields
    written_action counted_actions written_actions written_rule written_body
total-length = omega arith

filters-IsStorable : IsStorableSet machine filters
filters-IsStorable = record {
  version_two = refl;
  codepage_fits = omega arith;
  count_fits = omega arith;
  each = (
    record {
      sequence_fits = omega arith;
      state_fits = omega arith;
      user_flags_fits = omega arith;
      level_fits = omega arith;
      lcid_fits = omega arith;
      condition_fits = subjects-IsStorable;
      actions_fit = acts-AreStorable;
      provider_text = (omega arith, tt);
      name_text = (omega arith, tt);
      data_fits = omega arith;
    },
    tt,
  );
  total_fits = total-length;
}

rules_example :
    (rules_to_binary machine filters >>= rules_from_binary machine)
    ≡ ok (reread_set machine filters)
rules_example =
    rules_from_binary-rules_to_binary machine machine_unicode refl filters filters-IsStorable

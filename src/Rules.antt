-- ===== src/Rules.antt =====
-- Mail rules: E2kRule and E2kRules of server/lib/e2k-rule.h, with their binary form, which
-- e2k_rules_from_binary and e2k_rules_to_binary of server/lib/e2k-rule.c read and write.
pub mod RoundTrip
use evolution_exchange.Prelude.{
  ℕ, zero, suc, ◌+◌, Option, List, [], ◌∷◌, ◌++◌, ◌==◌, if◌then◌else◌, Bytes, length, below,
  as_gint,
}
use evolution_exchange.Outcome.{Outcome, ok, failed, ◌>>=◌}
use evolution_exchange.Platform.{Platform}
use evolution_exchange.Wire.{
  Cursor, Reader, advance, copy_bytes, read_byte, append_uint32, extract_uint32, append_byte,
  append_string, extract_string,
}
use evolution_exchange.Loops.{extract_many, append_many}
use evolution_exchange.Restriction.{Restriction, restriction_extract, restriction_append}
use evolution_exchange.Action.{Action, actions_extract, actions_append}

-- E2kRule; `condition` is `none` for a NULL restriction.
pub record Rule : Type 0 where
  pub name : Bytes
  pub sequence : ℕ
  pub state : ℕ
  pub user_flags : ℕ
  pub level : ℕ
  pub condition_lcid : ℕ
  pub condition : Option Restriction
  pub actions : List Action
  pub provider : Bytes
  pub provider_data : Bytes

-- E2kRules
pub record RuleSet : Type 0 where
  pub version : ℕ
  pub codepage : ℕ
  pub rules : List Rule

-- The provider data has a 4-byte length.
unfoldable pub extract_provider_data : Reader Bytes
extract_provider_data c = extract_uint32 c >>= λ (pdlen, c₁).
    if below c₁.len pdlen
    then failed
    else (copy_bytes pdlen c₁.ptr >>= λ bytes. ok (bytes, advance pdlen c₁))

module _ (p : Platform) where
  -- The body of the loop of e2k_rules_from_binary.
  unfoldable pub extract_rule : Reader Rule
  extract_rule c = extract_uint32 c >>= λ (sequence, c₁). extract_uint32 c₁ >>= λ (state, c₂).
      extract_uint32 c₂ >>= λ (user_flags, c₃). extract_uint32 c₃ >>= λ (condition_lcid, c₄).
      restriction_extract p c₄ >>= λ (condition, c₅). actions_extract p c₅ >>= λ (actions, c₆).
      extract_string c₆ >>= λ (provider, c₇). extract_string c₇ >>= λ (name, c₈).
      extract_uint32 c₈ >>= λ (level, c₉). extract_provider_data c₉ >>= λ (provider_data, c₁₀). ok (
        record {
          name = name;
          sequence = sequence;
          state = state;
          user_flags = user_flags;
          level = level;
          condition_lcid = condition_lcid;
          condition = condition;
          actions = actions;
          provider = provider;
          provider_data = provider_data;
        },
        c₁₀,
      )

  -- From behind the version byte on.
  unfoldable pub extract_rules : Reader RuleSet
  extract_rules c = extract_uint32 c >>= λ (nrules, c₁). extract_uint32 c₁ >>= λ (codepage, c₂).
      extract_many extract_rule nrules c₂ >>= λ (rules, c₃).
      ok (record { version = 2; codepage = codepage; rules = rules }, c₃)

  unfoldable pub rules_from_binary : Bytes → Outcome RuleSet
  rules_from_binary rules_data =
      let c : Cursor = record { ptr = rules_data; len = as_gint (length rules_data) } in
      if below c.len 9
      then failed
      else (read_byte c.ptr >>= λ version.
          if version == 2
          then (extract_rules (advance 1 c) >>= λ (rules, c₁). ok rules)
          else failed)

  unfoldable pub append_rule : Rule → Outcome Bytes
  append_rule r = restriction_append p r.condition >>= λ condition.
      actions_append p r.actions >>= λ actions. ok (
        append_uint32 r.sequence
        ++ (append_uint32 r.state
            ++ (append_uint32 r.user_flags
                ++ (append_uint32 r.condition_lcid
                    ++ (condition
                        ++ (actions
                            ++ (append_string r.provider
                                ++ (append_string r.name
                                    ++ (append_uint32 r.level
                                        ++ (append_uint32 (length r.provider_data)
                                            ++ r.provider_data))))))))))

  unfoldable pub rules_to_binary : RuleSet → Outcome Bytes
  rules_to_binary s = append_many append_rule s.rules >>= λ bs. ok (
      append_byte s.version ++ (append_uint32 (length s.rules) ++ (append_uint32 s.codepage ++ bs)))

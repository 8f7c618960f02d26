-- ===== src/Rules/RoundTrip.antt =====
-- A rule set that is written is read back.
use evolution_exchange.Prelude.{
  ℕ, suc, ◌+◌, ◌^◌, ◌<◌, ◌≤◌, ◌≡◌, ap, List, [], ◌∷◌, ◌++◌, Bytes, length, All, map, pos, as_gint,
  arith, false, ltb,
}
use evolution_exchange.Outcome.{ok, ◌>>=◌}
use evolution_exchange.Platform.{Platform, HasUnicode}
use evolution_exchange.Wire.{
  window, copy_bytes, read_byte, append_uint32, extract_uint32, append_byte, append_string,
  extract_string, write_uint32,
}
use evolution_exchange.Wire.Reads.{Reads-whole, Reads, Reads-bind, Reads-map}
use evolution_exchange.Wire.RoundTrip.{
  uint32-Reads_fits, string-Reads, fixed-Reads, copy_bytes-append, IsText,
}
use evolution_exchange.Loops.{extract_many}
use evolution_exchange.Loops.Reads.{concat_map, many-Reads-map, append_many-eq}
use evolution_exchange.Restriction.{restriction_extract}
use evolution_exchange.Restriction.Step.{advance_byte}
use evolution_exchange.Restriction.RoundTrip.{
  written_condition, IsStorableCondition, restriction_append-storable, condition-Reads,
}
use evolution_exchange.Action.{actions_extract}
use evolution_exchange.Action.Storable.{reread_action}
use evolution_exchange.Action.Array.{
  written_actions, AreStorableActions, actions_append-storable, actions-Reads,
}
use evolution_exchange.Rules.{
  Rule, RuleSet, extract_provider_data, extract_rule, extract_rules, rules_from_binary, append_rule,
  rules_to_binary,
}

module _ (p : Platform) where
  -- Numbers fit their fields, strings hold no zero byte, and the condition and the actions are
  -- storable themselves.
  pub record IsStorableRule (r : Rule) : Type 0 where
    pub sequence_fits : r.sequence < 2 ^ 32
    pub state_fits : r.state < 2 ^ 32
    pub user_flags_fits : r.user_flags < 2 ^ 32
    pub level_fits : r.level < 2 ^ 32
    pub lcid_fits : r.condition_lcid < 2 ^ 32
    pub condition_fits : IsStorableCondition p r.condition
    pub actions_fit : AreStorableActions p r.actions
    pub provider_text : IsText r.provider
    pub name_text : IsText r.name
    pub data_fits : length r.provider_data < 2 ^ 32

  unfoldable pub written_rule : Rule → Bytes
  written_rule r =
      append_uint32 r.sequence
      ++ (append_uint32 r.state
          ++ (append_uint32 r.user_flags
              ++ (append_uint32 r.condition_lcid
                  ++ (written_condition p r.condition
                      ++ (written_actions p r.actions
                          ++ (append_string r.provider
                              ++ (append_string r.name
                                  ++ (append_uint32 r.level
                                      ++ (append_uint32 (length r.provider_data)
                                          ++ r.provider_data)))))))))

  -- What is read back: the keys of MOVE and COPY actions have a byte too much.
  abbrev pub reread_rule : Rule → Rule
  reread_rule r = record r { actions = map (reread_action p) r.actions }

  append_rule-storable : (r : Rule) → IsStorableRule r → append_rule p r ≡ ok (written_rule r)
  unfolding append_rule written_rule
  append_rule-storable r s = rw (
    restriction_append-storable p r.condition s.condition_fits,
    actions_append-storable p r.actions s.actions_fit,
  )

  provider_data-Reads :
      (bytes : Bytes)
      → length bytes < 2 ^ 32
      → Reads extract_provider_data (append_uint32 (length bytes) ++ bytes) bytes
  unfolding extract_provider_data
  provider_data-Reads bytes h =
      Reads-bind extract_uint32 _ (append_uint32 (length bytes)) bytes (length bytes) bytes
        (uint32-Reads_fits _ h)
        (fixed-Reads (copy_bytes (length bytes)) bytes bytes (copy_bytes-append bytes))

  module _ (laws : HasUnicode p) (little : p.big_endian ≡ false) where
    rule-Reads :
        (r : Rule) → IsStorableRule r → Reads (extract_rule p) (written_rule r) (reread_rule r)
    unfolding extract_rule written_rule
    rule-Reads r s =
        Reads-bind extract_uint32 _ (append_uint32 r.sequence) _ r.sequence _
          (uint32-Reads_fits _ s.sequence_fits)
          (Reads-bind extract_uint32 _ (append_uint32 r.state) _ r.state _
            (uint32-Reads_fits _ s.state_fits)
            (Reads-bind extract_uint32 _ (append_uint32 r.user_flags) _ r.user_flags _
              (uint32-Reads_fits _ s.user_flags_fits)
              (Reads-bind extract_uint32 _ (append_uint32 r.condition_lcid) _ r.condition_lcid _
                (uint32-Reads_fits _ s.lcid_fits)
                (Reads-bind (restriction_extract p) _ (written_condition p r.condition) _
                  r.condition _ (condition-Reads p laws little r.condition s.condition_fits)
                  (Reads-bind (actions_extract p) _ (written_actions p r.actions) _
                    (map (reread_action p) r.actions) _
                    (actions-Reads p laws little r.actions s.actions_fit)
                    (Reads-bind extract_string _ (append_string r.provider) _ r.provider _
                      (string-Reads r.provider s.provider_text)
                      (Reads-bind extract_string _ (append_string r.name) _ r.name _
                        (string-Reads r.name s.name_text)
                        (Reads-bind extract_uint32 _ (append_uint32 r.level) _ r.level _
                          (uint32-Reads_fits _ s.level_fits)
                          (Reads-map extract_provider_data _
                            (append_uint32 (length r.provider_data) ++ r.provider_data)
                            r.provider_data
                            (provider_data-Reads r.provider_data s.data_fits))))))))))

    All-rules :
        (rs : List Rule)
        → All (IsStorableRule) rs
        → All (λ r. Reads (extract_rule p) (written_rule r) (reread_rule r)) rs
    All-rules [] h = tt
    All-rules (r ∷ rs) h = (rule-Reads r h.0, All-rules rs h.1)

  All-written :
      (rs : List Rule) → All IsStorableRule rs → All (λ r. append_rule p r ≡ ok (written_rule r)) rs
  All-written [] h = tt
  All-written (r ∷ rs) h = (append_rule-storable r h.0, All-written rs h.1)

  -- Behind the version byte.
  unfoldable pub written_body : RuleSet → Bytes
  written_body s =
      append_uint32 (length s.rules)
      ++ (append_uint32 s.codepage ++ concat_map written_rule s.rules)

  pub record IsStorableSet (s : RuleSet) : Type 0 where
    pub version_two : s.version ≡ 2
    pub codepage_fits : s.codepage < 2 ^ 32
    pub count_fits : length s.rules < 2 ^ 32
    pub each : All IsStorableRule s.rules
    pub total_fits : 1 + length (written_body s) < 2 ^ 31

  abbrev pub reread_set : RuleSet → RuleSet
  reread_set s = record { version = 2; codepage = s.codepage; rules = map reread_rule s.rules }

  rules_to_binary-storable :
      (s : RuleSet) → IsStorableSet s → rules_to_binary p s ≡ ok (2 ∷ written_body s)
  unfolding rules_to_binary written_body append_byte
  rules_to_binary-storable s h =
      rw (append_many-eq (append_rule p) written_rule s.rules (All-written s.rules h.each))
        (ap (λ v. ok (append_byte v ++ written_body s)) h.version_two)

  extract_rules-Reads :
      HasUnicode p
      → p.big_endian ≡ false
      → (s : RuleSet) → IsStorableSet s
      → Reads (extract_rules p) (written_body s) (reread_set s)
  unfolding extract_rules written_body
  extract_rules-Reads laws little s h =
      Reads-bind extract_uint32 _ (append_uint32 (length s.rules)) _ (length s.rules) _
        (uint32-Reads_fits _ h.count_fits)
        (Reads-bind extract_uint32 _ (append_uint32 s.codepage) _ s.codepage _
          (uint32-Reads_fits _ h.codepage_fits)
          (Reads-map (extract_many (extract_rule p) (length s.rules))
            (λ rs. record { version = 2; codepage = s.codepage; rules = rs })
            (concat_map written_rule s.rules) (map reread_rule s.rules)
            (many-Reads-map (extract_rule p) written_rule reread_rule s.rules
              (All-rules laws little s.rules h.each))))

  long_body : (s : RuleSet) → 8 ≤ length (written_body s)
  unfolding written_body append_uint32 write_uint32
  long_body s = omega arith

  fits_gint : (n : ℕ) → n < 2 ^ 31 → as_gint n ≡ pos n
  fits_gint n h = ground arith

  -- A version byte of 2 in a large enough array.
  at_two :
      (mem : Bytes)
      → 8 ≤ length mem
      → 1 + length mem < 2 ^ 31
      → rules_from_binary p (2 ∷ mem)
        ≡ (extract_rules p (window mem (length mem)) >>= λ (rules, c). ok rules)
  unfolding rules_from_binary read_byte
  at_two mem long short = rw (
    fits_gint (suc (length mem)) (omega arith),
    room (length mem) long,
    advance_byte 2 mem (length mem),
  )
    where
      room : (n : ℕ) → 8 ≤ n → ltb (suc n) 9 ≡ false
      room n h = ground arith

  -- A storable rule set, written to binary, is read back with the folder keys of its MOVE and
  -- COPY actions one byte longer, on a little-endian machine where GLib converts valid strings
  -- without loss.
  pub rules_from_binary-rules_to_binary :
      HasUnicode p
      → p.big_endian ≡ false
      → (s : RuleSet) → IsStorableSet s
      → (rules_to_binary p s >>= rules_from_binary p) ≡ ok (reread_set s)
  rules_from_binary-rules_to_binary laws little s h = rw (
    rules_to_binary-storable s h,
    at_two (written_body s) (long_body s) h.total_fits,
    Reads-whole (extract_rules p) (written_body s) (reread_set s)
        (extract_rules-Reads laws little s h),
  )

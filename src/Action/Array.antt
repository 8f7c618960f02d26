-- ===== src/Action/Array.antt =====
-- A rule's array of actions: written with its length in front, and read back.
use evolution_exchange.Prelude.{◌^◌, ◌<◌, ◌≡◌, ap, List, [], ◌∷◌, ◌++◌, Bytes, length, All, map}
use evolution_exchange.Outcome.{ok, ◌>>=◌}
use evolution_exchange.Platform.{Platform, HasUnicode}
use evolution_exchange.Wire.{append_uint32, extract_uint32, append_uint16, extract_uint16}
use evolution_exchange.Wire.Reads.{Reads, Reads-bind, ReadsBack}
use evolution_exchange.Wire.RoundTrip.{
  uint32-Reads_fits, uint16-Reads_fits, limited-Reads, patch-append,
}
use evolution_exchange.Loops.{extract_many}
use evolution_exchange.Loops.Reads.{concat_map, many-Reads-map, append_many-eq}
use evolution_exchange.Action.{
  Action, append_action, actions_append, extract_action, actions_extract, false,
}
use evolution_exchange.Action.Storable.{
  written_action, IsStorableAction, reread_action, append_action-storable,
}
use evolution_exchange.Action.RoundTrip.{actions-All}

module _ (p : Platform) where
  -- What the length in front counts.
  unfoldable pub counted_actions : List Action → Bytes
  counted_actions as_ = append_uint16 (length as_) ++ concat_map (written_action p) as_

  unfoldable pub written_actions : List Action → Bytes
  written_actions as_ = append_uint32 (length (counted_actions as_)) ++ counted_actions as_

  pub record AreStorableActions (as_ : List Action) : Type 0 where
    pub few : length as_ < 2 ^ 16
    pub each : All (IsStorableAction p) as_
    pub length_fits : length (counted_actions as_) < 2 ^ 32

  All-written :
      (as_ : List Action)
      → All (IsStorableAction p) as_
      → All (λ a. append_action p a ≡ ok (written_action p a)) as_
  All-written [] h = tt
  All-written (a ∷ as_) h = (append_action-storable p a h.0, All-written as_ h.1)

  pub actions_append-storable :
      (as_ : List Action) → AreStorableActions as_ → actions_append p as_ ≡ ok (written_actions as_)
  unfolding actions_append written_actions counted_actions
  actions_append-storable as_ s =
      rw (append_many-eq (append_action p) (written_action p) as_ (All-written as_ s.each))
        (ap ok (patch-append _))

  pub actions-Reads :
      HasUnicode p
      → p.big_endian ≡ false
      → (as_ : List Action) → AreStorableActions as_
      → Reads (actions_extract p) (written_actions as_) (map (reread_action p) as_)
  unfolding actions_extract written_actions
  actions-Reads laws little as_ s =
      Reads-bind extract_uint32 _ (append_uint32 (length (counted_actions as_)))
        (counted_actions as_) (length (counted_actions as_)) _ (uint32-Reads_fits _ s.length_fits)
        (limited-Reads (λ n c. extract_uint16 c >>= λ (k, c₁). extract_many (extract_action p) k c₁)
          (counted_actions as_) _ (inside as_ s))
    where
      inside :
          (bs : List Action)
          → AreStorableActions bs
          → Reads
              (λ c. extract_uint16 c >>= λ (k, c₁). extract_many (extract_action p) k c₁)
              (counted_actions bs)
              (map (reread_action p) bs)
      inside bs t =
          unfold counted_actions in
          Reads-bind extract_uint16 _ (append_uint16 (length bs)) (concat_map (written_action p) bs)
            (length bs) (map (reread_action p) bs) (uint16-Reads_fits _ t.few)
            (many-Reads-map (extract_action p) (written_action p) (reread_action p) bs
              (actions-All p laws little bs t.each))

  -- Storable actions are written, and read back from their bytes wherever these stand in an
  -- array, with the folder keys of MOVE and COPY actions one byte longer, on a little-endian
  -- machine where GLib converts valid strings without loss.
  pub actions_extract-actions_append :
      HasUnicode p
      → p.big_endian ≡ false
      → (as_ : List Action) → AreStorableActions as_
      → ReadsBack (actions_append p as_) (actions_extract p) (map (reread_action p) as_)
  actions_extract-actions_append laws little as_ s =
      (written_actions as_, actions_append-storable as_ s, actions-Reads laws little as_ s)

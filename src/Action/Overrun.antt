-- ===== src/Action/Overrun.antt =====
-- extract_action of server/lib/e2k-action.c, where an action announces more bytes than there are.
use evolution_exchange.Prelude.{
  ℕ, suc, ◌+◌, ◌^◌, ◌<◌, ◌≡◌, refl, ◌∷◌, ◌++◌, Bytes, length, length-append, arith,
}
use evolution_exchange.Outcome.{ok, fault}
use evolution_exchange.Platform.{Platform}
use evolution_exchange.Wire.{
  window, extract_uint32, write_uint32, append_uint16, append_uint32, copy_bytes, read_byte,
}
use evolution_exchange.Wire.RoundTrip.{uint16-Reads_fits, uint32-Reads_fits}
use evolution_exchange.Restriction.Step.{advance_byte}
use evolution_exchange.Action.{action_of_code, extract_act, extract_fields, extract_action}

-- The fields of a DEFER action behind its length.
pub deferred : ℕ → ℕ → Bytes → Bytes
deferred flavor flags saved = 5 ∷ append_uint32 flavor ++ (append_uint32 flags ++ saved)

copy_bytes-short : (k : ℕ) (mem : Bytes) → length mem < k → copy_bytes k mem ≡ fault
unfolding copy_bytes
copy_bytes-short k mem h = ground arith

read_four :
    (v : ℕ)
    → v < 2 ^ 32
    → (rest : Bytes) (k : ℕ)
    → extract_uint32 (window (append_uint32 v ++ rest) (4 + k)) ≡ ok (v, window rest k)
unfolding append_uint32 write_uint32
read_four v h rest k = uint32-Reads_fits v h rest k

module _ (p : Platform) where
  deferred_fields :
      (flavor flags left : ℕ) (saved : Bytes)
      → flavor < 2 ^ 32
      → flags < 2 ^ 32
      → length saved < left
      → extract_fields p (window (deferred flavor flags saved) (suc (4 + (4 + left)))) ≡ fault
  unfolding extract_fields deferred extract_act read_byte action_of_code
  deferred_fields flavor flags left saved hf hg short =
      rw
        (
          advance_byte 5 (append_uint32 flavor ++ (append_uint32 flags ++ saved)) (4 + (4 + left)),
          read_four flavor hf (append_uint32 flags ++ saved) (4 + left),
          read_four flags hg saved left,
          copy_bytes-short left saved short,
        )
        (ground arith)

  -- A DEFER action that announces more bytes than stand in the array makes extract_action read
  -- behind the array's end, although *len is the true number of bytes left.
  pub extract_action-overrun :
      (flavor flags announced : ℕ) (saved : Bytes)
      → flavor < 2 ^ 32
      → flags < 2 ^ 32
      → 9 + announced < 2 ^ 16
      → length saved < announced
      → let mem = append_uint16 (9 + announced) ++ deferred flavor flags saved in
        extract_action p (window mem (length mem)) ≡ fault
  unfolding extract_action
  extract_action-overrun flavor flags announced saved hf hg room short =
      rw
        (
          length-append (append_uint16 (9 + announced)) (deferred flavor flags saved),
          uint16-Reads_fits (9 + announced) room (deferred flavor flags saved)
              (length (deferred flavor flags saved)),
          nine,
          deferred_fields flavor flags announced saved hf hg short,
        )
        refl
    where
      nine : 9 + announced ≡ suc (4 + (4 + announced))
      nine = omega arith

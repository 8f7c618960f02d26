-- ===== src/EntryId/Local.antt =====
-- The DN of a local user's entry id is found in it.
use evolution_exchange.Prelude.{◌≡◌, refl, ap, ◌∙◌, some, [], ◌∷◌, ◌++◌, ne→==, Bytes, append-nil}
use evolution_exchange.Outcome.{ok, ◌>>=◌}
use evolution_exchange.Wire.{
  append_uint32, append_uint16, append_string, write_uint16, write_uint32,
}
use evolution_exchange.Wire.RoundTrip.{IsText}
use evolution_exchange.EntryId.{
  reverse_onto, back_to_zero, last_string, entryid_to_dn, entryid_generate_local, mapi_local_uid,
  if_slash,
}

reverse_onto-append :
    (xs ys acc : Bytes) → reverse_onto (xs ++ ys) acc ≡ reverse_onto ys (reverse_onto xs acc)
reverse_onto-append [] ys acc = refl
reverse_onto-append (x ∷ xs) ys acc = reverse_onto-append xs ys (x ∷ acc)

back_to_zero-reverse_onto :
    (s before passed : Bytes)
    → IsText s
    → back_to_zero (reverse_onto s before) passed ≡ back_to_zero before (s ++ passed)
back_to_zero-reverse_onto [] before passed h = refl
back_to_zero-reverse_onto (c ∷ s) before passed h =
    back_to_zero-reverse_onto s (c ∷ before) passed h.1
    ∙ unfold back_to_zero in rw (ne→== c 0 h.0) refl

after_dn :
    (s before : Bytes)
    → (back_to_zero (b'/' ∷ 0 ∷ before) s >>= λ t. ok (if_slash t)) ≡ ok (some (b'/' ∷ s))
unfolding back_to_zero
after_dn s before = refl

-- The DN in the entry id that is made for a local user is the user's, if it starts with a slash
-- and has no zero byte.
pub entryid_to_dn-entryid_generate_local :
    (dn : Bytes)
    → IsText dn
    → entryid_to_dn (entryid_generate_local (b'/' ∷ dn)) ≡ ok (some (b'/' ∷ dn))
unfolding entryid_to_dn entryid_generate_local append_uint32 append_uint16 write_uint16 write_uint32
    mapi_local_uid append_string last_string
entryid_to_dn-entryid_generate_local dn h =
    ap last_string (reverse_onto-append dn (0 ∷ []) _)
    ∙ (ap (λ o. o >>= λ s. ok (if_slash s)) (back_to_zero-reverse_onto dn _ [] h)
        ∙ after_dn (dn ++ []) _
        ∙ ap (λ s. ok (some (b'/' ∷ s))) (append-nil dn))

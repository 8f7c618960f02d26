-- ===== src/Strings.antt =====
-- Comparing strings and arrays byte by byte, as strcmp, memcmp and g_str_equal do.
use evolution_exchange.Prelude.{
  Bool, true, false, ◌&&◌, ◌≡◌, ◌↔◌, [], ◌∷◌, ◌==◌, Bytes, refl, arith,
}

unfoldable pub same_bytes : Bytes → Bytes → Bool
same_bytes [] [] = true
same_bytes (a ∷ as_) (b ∷ bs) = a == b && same_bytes as_ bs
same_bytes _ _ = false

pub same_bytes→eq : (as_ bs : Bytes) → same_bytes as_ bs ≡ true → as_ ≡ bs
unfolding same_bytes
same_bytes→eq [] [] h = refl
same_bytes→eq [] (b ∷ bs) h = cc
same_bytes→eq (a ∷ as_) [] h = cc
same_bytes→eq (a ∷ as_) (b ∷ bs) h = ground (arith, same_bytes→eq as_ bs)

pub same_bytes_self : (as_ : Bytes) → same_bytes as_ as_ ≡ true
unfolding same_bytes
same_bytes_self [] = refl
same_bytes_self (a ∷ as_) = ground (arith, same_bytes_self as_)

pub same_bytes_iff : (as_ bs : Bytes) → (same_bytes as_ bs ≡ true) ↔ (as_ ≡ bs)
same_bytes_iff as_ bs = (same_bytes→eq as_ bs, λ e. rw e (same_bytes_self bs))

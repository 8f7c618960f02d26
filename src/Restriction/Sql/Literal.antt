-- ===== src/Restriction/Sql/Literal.antt =====
-- What an SQL reader makes of a string that append_sql_quoted of server/lib/e2k-restriction.c has quoted.
use evolution_exchange.Prelude.{
  ℕ, Bool, true, false, Bool-cases, inl, inr, Option, none, some, [], ◌∷◌, ◌++◌, ◌==◌, ◌≡◌, ◌≢◌,
  refl, ap, if◌then◌else◌, Bytes, ne→==, sym, ==→eq,
}
use evolution_exchange.Restriction.Sql.{append_sql_quoted}

abbrev pub with_byte : ℕ → Option (Bytes × Bytes) → Option (Bytes × Bytes)
with_byte c none = none
with_byte c (some (s, rest)) = some (c ∷ s, rest)

-- The rest of a literal, up to the quote that ends it, and what follows. `seen` is whether a quote has
-- been read that may end the literal: a second one makes it a part of the string.
abbrev pub read_literal : Bool → Bytes → Option (Bytes × Bytes)
read_literal seen [] = if seen then some ([], []) else none
read_literal false (c ∷ cs) =
    if c == b'\'' then read_literal true cs else with_byte c (read_literal false cs)
read_literal true (c ∷ cs) =
    if c == b'\'' then with_byte c (read_literal false cs) else some ([], c ∷ cs)

-- Text that does not go on with a quote.
abbrev pub NoQuote : Bytes → Type 0
NoQuote [] = Unit {0}
NoQuote (c ∷ cs) = c ≢ b'\''

ends : (rest : Bytes) → NoQuote rest → read_literal true rest ≡ some ([], rest)
ends [] h = refl
ends (c ∷ cs) h = rw (ne→== c b'\'' h)

-- A quoted string that is closed by a quote, and not followed by another one, is read as the
-- string, whatever bytes it holds.
pub read_literal-append_sql_quoted :
    (s rest : Bytes)
    → NoQuote rest
    → read_literal false (append_sql_quoted s ++ b'\'' ∷ rest) ≡ some (s, rest)
unfolding append_sql_quoted
read_literal-append_sql_quoted [] rest h = ends rest h
read_literal-append_sql_quoted (c ∷ s) rest h = elim (Bool-cases (c == b'\'')) [
  | inl e ↦
      rw (e, read_literal-append_sql_quoted s rest h)
        (ap (λ q. some (q ∷ s, rest)) (sym (==→eq c b'\'' e)))
  | inr e ↦ rw (e, e, read_literal-append_sql_quoted s rest h) refl
]

-- ===== src/Restriction/Sql/Clause.antt =====
-- The whole WHERE clause of e2k_restriction_to_sql, and what becomes of parts that SQL cannot express.
use evolution_exchange.Prelude.{none, some, [], ◌∷◌, ◌++◌, ◌≡◌, refl, ap, Bytes, codes}
use evolution_exchange.Outcome.{ok}
use evolution_exchange.Restriction.{
  RestrictionType, t_and, t_or, Restriction, Restrictions, and, or, not, content, property, compare,
  bitmask, size, exist, sub, comment, nil, cons, type_code,
}
use evolution_exchange.Restriction.Sql.{
  rn_to_sql, rns_to_sql, restriction_to_sql, where_clause, in_parens, op_text, same_type,
}
use evolution_exchange.Restriction.Sql.Text.{
  IsExpressible, AreExpressible, text, texts, rn_to_sql-IsExpressible, conjunction, disjunction,
}

-- Not empty.
abbrev HasByte : Bytes → Type 0
HasByte [] = ⊥
HasByte (c ∷ cs) = Unit {0}

HasByte-append : (xs ys : Bytes) → HasByte xs → HasByte (xs ++ ys)
HasByte-append [] ys h = absurd h
HasByte-append (x ∷ xs) ys h = tt

conjunction-HasByte :
    (inside : RestrictionType) (t : Bytes) → HasByte t → HasByte (conjunction inside t)
conjunction-HasByte t_and t h = h
conjunction-HasByte _ t h = tt

disjunction-HasByte :
    (inside : RestrictionType) (t : Bytes) → HasByte t → HasByte (disjunction inside t)
disjunction-HasByte t_or t h = h
disjunction-HasByte _ t h = tt

mutual
  text-HasByte :
      (rn : Restriction) (inside : RestrictionType) → IsExpressible rn → HasByte (text rn inside)
  text-HasByte (and rns) inside h =
      conjunction-HasByte inside _ (texts-HasByte (codes " AND ") t_and rns h)
  text-HasByte (or rns) inside h =
      disjunction-HasByte inside _ (texts-HasByte (codes " OR ") t_or rns h)
  text-HasByte (not rn) inside h = tt
  text-HasByte (content level pv) inside h = tt
  text-HasByte (property relop pv) inside h = tt
  text-HasByte (compare relop prop1 prop2) inside h = tt
  text-HasByte (bitmask b p m) inside h = absurd h
  text-HasByte (exist p) inside h = absurd h
  text-HasByte (size r p n) inside h = absurd h
  text-HasByte (sub p rn) inside h = absurd h
  text-HasByte (comment ps rn) inside h = absurd h

  texts-HasByte :
      (between : Bytes) (type : RestrictionType) (rns : Restrictions)
      → AreExpressible rns
      → HasByte (texts between type rns)
  texts-HasByte between type nil h = absurd h
  texts-HasByte between type (cons rn nil) h = text-HasByte rn type h
  texts-HasByte between type (cons rn (cons rn₁ rns)) h =
      HasByte-append (text rn type) _ (text-HasByte rn type h.0)

where_text : (t : Bytes) → HasByte t → where_clause (some t) ≡ some (codes "WHERE " ++ t)
where_text [] h = absurd h
where_text (c ∷ cs) h = refl

-- A restriction of which SQL can express every part gives a WHERE clause, in which the parts of
-- each conjunction are joined by AND and those of each disjunction by OR, in parentheses where
-- something of another kind is around them, a negation is NOT with its part in parentheses, and
-- each comparison has its property's name in double quotes, its operator, and the literal of its
-- value.
pub restriction_to_sql-IsExpressible :
    (rn : Restriction)
    → IsExpressible rn
    → restriction_to_sql rn ≡ ok (some (codes "WHERE " ++ text rn t_and))
unfolding restriction_to_sql
restriction_to_sql-IsExpressible rn h =
    rw (rn_to_sql-IsExpressible rn t_and h)
      (ap ok (where_text (text rn t_and) (text-HasByte rn t_and h)))

-- Where the first of two parts of a conjunction can be expressed in SQL and rn_to_sql answers
-- FALSE for the second one, the clause ends with the operator.
restriction_to_sql-dangling :
    (rn rn₁ : Restriction)
    → IsExpressible rn
    → rn_to_sql rn₁ t_and ≡ ok none
    → restriction_to_sql (and (cons rn (cons rn₁ nil)))
      ≡ ok (some (codes "WHERE " ++ (text rn t_and ++ codes " AND ")))
unfolding restriction_to_sql rn_to_sql rns_to_sql same_type in_parens op_text type_code
restriction_to_sql-dangling rn rn₁ h e =
    rw (rn_to_sql-IsExpressible rn t_and h, e)
      (ap ok (
        where_text (text rn t_and ++ codes " AND ")
          (HasByte-append (text rn t_and) (codes " AND ") (text-HasByte rn t_and h))))

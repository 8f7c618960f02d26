-- ===== src/Restriction/Sql.antt =====
-- The SQL form of a restriction: e2k_restriction_to_sql of server/lib/e2k-restriction.c.
pub mod Literal
pub mod Text
pub mod Clause
use evolution_exchange.Prelude.{
  ℕ, zero, suc, ◌+◌, ◌%◌, ◌^◌, Bool, true, false, ◌||◌, Option, none, some, List, [], ◌∷◌, ◌++◌,
  ◌==◌, if◌then◌else◌, Bytes, codes, as_gint,
}
use evolution_exchange.Outcome.{Outcome, ok, failed, fault, ◌>>=◌}
use evolution_exchange.Time.{padded}
use evolution_exchange.PropValue.{PropValue, Value, string, binary, date, int, bool, as_string}
use evolution_exchange.Restriction.{
  RestrictionType, t_and, t_or, t_not, Restriction, Restrictions, and, or, not, content, property,
  compare, bitmask, size, exist, sub, comment, nil, cons, type_code,
}

-- sql_relops; `none` from n_sql_relops on.
unfoldable pub sql_relop : ℕ → Option Bytes
sql_relop zero = some (codes "<")
sql_relop (suc zero) = some (codes "<=")
sql_relop (suc (suc zero)) = some (codes ">")
sql_relop (suc (suc (suc zero))) = some (codes ">=")
sql_relop (suc (suc (suc (suc zero)))) = some (codes "=")
sql_relop (suc (suc (suc (suc (suc zero))))) = some (codes "!=")
sql_relop _ = none

unfoldable pub append_sql_quoted : Bytes → Bytes
append_sql_quoted [] = []
append_sql_quoted (c ∷ cs) =
    if c == b'\'' then b'\'' ∷ b'\'' ∷ append_sql_quoted cs else c ∷ append_sql_quoted cs

-- A property's name in double quotes.
unfoldable pub quoted_name : Bytes → Bytes
quoted_name name = b'"' ∷ (name ++ codes "\"")

-- The test on a string of the match type, the low two bits of the fuzzy level.
unfoldable pub content_test : ℕ → Bytes → Bytes
content_test level text =
    let quoted = append_sql_quoted text in
    let match = level % 4 in
    if match == 1 || match == 3
    then codes "LIKE '%" ++ (quoted ++ codes "%'")
    else if match == 2
    then codes "LIKE '" ++ (quoted ++ codes "%'")
    else codes "= '" ++ (quoted ++ codes "'")

-- The literal for a value. Any pointer but a string is read as a string.
unfoldable pub sql_value : Value → Outcome Bytes
sql_value (int n) = ok (padded 0 (as_gint n))
sql_value (bool n) = ok (if n == 0 then codes "False" else codes "True")
sql_value (date s) = ok (codes "cast (\"" ++ (s ++ codes "\" as 'dateTime.tz')"))
sql_value v = as_string v >>= λ s. ok (codes "'" ++ (append_sql_quoted s ++ codes "'"))

-- `rn->type != inside`
unfoldable pub same_type : RestrictionType → RestrictionType → Bool
same_type t inside = type_code t == type_code inside

unfoldable pub in_parens : Bool → Bytes → Bytes
in_parens true text = codes "(" ++ (text ++ codes ")")
in_parens false text = text

unfoldable pub op_text : RestrictionType → Bytes
op_text t_and = codes " AND "
op_text _ = codes " OR "

-- A test of a named property, if there is such an operator.
abbrev pub with_op : Option Bytes → Bytes → Outcome Bytes → Outcome (Option Bytes)
with_op none name value = ok none
with_op (some op) name value =
    value >>= λ text. ok (some (quoted_name name ++ (codes " " ++ (op ++ (codes " " ++ text)))))

unfoldable pub relation : ℕ → Bytes → Outcome Bytes → Outcome (Option Bytes)
relation relop name value = with_op (sql_relop relop) name value

abbrev pub joined :
    Bool → RestrictionType → Option Bytes → Outcome (Bool × Bytes) → Outcome (Bool × Bytes)
joined need_op type none rest =
    rest >>= λ (rv, more). ok (rv, (if need_op then op_text type else []) ++ more)
joined need_op type (some text) rest =
    rest >>= λ (rv, more). ok (true, (if need_op then op_text type else []) ++ (text ++ more))

abbrev pub wrapped : Bool → Bool × Bytes → Option Bytes
wrapped parens (true, text) = some (in_parens parens text)
wrapped parens (false, text) = none

abbrev pub negated : Option Bytes → Option Bytes
negated none = none
negated (some text) = some (codes "NOT (" ++ (text ++ codes ")"))

abbrev pub given : Option Bytes → Bool
given none = false
given (some text) = true

-- `none` is FALSE, when nothing is appended; otherwise the text that is appended. rns_to_sql gives
-- its answer and its text, with `need_op` at the start of the loop's round.
unfoldable mutual
  pub rn_to_sql : Restriction → RestrictionType → Outcome (Option Bytes)
  rn_to_sql (and rns) inside = rns_to_sql t_and false rns >>= λ r.
      ok (wrapped (if same_type t_and inside then false else true) r)
  rn_to_sql (or rns) inside = rns_to_sql t_or false rns >>= λ r.
      ok (wrapped (if same_type t_or inside then false else true) r)
  rn_to_sql (not rn) inside = rn_to_sql rn t_not >>= λ r. ok (negated r)
  rn_to_sql (content level pv) inside = as_string pv.value >>= λ s.
      ok (some (quoted_name pv.prop.name ++ (codes " " ++ content_test level s)))
  rn_to_sql (property relop pv) inside = relation relop pv.prop.name (sql_value pv.value)
  rn_to_sql (compare relop prop1 prop2) inside =
      relation relop prop1.name (ok (quoted_name prop2.name))
  rn_to_sql (comment props rn) inside = ok (some [])
  rn_to_sql (bitmask bitop prop mask) inside = ok none
  rn_to_sql (exist prop) inside = ok none
  rn_to_sql (size relop prop n) inside = ok none
  rn_to_sql (sub subtable rn) inside = ok none

  pub rns_to_sql : RestrictionType → Bool → Restrictions → Outcome (Bool × Bytes)
  rns_to_sql type need_op nil = ok (false, [])
  rns_to_sql type need_op (cons rn rns) =
      rn_to_sql rn type >>= λ t. joined need_op type t (rns_to_sql type (given t) rns)

abbrev pub where_clause : Option Bytes → Option Bytes
where_clause none = none
where_clause (some []) = some []
where_clause (some (c ∷ cs)) = some (codes "WHERE " ++ c ∷ cs)

-- `none` is NULL.
unfoldable pub restriction_to_sql : Restriction → Outcome (Option Bytes)
restriction_to_sql rn = rn_to_sql rn t_and >>= λ r. ok (where_clause r)

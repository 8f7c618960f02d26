-- ===== src/Restriction/Sql/Text.antt =====
-- What e2k_restriction_to_sql is meant to give: an SQL condition for each restriction that can be
-- expressed, with its parts joined by operators.
use evolution_exchange.Time.{padded}
use evolution_exchange.Prelude.{
  ℕ, suc, Bool, true, false, none, some, [], ◌++◌, ◌≡◌, ◌<◌, append-nil, zero, refl, ap,
  if◌then◌else◌, Bytes, arith, codes, ◌∷◌, ◌%◌, as_gint, ◌==◌, ◌||◌,
}
use evolution_exchange.Outcome.{ok}
use evolution_exchange.PropValue.{Value, string, binary, date, int, bool, as_string}
use evolution_exchange.Restriction.{
  RestrictionType, t_and, t_or, t_not, Restriction, Restrictions, and, or, not, content, property,
  compare, bitmask, size, exist, sub, comment, nil, cons, type_code,
}
use evolution_exchange.Restriction.Sql.{
  rn_to_sql, rns_to_sql, relation, sql_relop, sql_value, content_test, quoted_name, in_parens,
  op_text, same_type, padded, append_sql_quoted,
}

-- The operators of SQL, in the order of E2kRestrictionRelop.
abbrev pub symbol : ℕ → Bytes
symbol zero = codes "<"
symbol (suc zero) = codes "<="
symbol (suc (suc zero)) = codes ">"
symbol (suc (suc (suc zero))) = codes ">="
symbol (suc (suc (suc (suc zero)))) = codes "="
symbol _ = codes "!="

-- A property's name in double quotes.
abbrev pub column : Bytes → Bytes
column name = b'"' ∷ (name ++ b'"' ∷ [])

-- The bytes of a string, and nothing for what is none.
abbrev pub chars : Value → Bytes
chars (string (some s)) = s
chars (date s) = s
chars _ = []

-- The literal of a value: numbers in decimal, and strings in quotes, which are doubled in them.
abbrev pub literal : Value → Bytes
literal (int n) = padded 0 (as_gint n)
literal (bool zero) = codes "False"
literal (bool (suc n)) = codes "True"
literal (date s) = codes "cast (\"" ++ (s ++ codes "\" as 'dateTime.tz')")
literal v = codes "'" ++ (append_sql_quoted (chars v) ++ codes "'")

-- The test for a whole string, a part, a start and an end; an end is tested like a part.
abbrev pub matching : ℕ → Bytes → Bytes
matching zero quoted = codes "= '" ++ (quoted ++ codes "'")
matching (suc (suc zero)) quoted = codes "LIKE '" ++ (quoted ++ codes "%'")
matching _ quoted = codes "LIKE '%" ++ (quoted ++ codes "%'")

-- A value that is no binary one and no NULL string.
abbrev pub HasText : Value → Type 0
HasText (string none) = ⊥
HasText (binary b) = ⊥
HasText _ = Unit {0}

-- A condition on a string needs one.
abbrev pub IsString : Value → Type 0
IsString (string (some s)) = Unit {0}
IsString (date s) = Unit {0}
IsString _ = ⊥

-- SQL has the operators up to 5. Conjunctions and disjunctions are not empty, and no part is of
-- another kind.
abbrev mutual
  pub IsExpressible : Restriction → Type 0
  IsExpressible (and rns) = AreExpressible rns
  IsExpressible (or rns) = AreExpressible rns
  IsExpressible (not rn) = IsExpressible rn
  IsExpressible (content level pv) = IsString pv.value
  IsExpressible (property relop pv) = (relop < 6) × HasText pv.value
  IsExpressible (compare relop prop1 prop2) = relop < 6
  IsExpressible _ = ⊥

  pub AreExpressible : Restrictions → Type 0
  AreExpressible nil = ⊥
  AreExpressible (cons rn nil) = IsExpressible rn
  AreExpressible (cons rn (cons rn₁ rns)) = IsExpressible rn × AreExpressible (cons rn₁ rns)

-- A conjunction or a disjunction needs parentheses inside anything but its own kind.
abbrev pub grouped : Bytes → Bytes
grouped t = b'(' ∷ (t ++ b')' ∷ [])

abbrev pub conjunction : RestrictionType → Bytes → Bytes
conjunction t_and t = t
conjunction _ t = grouped t

abbrev pub disjunction : RestrictionType → Bytes → Bytes
disjunction t_or t = t
disjunction _ t = grouped t

-- The text of an expressible restriction, inside a conjunction, a disjunction or a negation.
abbrev mutual
  pub text : Restriction → RestrictionType → Bytes
  text (and rns) inside = conjunction inside (texts (codes " AND ") t_and rns)
  text (or rns) inside = disjunction inside (texts (codes " OR ") t_or rns)
  text (not rn) inside = codes "NOT (" ++ (text rn t_not ++ codes ")")
  text (content level pv) inside =
      column pv.prop.name
      ++ (codes " " ++ matching (level % 4) (append_sql_quoted (chars pv.value)))
  text (property relop pv) inside =
      column pv.prop.name ++ (codes " " ++ (symbol relop ++ (codes " " ++ literal pv.value)))
  text (compare relop prop1 prop2) inside =
      column prop1.name ++ (codes " " ++ (symbol relop ++ (codes " " ++ column prop2.name)))
  text _ inside = []

  pub texts : Bytes → RestrictionType → Restrictions → Bytes
  texts between type nil = []
  texts between type (cons rn nil) = text rn type
  texts between type (cons rn (cons rn₁ rns)) =
      text rn type ++ (between ++ texts between type (cons rn₁ rns))

-- rn_to_sql chooses the same parentheses.
in_parens-conjunction :
    (inside : RestrictionType) (t : Bytes)
    → in_parens (if same_type t_and inside then false else true) t ≡ conjunction inside t
unfolding in_parens same_type type_code
in_parens-conjunction t_and t = refl
in_parens-conjunction _ t = refl

in_parens-disjunction :
    (inside : RestrictionType) (t : Bytes)
    → in_parens (if same_type t_or inside then false else true) t ≡ disjunction inside t
unfolding in_parens same_type type_code
in_parens-disjunction t_or t = refl
in_parens-disjunction _ t = refl

has_relop : (n : ℕ) → n < 6 → sql_relop n ≡ some (symbol n)
unfolding sql_relop
has_relop zero h = refl
has_relop (suc zero) h = refl
has_relop (suc (suc zero)) h = refl
has_relop (suc (suc (suc zero))) h = refl
has_relop (suc (suc (suc (suc zero)))) h = refl
has_relop (suc (suc (suc (suc (suc zero))))) h = refl
has_relop (suc (suc (suc (suc (suc (suc n)))))) h = absurd (omega arith)

content_test-matching :
    (level : ℕ) (s : Bytes) → content_test level s ≡ matching (level % 4) (append_sql_quoted s)
unfolding content_test
content_test-matching level s = chosen (level % 4) (omega arith)
  where
    chosen :
        (m : ℕ)
        → m < 4
        → (if m == 1 || m == 3
            then codes "LIKE '%" ++ (append_sql_quoted s ++ codes "%'")
            else if m == 2
            then codes "LIKE '" ++ (append_sql_quoted s ++ codes "%'")
            else codes "= '" ++ (append_sql_quoted s ++ codes "'"))
          ≡ matching m (append_sql_quoted s)
    chosen zero h = refl
    chosen (suc zero) h = refl
    chosen (suc (suc zero)) h = refl
    chosen (suc (suc (suc zero))) h = refl
    chosen (suc (suc (suc (suc m)))) h = absurd (omega arith)

as_string-IsString : (v : Value) → IsString v → as_string v ≡ ok (chars v)
unfolding as_string
as_string-IsString (string (some s)) h = refl
as_string-IsString (string none) h = absurd h
as_string-IsString (binary b) h = absurd h
as_string-IsString (date s) h = refl
as_string-IsString (int n) h = absurd h
as_string-IsString (bool n) h = absurd h

sql_value-HasText : (v : Value) → HasText v → sql_value v ≡ ok (literal v)
unfolding sql_value as_string
sql_value-HasText (string (some s)) h = refl
sql_value-HasText (string none) h = absurd h
sql_value-HasText (binary b) h = absurd h
sql_value-HasText (date s) h = refl
sql_value-HasText (int n) h = refl
sql_value-HasText (bool zero) h = refl
sql_value-HasText (bool (suc n)) h = ground arith

relation-some :
    (relop : ℕ) (name value : Bytes)
    → relop < 6
    → relation relop name (ok value)
      ≡ ok (some (column name ++ (codes " " ++ (symbol relop ++ (codes " " ++ value)))))
unfolding relation quoted_name
relation-some relop name value h = rw (has_relop relop h) refl

mutual
  unfolding rn_to_sql rns_to_sql op_text quoted_name

  -- An expressible restriction gives its text.
  pub rn_to_sql-IsExpressible :
      (rn : Restriction) (inside : RestrictionType)
      → IsExpressible rn
      → rn_to_sql rn inside ≡ ok (some (text rn inside))
  rn_to_sql-IsExpressible (and rns) inside h =
      rw (rns_to_sql-AreExpressible t_and false rns h)
        (ap (λ t. ok (some t)) (in_parens-conjunction inside (texts (op_text t_and) t_and rns)))
  rn_to_sql-IsExpressible (or rns) inside h =
      rw (rns_to_sql-AreExpressible t_or false rns h)
        (ap (λ t. ok (some t)) (in_parens-disjunction inside (texts (op_text t_or) t_or rns)))
  rn_to_sql-IsExpressible (not rn) inside h = rw (rn_to_sql-IsExpressible rn t_not h) refl
  rn_to_sql-IsExpressible (content level pv) inside h =
      rw (as_string-IsString pv.value h, content_test-matching level (chars pv.value)) refl
  rn_to_sql-IsExpressible (property relop pv) inside h =
      rw (sql_value-HasText pv.value h.1) (relation-some relop pv.prop.name (literal pv.value) h.0)
  rn_to_sql-IsExpressible (compare relop prop1 prop2) inside h =
      relation-some relop prop1.name (quoted_name prop2.name) h
  rn_to_sql-IsExpressible (bitmask b p m) inside h = absurd h
  rn_to_sql-IsExpressible (exist p) inside h = absurd h
  rn_to_sql-IsExpressible (size r p n) inside h = absurd h
  rn_to_sql-IsExpressible (sub p rn) inside h = absurd h
  rn_to_sql-IsExpressible (comment ps rn) inside h = absurd h

  rns_to_sql-AreExpressible :
      (type : RestrictionType) (need_op : Bool) (rns : Restrictions)
      → AreExpressible rns
      → rns_to_sql type need_op rns
        ≡ ok (true, (if need_op then op_text type else []) ++ texts (op_text type) type rns)
  rns_to_sql-AreExpressible type need_op nil h = absurd h
  rns_to_sql-AreExpressible type need_op (cons rn nil) h =
      rw (rn_to_sql-IsExpressible rn type h) (
        ap (λ t. ok (true, (if need_op then op_text type else []) ++ t))
          (append-nil (text rn type)))
  rns_to_sql-AreExpressible type need_op (cons rn (cons rn₁ rns)) h =
      rw
        (
          rn_to_sql-IsExpressible rn type h.0,
          rns_to_sql-AreExpressible type true (cons rn₁ rns) h.1,
        )
        refl

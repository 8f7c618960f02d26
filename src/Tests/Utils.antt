-- ===== src/Tests/Utils.antt =====
-- The results on SQL, folders, texts, entry ids and permanent urls, applied to concrete inputs.
use evolution_exchange.PermanentUrl.Ends.{Returns, permanenturl_to_entryid-Returns}
use evolution_exchange.Restriction.Sql.Clause.{restriction_to_sql-IsExpressible}
use evolution_exchange.PropValue.{bool}
use evolution_exchange.Outcome.{ok}
use evolution_exchange.Strings.{same_bytes}
use evolution_exchange.Restriction.Folders.Sound.{restriction_folders_only-IsPlain}
use evolution_exchange.Restriction.Sql.Literal.{read_literal, read_literal-append_sql_quoted}
use evolution_exchange.PermanentUrl.Digits.{AreBytes}
use evolution_exchange.PermanentUrl.{permanenturl_to_entryid}
use evolution_exchange.Restriction.{Restriction, and, not, cons, nil, content, property, t_and}
use evolution_exchange.Restriction.Sql.{append_sql_quoted, restriction_to_sql}
use evolution_exchange.Restriction.Folders.{
  restriction_folders_only, folders_only, is_collection, non_null, Item,
}
use evolution_exchange.Prelude.{
  [], ◌∷◌, ◌++◌, codes, true, false, some, ℕ, Bytes, ◌≡◌, arith, if◌then◌else◌, refl, inl, ◌==◌,
}
use evolution_exchange.Restriction.Sql.Text.{text}
use evolution_exchange.Tests.{subject}

literal_example :
    read_literal false (append_sql_quoted (codes "it's") ++ b'\'' ∷ codes " AND")
    ≡ some (codes "it's", codes " AND")
literal_example = read_literal-append_sql_quoted (codes "it's") (codes " AND") (omega arith)

-- The subject holds "hi", and is not "hi".
abbrev wanted : Restriction
wanted = and (cons (content 1 subject) (cons (not (property 4 subject)) nil))

clause_example : restriction_to_sql wanted ≡ ok (some (codes "WHERE " ++ text wanted t_and))
clause_example = restriction_to_sql-IsExpressible wanted (tt, (omega arith, tt))

abbrev collection : Restriction
collection =
    property 4
      (record { prop = record { name = codes "DAV:iscollection"; proptag = 0 }; value = bool 1 })

abbrev folder : Item
folder = record { is_folder = true; passes = λ rn. false }

abbrev file : Item
file = record { is_folder = false; passes = λ rn. false }

folders_example : folder.is_folder ≡ true
folders_example =
    restriction_folders_only-IsPlain folder collection (λ e. inl refl)
      (unfold restriction_folders_only folders_only is_collection non_null same_bytes in refl)
      (unfold is_collection non_null same_bytes in refl)

-- A g_ascii_tolower that knows the letter A only.
abbrev lower : ℕ → ℕ
lower c = if c == b'A' then b'a' else c

abbrev sixteen : Bytes
sixteen = 1 ∷ 2 ∷ 3 ∷ 4 ∷ 5 ∷ 6 ∷ 7 ∷ 8 ∷ 9 ∷ 10 ∷ 11 ∷ 12 ∷ 13 ∷ 14 ∷ 15 ∷ 16 ∷ []

sixteen-AreBytes : AreBytes sixteen
sixteen-AreBytes = (
  omega arith,
  (
    omega arith,
    (
      omega arith,
      (
        omega arith,
        (
          omega arith,
          (
            omega arith,
            (
              omega arith,
              (
                omega arith,
                (
                  omega arith,
                  (
                    omega arith,
                    (
                      omega arith,
                      (omega arith, (omega arith, (omega arith, (omega arith, (omega arith, tt))))),
                    ),
                  ),
                ),
              ),
            ),
          ),
        ),
      ),
    ),
  ),
)

permanenturl_example : Returns (permanenturl_to_entryid (codes "http://h/-FlatUrlSpace-/00-1"))
permanenturl_example = permanenturl_to_entryid-Returns (codes "http://h/-FlatUrlSpace-/00-1")

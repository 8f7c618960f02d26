-- ===== src/Restriction/Build.antt =====
-- The functions that make restrictions in server/lib/e2k-restriction.c. A reference that is taken or
-- passed on makes no difference here.
use evolution_exchange.Prelude.{ℕ, ◌%◌, ◌^◌, some, List, Bytes}
use evolution_exchange.Outcome.{Outcome, ok, ◌>>=◌}
use evolution_exchange.Props.{rule_prop_set}
use evolution_exchange.PropValue.{Value, string, binary, date, int, bool}
use evolution_exchange.Restriction.{
  t_and, t_or, Restriction, and, or, not, content, property, compare, bitmask, size, exist, sub,
  to_array, conjoin,
}

unfoldable pub restriction_and : List Restriction → Restriction
restriction_and rns = conjoin t_and (to_array rns)

unfoldable pub restriction_or : List Restriction → Restriction
restriction_or rns = conjoin t_or (to_array rns)

-- conjoinv, on the arguments up to the NULL.
unfoldable pub restriction_andv : List Restriction → Restriction
restriction_andv rns = and (to_array rns)

unfoldable pub restriction_orv : List Restriction → Restriction
restriction_orv rns = or (to_array rns)

unfoldable pub restriction_not : Restriction → Restriction
restriction_not rn = not rn

unfoldable pub restriction_content : Bytes → ℕ → Bytes → Outcome Restriction
restriction_content propname fuzzy_level value = rule_prop_set propname >>= λ prop.
    ok (content fuzzy_level (record { prop = prop; value = string (some value) }))

-- The common part of the functions for a value of each type.
unfoldable pub restriction_prop : Bytes → ℕ → Value → Outcome Restriction
restriction_prop propname relop value =
    rule_prop_set propname >>= λ prop. ok (property relop (record { prop = prop; value = value }))

unfoldable pub restriction_prop_bool : Bytes → ℕ → ℕ → Outcome Restriction
restriction_prop_bool propname relop value = restriction_prop propname relop (bool value)

-- The int is kept as the 32-bit pattern that is used later.
unfoldable pub restriction_prop_int : Bytes → ℕ → ℕ → Outcome Restriction
restriction_prop_int propname relop value = restriction_prop propname relop (int (value % 2 ^ 32))

unfoldable pub restriction_prop_date : Bytes → ℕ → Bytes → Outcome Restriction
restriction_prop_date propname relop value = restriction_prop propname relop (date value)

unfoldable pub restriction_prop_string : Bytes → ℕ → Bytes → Outcome Restriction
restriction_prop_string propname relop value = restriction_prop propname relop (string (some value))

unfoldable pub restriction_prop_binary : Bytes → ℕ → Bytes → Outcome Restriction
restriction_prop_binary propname relop bytes = restriction_prop propname relop (binary bytes)

unfoldable pub restriction_compare : Bytes → ℕ → Bytes → Outcome Restriction
restriction_compare propname1 relop propname2 = rule_prop_set propname1 >>= λ prop1.
    rule_prop_set propname2 >>= λ prop2. ok (compare relop prop1 prop2)

unfoldable pub restriction_bitmask : Bytes → ℕ → ℕ → Outcome Restriction
restriction_bitmask propname bitop mask =
    rule_prop_set propname >>= λ prop. ok (bitmask bitop prop mask)

unfoldable pub restriction_size : Bytes → ℕ → ℕ → Outcome Restriction
restriction_size propname relop n = rule_prop_set propname >>= λ prop. ok (size relop prop n)

unfoldable pub restriction_exist : Bytes → Outcome Restriction
restriction_exist propname = rule_prop_set propname >>= λ prop. ok (exist prop)

unfoldable pub restriction_sub : Bytes → Restriction → Outcome Restriction
restriction_sub subtable rn = rule_prop_set subtable >>= λ prop. ok (sub prop rn)

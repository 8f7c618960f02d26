-- ===== src/PropertySet.antt =====
-- E2kProperties of server/lib/e2k-properties.c: the properties to be set and those to be removed, and
-- the table of all known properties. A value is the content of what its pointer points to; free_prop
-- and copy_prop read it with the type that is known of the name.
pub mod Typed
pub mod Kept
pub mod Refines
pub mod Copied
pub mod Faults
pub mod Uses
use evolution_exchange.Prelude.{
  ℕ, Bool, true, false, Option, none, some, List, [], ◌∷◌, ◌==◌, if◌then◌else◌, Bytes, codes, ◌++◌,
}
use evolution_exchange.Outcome.{Outcome, ok, fault, ◌>>=◌}
use evolution_exchange.Props.{prop_property_name, short_name_proptag}
use evolution_exchange.Strings.{same_bytes}
use evolution_exchange.Tables.{HashTable}

-- E2kPropType
pub data PropType : Type 0 where
  unknown string binary string_array binary_array xml int int_array boolean float date : PropType

pub PropType-discrete : Discrete PropType
PropType-discrete = hlevel

-- What a gpointer to a value points to: NULL, a gchar *, a GPtrArray of gchar *, a GByteArray, a
-- GPtrArray of GByteArray, or an xmlNode, which is known by a number.
pub data Stored : Type 0 where
  null : Stored
  text : Bytes → Stored
  texts : List Bytes → Stored
  bytes : Bytes → Stored
  byte_arrays : List Bytes → Stored
  node : ℕ → Stored

-- E2kPropInfo without its name, by which the table of known properties finds it, and without the
-- namespace, which is a function of the name.
pub record PropInfo : Type 0 where
  pub prop_type : PropType
  pub proptag : ℕ

-- The type is filled in if it was not known.
abbrev pub retyped : PropType → PropInfo → PropInfo
retyped t pi = elim pi.prop_type [ unknown ↦ record pi { prop_type = t } | _ ↦ pi ]

-- What is released: nothing for NULL. `fault`: the value is freed as what it is not.
unfoldable pub free_prop : PropType → Stored → Outcome (List Stored)
free_prop t null = ok []
free_prop binary_array (byte_arrays v) = ok (byte_arrays v ∷ [])
free_prop string_array (texts v) = ok (texts v ∷ [])
free_prop int_array (texts v) = ok (texts v ∷ [])
free_prop binary (bytes v) = ok (bytes v ∷ [])
free_prop xml (node v) = ok (node v ∷ [])
free_prop binary_array _ = fault
free_prop string_array _ = fault
free_prop int_array _ = fault
free_prop binary _ = fault
free_prop xml _ = fault
free_prop _ (text v) = ok (text v ∷ [])
free_prop _ _ = fault

-- The call of the callback: name, type and value; none for a name that is not known.
unfoldable pub foreach_callback :
    Bytes → Stored → Option PropInfo → List (Bytes × PropType × Stored)
foreach_callback name v none = []
foreach_callback name v (some pi) = (name, pi.prop_type, v) ∷ []

-- properties_free_cb: values whose name is not known are not freed.
unfoldable pub free_known : Option PropInfo → Stored → Outcome (List Stored)
free_known none v = ok []
free_known (some pi) v = free_prop pi.prop_type v

-- The value of an entry, as g_hash_table_lookup gives it: NULL if there is none.
abbrev pub or_null : Option Stored → Stored
or_null none = null
or_null (some v) = v

abbrev pub is_nil : List (Bytes × Stored) → Bool
is_nil [] = true
is_nil (p ∷ ps) = false

-- `xmlCopyNode node` is the copy that libxml makes.
module _ (xmlCopyNode : ℕ → ℕ) where
  -- `fault`: a NULL pointer is followed, or the value is read as what it is not.
  unfoldable pub copy_value : PropType → Stored → Outcome Stored
  copy_value binary_array (byte_arrays v) = ok (byte_arrays v)
  copy_value binary_array _ = fault
  copy_value string_array (texts v) = ok (texts v)
  copy_value string_array _ = fault
  copy_value binary (bytes v) = ok (bytes v)
  copy_value binary _ = fault
  copy_value xml (node n) = ok (node (xmlCopyNode n))
  copy_value xml null = ok null
  copy_value xml _ = fault
  copy_value _ (text s) = ok (text s)
  copy_value _ null = ok null
  copy_value _ _ = fault

  -- The NULL entry of a name that is not known is followed.
  unfoldable pub copy_known : Option PropInfo → Stored → Outcome Stored
  copy_known none v = fault
  copy_known (some pi) v = copy_value pi.prop_type v

-- GHashTable with g_str_hash and g_str_equal.
module _ (glib : (V : Type 0) → HashTable Bytes V same_bytes) where
  -- E2kProperties, and known_properties beside it.
  pub record Properties : Type 0 where
    pub set : (glib Stored).Table
    pub removed : (glib Stored).Table
    pub known : (glib PropInfo).Table

  -- e2k_properties_new, where `known` is what is known of properties by then.
  unfoldable pub properties_new : (glib PropInfo).Table → Properties
  properties_new known = record {
    set = (glib Stored).empty;
    removed = (glib Stored).empty;
    known = known;
  }

  -- The entry that get_propinfo finds or makes.
  unfoldable pub propinfo_entry : PropType → Bytes → Option PropInfo → Outcome PropInfo
  propinfo_entry t name none = prop_property_name name >>= λ short.
      ok (record { prop_type = t; proptag = short_name_proptag short })
  propinfo_entry t name (some pi) = ok (retyped t pi)

  unfoldable pub get_propinfo :
      Bytes → PropType → (glib PropInfo).Table → Outcome (PropInfo × (glib PropInfo).Table)
  get_propinfo name t known = propinfo_entry t name ((glib PropInfo).lookup name known) >>= λ pi.
      ok (pi, (glib PropInfo).insert name pi known)

  -- E2K_PROPERTIES_SETTER and E2K_PROPERTIES_SETTER_AS, of a value that is already made.
  unfoldable pub properties_set : PropType → Bytes → Stored → Properties → Outcome Properties
  properties_set t name v props = get_propinfo name t props.known >>= λ p.
      free_prop p.0.prop_type (or_null ((glib Stored).lookup name props.set)) >>= λ freed.
      ok (record {
        set = (glib Stored).insert name v props.set;
        removed = (glib Stored).remove name props.removed;
        known = p.1;
      })

  -- The setter of the truth values: the text is "%d" of the test.
  unfoldable pub properties_set_bool : Bytes → Bool → Properties → Outcome Properties
  properties_set_bool name v props =
      properties_set boolean name (text (if v then codes "1" else codes "0")) props

  unfoldable pub properties_remove : Bytes → Properties → Outcome Properties
  properties_remove name props = get_propinfo name unknown props.known >>= λ p.
      free_prop p.0.prop_type (or_null ((glib Stored).lookup name props.set)) >>= λ freed.
      ok (record {
        set = (glib Stored).remove name props.set;
        removed = (glib Stored).insert name null props.removed;
        known = p.1;
      })

  unfoldable pub properties_get_prop : Bytes → Properties → Stored
  properties_get_prop name props = or_null ((glib Stored).lookup name props.set)

  -- g_hash_table_size is the number of the entries.
  unfoldable pub properties_empty : Properties → Bool
  properties_empty props = is_nil ((glib Stored).entries props.set)

  unfoldable pub copy_prop :
      (ℕ → ℕ)
      → (glib PropInfo).Table
      → Bytes × Stored
      → (glib Stored).Table
      → Outcome (glib Stored).Table
  copy_prop xmlCopyNode known (name, v) copy =
      copy_known xmlCopyNode ((glib PropInfo).lookup name known) v >>= λ v'.
      ok ((glib Stored).insert name v' copy)

  -- g_hash_table_foreach
  unfoldable pub copy_props :
      (ℕ → ℕ)
      → (glib PropInfo).Table
      → List (Bytes × Stored)
      → (glib Stored).Table
      → Outcome (glib Stored).Table
  copy_props xmlCopyNode known [] copy = ok copy
  copy_props xmlCopyNode known (p ∷ ps) copy =
      copy_prop xmlCopyNode known p copy >>= λ copy'. copy_props xmlCopyNode known ps copy'

  unfoldable pub properties_copy : (ℕ → ℕ) → Properties → Outcome Properties
  properties_copy xmlCopyNode props =
      copy_props xmlCopyNode props.known ((glib Stored).entries props.set) (glib Stored).empty
      >>= λ set.
          copy_props xmlCopyNode props.known ((glib Stored).entries props.removed)
            (glib Stored).empty
          >>= λ removed. ok (record { set = set; removed = removed; known = props.known })

  -- g_hash_table_foreach with properties_free_cb: what is released, in this order.
  unfoldable pub free_props : (glib PropInfo).Table → List (Bytes × Stored) → Outcome (List Stored)
  free_props known [] = ok []
  free_props known ((name, v) ∷ ps) = free_known ((glib PropInfo).lookup name known) v >>= λ freed.
      free_props known ps >>= λ more. ok (freed ++ more)

  unfoldable pub properties_free : Properties → Outcome (List Stored)
  properties_free props = free_props props.known ((glib Stored).entries props.set)

  -- g_hash_table_foreach
  unfoldable pub foreach_calls :
      (glib PropInfo).Table → List (Bytes × Stored) → List (Bytes × PropType × Stored)
  foreach_calls known [] = []
  foreach_calls known ((name, v) ∷ ps) =
      foreach_callback name v ((glib PropInfo).lookup name known) ++ foreach_calls known ps

  unfoldable pub properties_foreach : Properties → List (Bytes × PropType × Stored)
  properties_foreach props = foreach_calls props.known ((glib Stored).entries props.set)

  unfoldable pub properties_foreach_removed : Properties → List (Bytes × PropType × Stored)
  properties_foreach_removed props = foreach_calls props.known ((glib Stored).entries props.removed)

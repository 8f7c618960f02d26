-- ===== src/VirtualPath.antt =====
-- Virtual paths: e_path_to_physical of server/lib/e2k-path.c. A string is the list of its bytes
-- before the terminator. A chunk that the source finds by strchr and copies is copied byte by byte.
pub mod Fits
use evolution_exchange.Prelude.{
  ℕ, ◌+◌, Bool, true, false, ◌&&◌, Option, none, some, [], ◌∷◌, ◌++◌, length, ◌==◌, if◌then◌else◌,
  Bytes, codes, ℤ, as_gint,
}

unfoldable pub skip_slashes : Bytes → Bytes
skip_slashes [] = []
skip_slashes (c ∷ s) = let rest = skip_slashes s in if c == b'/' then rest else c ∷ s

-- What the first loop adds to the length; `skipping` is whether a slash has just been passed.
unfoldable pub added_length : Bool → Bytes → ℕ
added_length skipping [] = 0
added_length true (c ∷ s) = added_length (c == b'/') s
added_length false (c ∷ s) = (if c == b'/' then 11 else 0) + added_length (c == b'/') s

-- The copying loop.
unfoldable pub mangle : Bool → Bytes → Bytes
mangle skipping [] = []
mangle true (c ∷ s) = let rest = mangle (c == b'/') s in if c == b'/' then rest else c ∷ rest
mangle false (c ∷ s) =
    let rest = mangle (c == b'/') s in
    if c == b'/' then c ∷ codes "subfolders/" ++ rest else c ∷ rest

unfoldable pub prefix_or_empty : Option Bytes → Bytes
prefix_or_empty none = []
prefix_or_empty (some p) = p

-- ppath_len: a gint, to which a sum beyond 2 ^ 31 - 1 is cut as on a machine of two's complement.
unfoldable pub physical_length : Option Bytes → Bytes → ℤ
physical_length prefix vpath =
    let path = skip_slashes vpath in
    as_gint (length path + 1 + length (prefix_or_empty prefix) + 1 + added_length false path)

-- What is written to the buffer, without the terminator.
unfoldable pub path_to_physical : Option Bytes → Bytes → Bytes
path_to_physical prefix vpath =
    prefix_or_empty prefix ++ codes "/" ++ mangle false (skip_slashes vpath)

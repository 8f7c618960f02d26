-- ===== src/Lib.antt =====
-- evolution-exchange: Evolution's connector to Exchange 2000 servers.
--
-- Server-side mail rules are kept in a binary property of the inbox. The connector reads them into
-- trees of rules, restrictions (conditions) and actions, and writes them back. Conditions are also
-- sent to the server as SQL. The modules follow that path from the bytes up:
--
--   Prelude, Outcome     lists, numbers and Boolean tests; what a call that reads memory can do
--   Platform             GLib's conversions, the byte order and gmtime, as parameters with laws
--   Wire, Loops          server/lib/e2k-rule.c: numbers, strings, counted bytes, loops over them
--   Unicode              server/lib/e2k-rule.c: UTF-16 strings
--   Props, PropertySet   server/lib/e2k-properties.c: names of MAPI properties and their tags; the
--                        sets of properties that requests carry
--   Operation            server/lib/e2k-operation.c: cancellation, with the threads that meet in it
--   FolderTree           server/storage/e-folder-tree.c: folders by path and by data
--   Ntlm                 server/xntlm/xntlm.c: the messages of an NTLM handshake;
--                        server/xntlm/xntlm-md4.c: the MD4 sum (Md4)
--   Sid                  server/lib/e2k-sid.c: security identifiers, binary and as strings
--   VirtualPath          server/lib/e2k-path.c: where a folder is kept in the file system
--   Strings, Tables      comparing strings; GHashTable as an interface, and lists as an example
--   Time                 server/lib/e2k-utils.c: time_t, PT_SYSTIME, FILETIME, time stamps
--   PropValue            server/lib/e2k-rule.c: property tags and values
--   Restriction          server/lib/e2k-restriction.c: the tree, its makers (Build), its binary form,
--                        its SQL form (Sql); server/lib/e2k-utils.c: folders only (Folders)
--   Action               server/lib/e2k-action.c: actions, their makers (Build), their binary form
--   Rules                server/lib/e2k-rule.c: e2k_rules_from_binary and e2k_rules_to_binary
--   Text, EntryId,       server/lib/e2k-utils.c: line ends, slashes, hashing; entry ids of
--   PermanentUrl         recipients; permanent urls
--   Uri                  server/lib/e2k-uri.c: escaping, and relative uris
--   Freebusy             server/lib/e2k-freebusy.c: the events kept for each status
--   Tests                a concrete machine, and the theorems applied to concrete inputs
--
-- A string or an array is the list of its bytes. A reader of the binary form is a function of the
-- pair (*ptr, *len): the memory from the pointer to the end of the array, and a length that may
-- become negative. It returns an Outcome: ok, failed (the call's FALSE), fault (memory outside the
-- array is read, or a union member is read as another type), or starved (the model's fuel is used
-- up, which is no behaviour of the program). An e2k_rule_append_ call is the bytes it adds.
--
-- Nested restrictions are read on fuel, one unit for each level. The fuel is one more than the
-- number of bytes in memory; each level uses up a byte, so that it suffices. The sections of a
-- permanent url are read on fuel in the same way. A condition's length is a 32-bit number, a
-- value's a 16-bit one, and numbers are cut to their width where the program does it.
--
-- A GHashTable is an interface of operations with their laws, where the order in which a table is
-- gone through is not known. The functions on operations are cut where a lock is released, and a
-- run is any sequence of the pieces. A property's value is what its pointer points to.
--
-- Parameters are GLib's conversions between UTF-8 and UTF-16, with the law that a valid string is
-- converted back, g_ascii_tolower and g_ascii_toupper, gmtime, toupper, DES, and the byte behind an
-- array. Not modelled are reference counts and, but for property sets, the freeing of memory, since
-- values are trees here, and the parts of the connector that call libraries: WebDAV and HTTP, LDAP,
-- the storage classes, Camel, the calendar and address book back ends, and the user interface.
pub mod Action
pub mod EntryId
pub mod FolderTree
pub mod Freebusy
pub mod Loops
pub mod Ntlm
pub mod Operation
pub mod Outcome
pub mod PermanentUrl
pub mod Platform
pub mod Prelude
pub mod PropValue
pub mod PropertySet
pub mod Props
pub mod Restriction
pub mod Rules
pub mod Sid
pub mod Strings
pub mod Tables
pub mod Tests
pub mod Text
pub mod Time
pub mod Unicode
pub mod Uri
pub mod VirtualPath
pub mod Wire

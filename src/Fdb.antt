-- ===== src/Fdb.antt =====
-- FoundationDB, its tuple layer and its subspaces, as the program uses them. None of this is code of
-- the repository: it is an interface with the documented behaviour as laws.
-- A database is a map from tuples to byte strings, and a transaction is one step on it: it reads one
-- snapshot, and its writes take effect together. A key is a packed tuple; the code also forms keys
-- that are a packed tuple with one byte appended, as the ends of ranges.
pub mod Tuples
pub mod Memory
pub use Tuples.{
  Str, Stamp, Element, Tuple, text, bytes, int, stamp, stamp_ltb, Field, plain, nested, nil,
  element_ord,
}
pub use Tuples.{Key, packed, suffixed, KeyRange, Database, Beneath, inside}

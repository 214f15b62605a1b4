-- ===== src/Node/PageType.antt =====
-- The page types of src/libchidb/btree.h.
use chidb.Prelude.{ℕ}

abbrev pub table_internal : ℕ
table_internal = 0x05

abbrev pub table_leaf : ℕ
table_leaf = 0x0d

abbrev pub index_internal : ℕ
index_internal = 0x02

abbrev pub index_leaf : ℕ
index_leaf = 0x0a

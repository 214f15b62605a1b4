-- ===== src/Lib.antt =====
-- chidb: a relational database in one file, after SQLite's file format.
--
-- The program. `src/libchidb/pager.c` gives paged access to the file. `src/libchidb/btree.c` keeps
-- B-trees in the pages: table B-trees from a key to a record, and index B-trees from a key to the
-- key of a row. `src/libchidb/util.c` reads and writes the integers of the format.
--
-- `src/libchidb/dbm-cursor.c` walks over the entries of a B-tree for the machine that runs
-- statements. `src/libchidb/record.c` builds, packs and unpacks the records that table B-trees
-- hold. `src/libchidb/dbm.c` is that machine, with registers, cursors and a program of
-- instructions, which `src/libchidb/dbm-ops.c` carries out. `src/libchidb/util.c` loads the schema
-- of a database from page 1. `src/libchidb/optimizer.c` rewrites a statement that was parsed, and
-- `src/libchidb/codegen.c` compiles it to a program of the machine. `src/libchidb/api.c` opens a
-- database, prepares a statement with the parser, the optimizer and the code generator, steps
-- through it and gives the columns of its rows.
--
-- The files. Bytes is util.h and util.c (get2byte to putVarint32). Run is the return codes of
-- include/chidb/chidb.h and src/libchidb/chidbInt.h, and the runs of code that works on the file.
-- Pager is pager.c: `Pager` is the struct, with the file as its size and its bytes, and
-- `read_page` is chidb_Pager_readPage, and so on. Node is the part of btree.c that works on one
-- node: `get_cell`, `insert_cell`, `find_position`, and `load_node` and `store_node` for what
-- chidb_Btree_getNodeByPage and chidb_Btree_writeNode do between the page and the struct. Btree is
-- the rest: `find`, `insert`, `insert_non_full` and `split` are the functions of these names. The
-- modules below them are named for what they prove. A node is seen as its list of entries
-- (Node.Entries), and a file as a tree of such lists (Btree.Tree). Btree.Open is chidb_Btree_open,
-- where the file and whether it can be created are arguments. Cursor is dbm-cursor.c: `collect`
-- and `cursor_open`, and the moves `rewind`, `next`, `prev` and `seek_eq` to `seek_le`. Record is
-- record.c: the buffer that a record is built in, its fields and `pack`; Record.Unpack is
-- chidb_DBRecord_unpack and Record.Create the variadic chidb_DBRecord_create; Record.Values is a
-- row of values and the calls that append it. Dbm is the statement of dbm-types.h with its arrays
-- (dbm.c: chidb_stmt_init, chidb_stmt_set_op), Dbm.Ops the instructions, `op_insert` for
-- chidb_dbm_op_Insert and so on, and Dbm.Exec chidb_stmt_exec; Dbm.Values is what the instructions
-- do with single registers and fields. The handlers that differ in one call or one test are one
-- function with an argument: `op_seek`, `op_compare`, `op_idx`, `op_open`, `op_create`, `op_copy`.
-- Schema is the chidb_schema functions of util.c, where the parser of SQL is an argument. Sql is
-- the statements of include/chisql. Optimizer is optimizer.c: `stmt_optimize` is
-- chidb_stmt_optimize, with its three lists of conjuncts as `bucket`; Optimizer.Meaning is what a
-- query means, apart from the code. Codegen is codegen.c: `emit` writes an instruction, `patch`
-- sets the target of a jump, and the child modules are named for the statements that they compile,
-- with Codegen.Conjuncts for conditions; Codegen.Statement is chidb_stmt_codegen. A signed
-- placeholder -1 for a target is its bits. Api is api.c, and Api.Prepare chidb_prepare. The parser,
-- which the build generates from `src/libchisql/sql.y`, is an argument throughout. Codegen.Layout
-- is the program as a list, Codegen.Scan.Program the program of a scan address by address, and the
-- other modules in Codegen.Scan are the machine that runs it; Codegen.Scan.Question says what a
-- query on one table is and Codegen.Scan.Values what a row has in its columns, apart from the
-- lookups of codegen.c.
--
-- Numbers. C integers are natural numbers, with the reduction to the width where the source
-- converts or stores them. A buffer is a function from offsets to bytes.
--
-- Fuel. `find`, `insert_non_full` and `collect` recurse on fuel, one unit for a level of the tree.
-- The theorems on searches and cursors ask for the depth of the tree. `exec` takes that fuel and
-- fuel for its loop, one unit for an instruction: a program may run for ever.
--
-- Not modelled. Allocation succeeds, and what frees memory is left out, as are
-- chidb_DBRecord_print and the printing of statements. The rows of the union in BTreeCell are
-- fields of one record. A read that C leaves undefined ends the run, with `fault` or `none`.
-- The parser and the printing of the SQL front end, the reader of machine test files and the shell
-- are not modelled.
pub mod Api
pub mod Btree
pub mod Bytes
pub mod Codegen
pub mod Cursor
pub mod Dbm
pub mod Node
pub mod Optimizer
pub mod Pager
pub mod Prelude
pub mod Record
pub mod Run
pub mod Schema
pub mod Sql

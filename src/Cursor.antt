-- ===== src/Cursor.antt =====
-- src/libchidb/dbm-cursor.c, dbm-cursor.h: cursors over the entries of a B-tree. A cursor holds all
-- entries, as `collect` finds them when it is opened. There are fewer than 2^31 of them, so that
-- their count is the same as an `int32_t`.
pub mod Collect
pub mod Scan
pub mod Seek
pub mod Shown
mod Tests
use chidb.Prelude.{
  ℕ, zero, suc, ◌+◌, ◌-◌, ◌%◌, ◌^◌, Bool, true, false, Option, none, some, List, [], ◌∷◌, ◌++◌,
  ◌||◌, leb, ltb, ◌==◌, if◌then◌else◌, length, get_elem?,
}
use chidb.Bytes.{Bytes, zeros}
use chidb.Run.{Code, Run, ok, err, fault, out_of_fuel, and_then, Cmd, pure, ◌>>=◌, ◌>>◌, ignore}
use chidb.Pager.{Pager}
use chidb.Node.PageType
use chidb.Node.{BTreeNode, BTreeCell, is_index}
use chidb.Btree.{get_node_by_page, cells_from}

-- What a collector holds of an entry. A `NULL` pointer, in an index, is the zeros.
pub record CursorRow : Type 0 where
  pub key : ℕ
  pub data_ : Bytes
  pub size : ℕ
  pub pkey : ℕ

unfoldable pub collector_push : CursorRow → Cmd (List CursorRow) (Unit {0})
collector_push r out = ok tt (out ++ (r ∷ []))

unfoldable pub row_of_cell : BTreeCell → CursorRow
row_of_cell c = record {
  key = c.key;
  data_ = c.data_;
  size = c.data_size % 2 ^ 16;
  pkey = c.key_pk;
}

-- The loop over the cells. A leaf's cells are pushed; in an internal node the children are visited,
-- and an index pushes its own cells between them.
unfoldable pub collect_cells :
    (ℕ → Cmd (List CursorRow) (Unit {0})) → ℕ → List BTreeCell → Cmd (List CursorRow) (Unit {0})
collect_cells visit type [] = pure tt
collect_cells visit type (c ∷ cs) =
    (if type == PageType.table_leaf
      then collector_push (row_of_cell c)
      else if type == PageType.table_internal
      then ignore (visit c.child_page)
      else if type == PageType.index_leaf
      then collector_push (row_of_cell c)
      else if type == PageType.index_internal
      then ignore (visit c.child_page) >> collector_push (row_of_cell c)
      else pure tt)
    >> collect_cells visit type cs

-- What `collect` does with a node that was loaded.
unfoldable pub collect_node :
    (ℕ → Cmd (List CursorRow) (Unit {0})) → BTreeNode → Cmd (List CursorRow) (Unit {0})
collect_node visit btn =
    collect_cells visit btn.type (cells_from btn 0 btn.n_cells)
    >> (if (btn.type == PageType.table_internal) || (btn.type == PageType.index_internal)
        then ignore (visit btn.right_page)
        else pure tt)

unfoldable pub collect : ℕ → Pager → ℕ → Cmd (List CursorRow) (Unit {0})
collect zero p npage out = out_of_fuel
collect (suc fuel) p npage out =
    let visit = collect fuel p in
    elim (get_node_by_page npage p) [
      | ok btn p' ↦ collect_node visit btn out
      | err c p' ↦ err c out
      | fault ↦ fault
      | out_of_fuel ↦ out_of_fuel
    ]

pub data CursorType : Type 0 where
  unspecified read write : CursorType

-- The position is `none` for -1.
pub record Cursor : Type 0 where
  pub type : CursorType
  pub root : ℕ
  pub is_index : Bool
  pub rows : List CursorRow
  pub pos : Option ℕ

unfoldable pub cursor_open : ℕ → ℕ → CursorType → Cmd Pager Cursor
cursor_open fuel root type p = elim (collect fuel p root []) [
  | ok u out ↦ and_then (get_node_by_page root p) λ btn p'.
      ok (record { type = type; root = root; is_index = is_index btn.type; rows = out; pos = none })
        p'
  | err c out ↦ err c p
  | fault ↦ fault
  | out_of_fuel ↦ out_of_fuel
]

-- The memory that is freed is not modelled.
unfoldable pub cursor_close : Cursor → Cursor
cursor_close c = record c { type = CursorType.unspecified }

-- Each move also says whether the cursor is empty, has moved or has found an entry.
unfoldable pub rewind : Cursor → Bool × Cursor
rewind c =
    let empty = length c.rows == 0 in (empty, record c { pos = if empty then none else some 0 })

unfoldable pub next_pos : Option ℕ → ℕ
next_pos none = 0
next_pos (some i) = i + 1

unfoldable pub next : Cursor → Bool × Cursor
next c =
    let i = next_pos c.pos in
    if ltb i (length c.rows) then (true, record c { pos = some i }) else (false, c)

unfoldable pub prev : Cursor → Bool × Cursor
prev c = elim c.pos [
  | none ↦ (false, c)
  | some i ↦ if leb 1 i then (true, record c { pos = some (i - 1) }) else (false, c)
]

-- The loop upwards, from index `i` on, to the first row whose key passes the test.
unfoldable pub first_from : (ℕ → Bool) → ℕ → List CursorRow → Option ℕ
first_from test i [] = none
first_from test i (r ∷ rs) =
    let later = first_from test (i + 1) rs in if test r.key then some i else later

-- The loop downwards, from index `k - 1`, to the last such row.
unfoldable pub last_below : (ℕ → Bool) → List CursorRow → ℕ → Option ℕ
last_below test rs zero = none
last_below test rs (suc i) =
    let earlier = last_below test rs i in
    elim (get_elem? rs i) [ none ↦ none | some r ↦ if test r.key then some i else earlier ]

-- A seek that finds nothing leaves the cursor where it is.
unfoldable pub moved_to : Cursor → Option ℕ → Bool × Cursor
moved_to c none = (false, c)
moved_to c (some i) = (true, record c { pos = some i })

unfoldable pub seek_eq : Cursor → ℕ → Bool × Cursor
seek_eq c key = moved_to c (first_from (λ k. k == key) 0 c.rows)

unfoldable pub seek_gt : Cursor → ℕ → Bool × Cursor
seek_gt c key = moved_to c (first_from (λ k. ltb key k) 0 c.rows)

unfoldable pub seek_ge : Cursor → ℕ → Bool × Cursor
seek_ge c key = moved_to c (first_from (λ k. leb key k) 0 c.rows)

unfoldable pub seek_lt : Cursor → ℕ → Bool × Cursor
seek_lt c key = moved_to c (last_below (λ k. ltb k key) c.rows (length c.rows))

unfoldable pub seek_le : Cursor → ℕ → Bool × Cursor
seek_le c key = moved_to c (last_below (λ k. leb k key) c.rows (length c.rows))

-- ===== src/Dbm/Exec/Yields.antt =====
-- src/libchidb/dbm.c: the rows that the scanning program gives.
use chidb.Prelude.{
  ℕ, suc, ◌+◌, ◌<◌, ◌≡◌, refl, ap, ◌∙◌, true, false, none, some, List, [], ◌∷◌, arith, get_elem?,
  length,
}
use chidb.Run.{Code, ok, err}
use chidb.Cursor.{CursorRow, Cursor, rewind, next, next_pos}
use chidb.Dbm.{Stmt}
use chidb.Dbm.Ops.{op_rewind, op_next, op_halt, dispatch, op_handle}
use chidb.Dbm.Exec.{exec_loop, finish, ended, exec}
use chidb.Dbm.Exec.Stops.{loop-done}
use chidb.Api.{column_int}
use chidb.Dbm.Exec.Scan.{
  scan_ops, IsScanning, round-ok, moved, moved-IsScanning, move_cursor-moved, row_rounds,
  shown-IsScanning, shown_column,
}

exec-row :
    (depth fuel : ℕ) (s s' : Stmt)
    → exec_loop depth fuel s ≡ err Code.row s'
    → s'.n_rr ≡ 1
    → s'.n_cols ≡ 1
    → exec depth fuel s ≡ err Code.row s'
unfolding exec ended finish
exec-row depth fuel s s' e h g = ground (arith, e)

exec-done :
    (depth fuel : ℕ) (s s' : Stmt)
    → exec_loop depth fuel s ≡ ok tt s'
    → s'.n_rr ≡ 1
    → s'.n_cols ≡ 1
    → exec depth fuel s ≡ err Code.done s'
unfolding exec ended finish
exec-done depth fuel s s' e h g = ground (arith, e)

-- Runs that give rows with these integers in column 0, one after the other, and then end.
pub data Yields (depth fuel : ℕ) : Stmt → List ℕ → Type 0 where
  ends : {s s' : Stmt} → exec depth fuel s ≡ err Code.done s' → Yields depth fuel s []
  yields :
      {s s' : Stmt} {k : ℕ} {ks : List ℕ}
      → exec depth fuel s ≡ err Code.row s'
      → column_int s' 0 ≡ some k
      → Yields depth fuel s' ks
      → Yields depth fuel s (k ∷ ks)

abbrev pub keys : List CursorRow → List ℕ
keys [] = []
keys (row ∷ rows) = row.key ∷ keys rows

pub next_last :
    (cur : Cursor) (i : ℕ) → cur.pos ≡ some i → length cur.rows ≡ i + 1 → next cur ≡ (false, cur)
unfolding next next_pos
next_last cur i at e = rw at (ground arith)

pub next_row :
    (cur : Cursor) (i : ℕ)
    → cur.pos ≡ some i
    → i + 1 < length cur.rows
    → next cur ≡ (true, record cur { pos = some (i + 1) })
unfolding next next_pos
next_row cur i at h = rw at (ground arith)

pub rewind_empty : (cur : Cursor) → cur.rows ≡ [] → rewind cur ≡ (true, record cur { pos = none })
unfolding rewind
rewind_empty cur e = ground (arith, ap length e)

pub rewind_first :
    (cur : Cursor) (row : CursorRow) (rest : List CursorRow)
    → cur.rows ≡ row ∷ rest
    → rewind cur ≡ (false, record cur { pos = some 0 })
unfolding rewind
rewind_first cur row rest e = ground (arith, ap length e)

pub behind_first :
    (cur : Cursor) (row : CursorRow) (rest : List CursorRow)
    → cur.rows ≡ row ∷ rest
    → (j : ℕ) → get_elem? cur.rows (0 + 1 + j) ≡ get_elem? rest j
behind_first cur row rest e j =
    ap (λ (rows : List CursorRow). get_elem? rows (0 + 1 + j)) e ∙ second
  where
    second : get_elem? (row ∷ rest) (0 + 1 + j) ≡ get_elem? rest j
    second = rw index refl
      where
        index : 0 + 1 + j ≡ suc j
        index = omega arith

module _ (depth fuel : ℕ) where
  -- From Halt on.
  halt_rounds :
      (cur : Cursor) (s : Stmt)
      → IsScanning cur 4 s
      → exec_loop depth (suc (suc fuel)) s ≡ ok tt (record s { pc = s.end_op })
  unfolding op_handle dispatch op_halt
  halt_rounds cur s scanning =
      round-ok depth (suc fuel) cur 4 s scanning (omega arith) (record s { pc = s.end_op }) refl
      ∙ loop-done depth fuel (record s { pc = s.end_op }) (omega arith)

  -- The rest of the rows lies behind the row `i` of the cursor.
  abbrev Behind : Cursor → ℕ → List CursorRow → Type 0
  Behind cur i rest =
      ((j : ℕ) → get_elem? cur.rows (i + j) ≡ get_elem? rest j)
      × (length cur.rows ≡ i + length rest)

  next-Yields :
      (rest : List CursorRow) (cur : Cursor) (i : ℕ) (s : Stmt)
      → IsScanning cur 3 s
      → cur.pos ≡ some i
      → Behind cur (i + 1) rest
      → Yields depth (suc (suc (suc fuel))) s (keys rest)
  unfolding op_handle dispatch op_next
  next-Yields [] cur i s scanning at (rows, count) = ends (
      exec-done depth (suc (suc (suc fuel))) s _
        (round-ok depth (suc (suc fuel)) cur 3 s scanning (omega arith)
            (moved cur 3 s scanning cur (s.pc + 1))
            (move_cursor-moved cur 3 s scanning next (scan_ops 3) false cur refl
              (next_last cur i at (omega arith)))
          ∙ halt_rounds cur (moved cur 3 s scanning cur (s.pc + 1)) (
              moved-IsScanning cur 3 s scanning cur.pos (s.pc + 1) 4
                (omega (arith, scanning.pc_is))))
        scanning.count_is scanning.cols_is)
  next-Yields (row ∷ rest) cur i s scanning at (rows, count) =
      let cur' : Cursor = record cur { pos = some (i + 1) } in
      let on_row : IsScanning cur' 1 (moved cur 3 s scanning cur' 1) =
        moved-IsScanning cur 3 s scanning (some (i + 1)) 1 1 refl in
      let row_is : get_elem? cur'.rows (i + 1) ≡ some row =
        ap (get_elem? cur.rows) (omega arith) ∙ rows 0 in
      yields
        (exec-row depth (suc (suc (suc fuel))) s _
          (round-ok depth (suc (suc fuel)) cur 3 s scanning (omega arith)
              (moved cur 3 s scanning cur' 1)
              (move_cursor-moved cur 3 s scanning next (scan_ops 3) true cur' refl
                (next_row cur i at (omega arith)))
            ∙ row_rounds depth fuel cur' (moved cur 3 s scanning cur' 1) row (i + 1) on_row refl
                row_is)
          refl scanning.cols_is)
        (shown_column depth fuel cur' (moved cur 3 s scanning cur' 1) row (i + 1) on_row refl
          row_is)
        (next-Yields rest cur' (i + 1) _
          (shown-IsScanning depth fuel cur' (moved cur 3 s scanning cur' 1) row (i + 1) on_row refl
            row_is)
          refl (λ j. ap (get_elem? cur.rows) (omega arith) ∙ rows (suc j), omega arith))

  rewind-Yields :
      (rows : List CursorRow) (cur : Cursor) (s : Stmt)
      → IsScanning cur 0 s
      → cur.rows ≡ rows
      → Yields depth (suc (suc (suc fuel))) s (keys rows)
  unfolding op_handle dispatch op_rewind
  rewind-Yields [] cur s scanning e =
      let empty : Cursor = record cur { pos = none } in
      ends (
        exec-done depth (suc (suc (suc fuel))) s _
          (round-ok depth (suc (suc fuel)) cur 0 s scanning (omega arith)
              (moved cur 0 s scanning empty 4)
              (move_cursor-moved cur 0 s scanning rewind (scan_ops 0) true empty refl
                (rewind_empty cur e))
            ∙ halt_rounds empty (moved cur 0 s scanning empty 4)
                (moved-IsScanning cur 0 s scanning none 4 4 refl))
          scanning.count_is scanning.cols_is)
  rewind-Yields (row ∷ rest) cur s scanning e =
      let first : Cursor = record cur { pos = some 0 } in
      let on_row : IsScanning first 1 (moved cur 0 s scanning first (s.pc + 1)) =
        moved-IsScanning cur 0 s scanning (some 0) (s.pc + 1) 1 (omega (arith, scanning.pc_is)) in
      let row_is : get_elem? first.rows 0 ≡ some row =
        ap (λ (rows : List CursorRow). get_elem? rows 0) e in
      yields
        (exec-row depth (suc (suc (suc fuel))) s _
          (round-ok depth (suc (suc fuel)) cur 0 s scanning (omega arith)
              (moved cur 0 s scanning first (s.pc + 1))
              (move_cursor-moved cur 0 s scanning rewind (scan_ops 0) false first refl
                (rewind_first cur row rest e))
            ∙ row_rounds depth fuel first (moved cur 0 s scanning first (s.pc + 1)) row 0 on_row
                refl row_is)
          refl scanning.cols_is)
        (shown_column depth fuel first (moved cur 0 s scanning first (s.pc + 1)) row 0 on_row refl
          row_is)
        (next-Yields rest first 0 _
          (shown-IsScanning depth fuel first (moved cur 0 s scanning first (s.pc + 1)) row 0 on_row
            refl row_is)
          refl (behind_first first row rest e, ap length e ∙ omega arith))

  -- The program of Rewind, Key, ResultRow, Next and Halt over an open cursor gives the keys of its rows as result rows, all of them, each once and in the
  -- order of the cursor, and then ends. Fuel for three rounds is enough for each run.
  pub scan-Yields :
      (cur : Cursor) (s : Stmt)
      → IsScanning cur 0 s
      → Yields depth (suc (suc (suc fuel))) s (keys cur.rows)
  scan-Yields cur s scanning = rewind-Yields cur.rows cur s scanning refl

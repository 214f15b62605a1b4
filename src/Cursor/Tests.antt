-- ===== src/Cursor/Tests.antt =====
-- src/libchidb/dbm-cursor.c on the sample table.
use chidb.Prelude.{ℕ, ◌≤◌, ◌≡◌, refl, arith, true, false, some, none, [], ◌∷◌, ltb, leb, ◌==◌}
use chidb.Bytes.{zeros}
use chidb.Btree.Tree.{depth}
use chidb.Btree.Sample.{table, two_rows, table-Holds}
use chidb.Cursor.{
  CursorRow, CursorType, Cursor, cursor_open, next, prev, seek_eq, seek_gt, seek_ge, seek_lt,
  seek_le, moved_to, first_from, last_below,
}
use chidb.Cursor.Shown.{in_order}
use chidb.Cursor.Collect.{Opens, cursor_open-in_order}
use chidb.Cursor.Scan.{scan, scan-rows, prev-next}
use chidb.Cursor.Seek.{SeeksFirst, SeeksLast, seek-SeeksFirst, seek-SeeksLast}

two_rows_deep : depth two_rows ≤ 2
unfolding depth
two_rows_deep = omega arith

cursor_open-in_order_example :
    Opens table 4 CursorType.read
      (in_order false two_rows)
      false
      (cursor_open 2 4 CursorType.read table)
cursor_open-in_order_example =
    cursor_open-in_order table false table-Holds CursorType.read 2 two_rows_deep

abbrev key_row : ℕ → CursorRow
key_row k = record { key = k; data_ = zeros; size = 0; pkey = k }

abbrev three_keys : Cursor
three_keys = record {
  type = CursorType.read;
  root = 4;
  is_index = true;
  rows = key_row 2 ∷ key_row 5 ∷ key_row 5 ∷ [];
  pos = none;
}

seek_le_last : seek_le three_keys 6 ≡ (true, record three_keys { pos = some 2 })
unfolding seek_le moved_to last_below
seek_le_last = refl

seek_gt_none : seek_gt three_keys 5 ≡ (false, three_keys)
unfolding seek_gt moved_to first_from
seek_gt_none = refl

seek-SeeksFirst_example :
    SeeksFirst (λ k. k == 5) three_keys (seek_eq three_keys 5)
    × SeeksFirst (λ k. ltb 5 k) three_keys (seek_gt three_keys 5)
    × SeeksFirst (λ k. leb 5 k) three_keys (seek_ge three_keys 5)
seek-SeeksFirst_example = seek-SeeksFirst three_keys 5

seek-SeeksLast_example :
    SeeksLast (λ k. ltb k 5) three_keys (seek_lt three_keys 5)
    × SeeksLast (λ k. leb k 5) three_keys (seek_le three_keys 5)
seek-SeeksLast_example = seek-SeeksLast three_keys 5

scan-rows_example : scan 3 three_keys ≡ three_keys.rows
scan-rows_example = scan-rows three_keys 3 (omega arith)

prev-next_example :
    (next (record three_keys { pos = some 1 }) ≡ (true, record three_keys { pos = some 2 }))
    × (prev (next (record three_keys { pos = some 1 })).1
        ≡ (true, record three_keys { pos = some 1 }))
prev-next_example = prev-next three_keys 1 (omega arith)

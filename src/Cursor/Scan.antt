-- ===== src/Cursor/Scan.antt =====
-- src/libchidb/dbm-cursor.c: the scan of a cursor's rows with `rewind` and `next`.
use chidb.Prelude.{
  ℕ, zero, suc, ◌+◌, ◌-◌, ◌≤◌, ◌<◌, ◌≡◌, refl, sym, ap, ◌∙◌, true, false, Option, none, some, List,
  [], ◌∷◌, inl, inr, if◌then◌else◌, arith, le-cases, length, get_elem?, drop,
}
use chidb.Cursor.{CursorRow, Cursor, next_pos, rewind, next, prev}

-- The row that a cursor stands on.
abbrev pub current : Cursor → Option CursorRow
current c = elim c.pos [ none ↦ none | some i ↦ get_elem? c.rows i ]

abbrev pub row_and : Option CursorRow → List CursorRow → List CursorRow
row_and none rs = []
row_and (some r) rs = r ∷ rs

-- The rows that `chidb_Cursor_next` brings a cursor to, until it does not move.
unfoldable pub visited : ℕ → Cursor → List CursorRow
visited zero c = []
visited (suc fuel) c =
    let rest = visited fuel (next c).1 in
    if (next c).0 then row_and (current (next c).1) rest else []

-- A scan from the start: the row that `chidb_Cursor_rewind` comes to, and those that follow.
abbrev pub scan : ℕ → Cursor → List CursorRow
scan fuel c = row_and (current (rewind c).1) (visited fuel (rewind c).1)

drop-none : (rs : List CursorRow) (n : ℕ) → length rs ≤ n → drop n rs ≡ []
drop-none [] zero h = refl
drop-none [] (suc n) h = refl
drop-none (r ∷ rs) zero h = absurd (omega arith)
drop-none (r ∷ rs) (suc n) h = drop-none rs n (omega arith)

drop-row :
    (rs : List CursorRow) (i : ℕ)
    → i < length rs
    → drop i rs ≡ row_and (get_elem? rs i) (drop (suc i) rs)
drop-row [] i h = absurd (omega arith)
drop-row (r ∷ rs) zero h = refl
drop-row (r ∷ rs) (suc i) h = drop-row rs i (omega arith)

next-stays : (c : Cursor) → length c.rows ≤ next_pos c.pos → next c ≡ (false, c)
unfolding next
next-stays c h = ground arith

next-moves :
    (c : Cursor)
    → next_pos c.pos < length c.rows
    → next c ≡ (true, record c { pos = some (next_pos c.pos) })
unfolding next
next-moves c h = ground arith

behind : (i : ℕ) → i + 1 ≡ suc i
behind i = omega arith

visited-drop :
    (fuel : ℕ) (c : Cursor)
    → length c.rows ≤ fuel + next_pos c.pos
    → visited fuel c ≡ drop (next_pos c.pos) c.rows
unfolding visited next_pos
visited-drop zero c h = sym (drop-none c.rows (next_pos c.pos) (omega arith))
visited-drop (suc fuel) c h = elim (le-cases (length c.rows) (next_pos c.pos)) [
  | inl end ↦ rw (next-stays c end) (sym (drop-none c.rows (next_pos c.pos) end))
  | inr more ↦ rw (next-moves c more) (
      ap (row_and (get_elem? c.rows (next_pos c.pos))) (
        visited-drop fuel (record c { pos = some (next_pos c.pos) }) (omega arith)
        ∙ ap (λ n. drop n c.rows) (behind (next_pos c.pos)))
      ∙ sym (drop-row c.rows (next_pos c.pos) more))
]

rewind-empty : (c : Cursor) → length c.rows ≡ 0 → rewind c ≡ (true, record c { pos = none })
unfolding rewind
rewind-empty c h = ground arith

rewind-first : (c : Cursor) → 1 ≤ length c.rows → rewind c ≡ (false, record c { pos = some 0 })
unfolding rewind
rewind-first c h = ground arith

-- `chidb_Cursor_rewind` and then `chidb_Cursor_next` until it does not move visit every row of the cursor once, in
-- order. One step for each row is enough.
pub scan-rows : (c : Cursor) (fuel : ℕ) → length c.rows ≤ fuel → scan fuel c ≡ c.rows
unfolding next_pos
scan-rows c fuel h = elim (le-cases 1 (length c.rows)) [
  | inl some_rows ↦ rw (rewind-first c some_rows) (
      ap (row_and (get_elem? c.rows 0))
        (visited-drop fuel (record c { pos = some 0 }) (omega arith))
      ∙ sym (drop-row c.rows 0 some_rows))
  | inr no_rows ↦ rw (rewind-empty c (omega arith)) (sym (drop-none c.rows 0 (omega arith)))
]

back :
    (c : Cursor) (i : ℕ)
    → prev (record c { pos = some (i + 1) }) ≡ (true, record c { pos = some i })
unfolding prev
back c i = ground (arith, ap (λ n. record c { pos = some n }) (pred i))
  where
    pred : (i : ℕ) → i + 1 - 1 ≡ i
    pred i = omega arith

-- From a row that is not the last, `chidb_Cursor_next` moves to the row behind it, and `chidb_Cursor_prev` moves
-- back to the cursor as it was.
pub prev-next :
    (c : Cursor) (i : ℕ)
    → i + 1 < length c.rows
    → (next (record c { pos = some i }) ≡ (true, record c { pos = some (i + 1) }))
      × (prev (next (record c { pos = some i })).1 ≡ (true, record c { pos = some i }))
unfolding next_pos
prev-next c i h =
    let moved : next (record c { pos = some i }) ≡ (true, record c { pos = some (i + 1) }) =
      next-moves (record c { pos = some i }) h in
    (moved, ap (λ r. prev r.1) moved ∙ back c i)

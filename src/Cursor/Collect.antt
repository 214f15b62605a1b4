-- ===== src/Cursor/Collect.antt =====
-- src/libchidb/dbm-cursor.c: `collect` finds the entries of a tree in order.
use chidb.Prelude.{
  ℕ, zero, suc, ◌^◌, ◌≤◌, ◌<◌, ◌≡◌, refl, sym, ap, subst, ◌∙◌, Bool, true, false, none, List, [],
  ◌∷◌, ◌++◌, ◌||◌, ◌==◌, if◌then◌else◌, arith,
}
use mathlib.Core.List.{append-nil}
use chidb.Run.{Run, ok, err, fault, out_of_fuel, and_then, Cmd, pure, ◌>>◌, ignore}
use chidb.Pager.{Pager}
use chidb.Pager.Laws.{IsPage}
use chidb.Node.PageType
use chidb.Node.{BTreeNode, BTreeCell, is_index}
use chidb.Node.Entries.{IsNode, Entry, entry, entries}
use chidb.Node.Position.{entries-shifted}
use chidb.Btree.{get_node_by_page, cells_from}
use chidb.Btree.Tree.{
  Tree, Kids, depth, depth_kids, leaf_type, internal_type, node_at, IsNodeAt, Holds, leaf_at,
  node_in, HoldsKids, last_at, more_at,
}
use chidb.Btree.Find.{get_node_by_page-ok}
use chidb.Cursor.{
  CursorRow, collector_push, row_of_cell, collect_cells, collect_node, collect, CursorType, Cursor,
  cursor_open,
}
use chidb.Cursor.Shown.{
  Shown, shown_entry, shown_rows, shown_entries, in_order, in_order_kids, Appends, ignore-Appends,
  then-Appends, nothing-Appends, Cells, push_cell, leaf-Appends, Cells-from,
}

-- What a node adds, when the visits of its children add what their trees hold.
child-entry : (c : BTreeCell) (e : Entry) → entry c ≡ e → c.child_page ≡ e.child_page
unfolding entry
child-entry c e h = ap (λ f. f.child_page) h

and_then_assoc :
    (r : Run (List CursorRow) (Unit {0})) (k n : Cmd (List CursorRow) (Unit {0}))
    → and_then (and_then r (λ u. k)) (λ u. n) ≡ and_then r (λ u. k >> n)
and_then_assoc (ok u s) k n = refl
and_then_assoc (err c s) k n = refl
and_then_assoc fault k n = refl
and_then_assoc out_of_fuel k n = refl

regroup :
    {s : List Shown} (m k n : Cmd (List CursorRow) (Unit {0}))
    → Appends s (m >> (k >> n))
    → Appends s (m >> k >> n)
regroup m k n a out = let (rs, e, h) = a out in (rs, and_then_assoc (m out) k n ∙ e, h)

module _ (visit : ℕ → Cmd (List CursorRow) (Unit {0})) (c : BTreeCell) (e : Entry)
    (cs : List BTreeCell) (same : entry c ≡ e) (small : c.data_size < 2 ^ 16)
    (n : Cmd (List CursorRow) (Unit {0})) where
  visit_child :
      {s : List Shown} → Appends s (visit e.child_page) → Appends s (ignore (visit c.child_page))
  visit_child {s} a =
      ignore-Appends (subst (λ g. Appends s (visit g)) (sym (child-entry c e same)) a)

  table-cell :
      {s t : List Shown}
      → Appends s (visit e.child_page)
      → Appends t (collect_cells visit PageType.table_internal cs >> n)
      → Appends (s ++ t) (collect_cells visit PageType.table_internal (c ∷ cs) >> n)
  unfolding collect_cells
  table-cell a b =
      regroup (ignore (visit c.child_page)) (collect_cells visit PageType.table_internal cs) n
        (then-Appends (visit_child a) b)

  index-cell :
      {s t : List Shown}
      → Appends s (visit e.child_page)
      → Appends t (collect_cells visit PageType.index_internal cs >> n)
      → Appends
          (s ++ ((shown_entry e ∷ []) ++ t))
          (collect_cells visit PageType.index_internal (c ∷ cs) >> n)
  unfolding collect_cells
  index-cell a b =
      regroup (ignore (visit c.child_page) >> collector_push (row_of_cell c))
        (collect_cells visit PageType.index_internal cs) n
        (regroup (ignore (visit c.child_page)) (collector_push (row_of_cell c))
          (collect_cells visit PageType.index_internal cs >> n)
          (then-Appends (visit_child a) (then-Appends (push_cell c e same small) b)))

-- The entries of a node as the loop sees them.
node-Cells :
    (page_size : ℕ) (btn : BTreeNode)
    → IsNode page_size btn
    → Cells (cells_from btn 0 btn.n_cells) (entries btn)
node-Cells page_size btn is =
    rw (entries-shifted btn) (Cells-from page_size btn is 0 btn.n_cells (omega arith))

-- `collect_node` of the parts of a node.
abbrev node_run :
    (ℕ → Cmd (List CursorRow) (Unit {0})) → ℕ → List BTreeCell → ℕ → Cmd (List CursorRow) (Unit {0})
node_run visit type cs right =
    collect_cells visit type cs
    >> (if (type == PageType.table_internal) || (type == PageType.index_internal)
        then ignore (visit right)
        else pure tt)

collect_node-run :
    (visit : ℕ → Cmd (List CursorRow) (Unit {0})) (btn : BTreeNode) (type : ℕ) (s : List Shown)
    → btn.type ≡ type
    → Appends s (node_run visit type (cells_from btn 0 btn.n_cells) btn.right_page)
    → Appends s (collect_node visit btn)
unfolding collect_node
collect_node-run visit btn type s t =
    subst (λ u. Appends s (node_run visit u (cells_from btn 0 btn.n_cells) btn.right_page)) (sym t)

module _ (visit : ℕ → Cmd (List CursorRow) (Unit {0})) where
  leaf_run :
      (index : Bool) (cs : List BTreeCell) (es : List Entry) (right : ℕ)
      → Cells cs es
      → Appends (shown_entries es) (node_run visit (leaf_type index) cs right)
  leaf_run true cs es right h =
      subst (λ s. Appends s (node_run visit PageType.index_leaf cs right))
        (append-nil (shown_entries es))
        (then-Appends (leaf-Appends visit true cs es h) nothing-Appends)
  leaf_run false cs es right h =
      subst (λ s. Appends s (node_run visit PageType.table_leaf cs right))
        (append-nil (shown_entries es))
        (then-Appends (leaf-Appends visit false cs es h) nothing-Appends)

  internal_run :
      (index : Bool) (cs : List BTreeCell) (right : ℕ) (s : List Shown)
      → Appends s (collect_cells visit (internal_type index) cs >> ignore (visit right))
      → Appends s (node_run visit (internal_type index) cs right)
  internal_run true cs right s a = a
  internal_run false cs right s a = a

  last_run :
      (index : Bool) (right : ℕ) (s : List Shown)
      → Appends s (visit right)
      → Appends s (collect_cells visit (internal_type index) [] >> ignore (visit right))
  unfolding collect_cells
  last_run index right s a = ignore-Appends a

  more_run :
      (index : Bool) (c : BTreeCell) (e : Entry) (cs : List BTreeCell) (right : ℕ)
      (s t : List Shown)
      → entry c ≡ e
      → c.data_size < 2 ^ 16
      → Appends s (visit e.child_page)
      → Appends t (collect_cells visit (internal_type index) cs >> ignore (visit right))
      → Appends
          (s ++ ((if index then shown_entry e ∷ [] else []) ++ t))
          (collect_cells visit (internal_type index) (c ∷ cs) >> ignore (visit right))
  more_run true c e cs right s t same small a b =
      index-cell visit c e cs same small (ignore (visit right)) a b
  more_run false c e cs right s t same small a b =
      table-cell visit c e cs same small (ignore (visit right)) a b

collect_loaded :
    (p : Pager) (fuel npage : ℕ) (btn : BTreeNode) (out : List CursorRow)
    → get_node_by_page npage p ≡ ok btn p
    → collect (suc fuel) p npage out ≡ collect_node (collect fuel p) btn out
unfolding collect
collect_loaded p fuel npage btn out loaded = ground (arith, loaded)

-- A page that holds a node is collected as that node.
collect_page :
    (p : Pager) (fuel npage type : ℕ) (s : List Shown)
    → IsNodeAt p npage type
    → Appends s (
        node_run
          (collect fuel p)
          type
          (cells_from (node_at p npage) 0 (node_at p npage).n_cells)
          (node_at p npage).right_page)
    → Appends s (collect (suc fuel) p npage)
collect_page p fuel npage type s at a out =
    let (rs, e, h) = collect_node-run (collect fuel p) (node_at p npage) type s at.type_is a out in
    (
      rs,
      collect_loaded p fuel npage (node_at p npage) out (get_node_by_page-ok p npage at.is_page)
          ∙ e,
      h,
    )

mutual
  unfolding in_order depth

  collect-tree :
      (p : Pager) (index : Bool) {npage : ℕ} {t : Tree}
      → Holds p index npage t
      → (fuel : ℕ) → depth t ≤ fuel
      → Appends (in_order index t) (collect fuel p npage)
  collect-tree p index (leaf_at {npage} {es} at e) zero deep = absurd (omega arith)
  collect-tree p index (leaf_at {npage} {es} at e) (suc fuel) deep =
      collect_page p fuel npage (leaf_type index) (shown_entries es) at (
        leaf_run (collect fuel p) index _ es _
          (subst (Cells _) e (node-Cells p.page_size (node_at p npage) at.is_node)))
  collect-tree p index (node_in {npage} {ks} at kids) zero deep = absurd (omega arith)
  collect-tree p index (node_in {npage} {ks} at kids) (suc fuel) deep =
      collect_page p fuel npage (internal_type index) (in_order_kids index ks) at (
        internal_run (collect fuel p) index _ _ (in_order_kids index ks) (
          collect-kids p index kids fuel (omega arith) _
            (node-Cells p.page_size (node_at p npage) at.is_node)))

  collect-kids :
      (p : Pager) (index : Bool) {right : ℕ} {es : List Entry} {ks : Kids}
      → HoldsKids p index right es ks
      → (fuel : ℕ) → depth_kids ks ≤ fuel
      → (cs : List BTreeCell) → Cells cs es
      → Appends
          (in_order_kids index ks)
          (collect_cells (collect fuel p) (internal_type index) cs >> ignore (collect fuel p right))
  collect-kids p index (last_at {right} {t} h) fuel deep [] cells =
      last_run (collect fuel p) index right (in_order index t) (collect-tree p index h fuel deep)
  collect-kids p index (last_at {right} {t} h) fuel deep (c ∷ cs) cells = absurd cells
  collect-kids p index (more_at {right} {e} {es} {t} {ks} h hs) fuel deep [] cells = absurd cells
  collect-kids p index (more_at {right} {e} {es} {t} {ks} h hs) fuel deep (c ∷ cs)
        (same, small, cells) =
      more_run (collect fuel p) index c e cs right (in_order index t) (in_order_kids index ks) same
        small (collect-tree p index h fuel (omega arith))
        (collect-kids p index hs fuel (omega arith) cs cells)

-- What `chidb_Cursor_open` makes of a tree: an unpositioned cursor whose rows show the entries in order.
abbrev pub Opens : Pager → ℕ → CursorType → List Shown → Bool → Run Pager Cursor → Type 0
Opens p root type s index result =
    (rs : List CursorRow) × (result
      ≡ ok (record { type = type; root = root; is_index = index; rows = rs; pos = none }) p)
    × (shown_rows rs ≡ s)

node_type :
    {p : Pager} {index : Bool} {root : ℕ} {t : Tree}
    → Holds p index root t
    → is_index (node_at p root).type ≡ index
unfolding is_index
node_type {index = true} (leaf_at at e) = rw at.type_is refl
node_type {index = false} (leaf_at at e) = rw at.type_is refl
node_type {index = true} (node_in at kids) = rw at.type_is refl
node_type {index = false} (node_in at kids) = rw at.type_is refl

root-IsPage :
    {p : Pager} {index : Bool} {root : ℕ} {t : Tree} → Holds p index root t → IsPage p root
root-IsPage (leaf_at at e) = at.is_page
root-IsPage (node_in at kids) = at.is_page

open-collected :
    (p : Pager) (root fuel : ℕ) (type : CursorType) (btn : BTreeNode) (rs : List CursorRow)
    → collect fuel p root [] ≡ ok tt rs
    → get_node_by_page root p ≡ ok btn p
    → cursor_open fuel root type p
      ≡ ok
          (record { type = type; root = root; is_index = is_index btn.type; rows = rs; pos = none })
          p
unfolding cursor_open
open-collected p root fuel type btn rs c l = ground (arith, c, l)

-- `chidb_Cursor_open` on a file that holds a B-tree, of either kind, gives an unpositioned cursor with the entries of
-- the tree from left to right: for a table the rows of its leaves, for an index also the entries of its internal
-- nodes, each between the two children beside it. The file is not changed, and fuel for the depth of the tree
-- is enough.
pub cursor_open-in_order :
    (p : Pager) (index : Bool) {root : ℕ} {t : Tree}
    → Holds p index root t
    → (type : CursorType) (fuel : ℕ) → depth t ≤ fuel
    → Opens p root type (in_order index t) index (cursor_open fuel root type p)
cursor_open-in_order p index {root} {t} h type fuel deep =
    let (rs, e, shows) = collect-tree p index h fuel deep [] in
    (
      rs,
      open-collected p root fuel type (node_at p root) rs e
            (get_node_by_page-ok p root (root-IsPage h))
          ∙ ap
              (λ i. ok (record { type = type; root = root; is_index = i; rows = rs; pos = none }) p)
              (node_type h),
      shows,
    )

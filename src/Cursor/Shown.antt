-- ===== src/Cursor/Shown.antt =====
-- src/libchidb/dbm-cursor.c: what the rows of a cursor show, and the entries of a tree in order.
use chidb.Prelude.{
  ℕ, zero, suc, ◌+◌, ◌^◌, ◌≤◌, ◌<◌, ◌≡◌, refl, sym, ap, ap₂, subst, ◌∙◌, Bool, true, false, some,
  List, [], ◌∷◌, ◌++◌, if◌then◌else◌, arith,
}
use mathlib.Core.List.{append-nil, append_assoc}
use chidb.Bytes.{Bytes}
use chidb.Run.{ok, and_then, Cmd, pure, ◌>>◌, dropped, ignore}
use chidb.Node.{BTreeNode, BTreeCell, get_cell, parse_cell, cell_offset}
use chidb.Node.Entries.{IsType, IsType-cases, IsNode, Entry, entry, slice, stored_size, entry_at}
use chidb.Node.Position.{get_cell-some, shifted, shifted-suc, shifted-zero}
use chidb.Btree.{cells_from}
use chidb.Btree.Tree.{Tree, leaf, node, Kids, last, more, leaf_type}
use chidb.Cursor.{CursorRow, collector_push, row_of_cell, collect_cells}

-- What a cursor shows of an entry: its key, the key of the row that an index names, and the bytes.
abbrev pub Shown : Type 0
Shown = ℕ × ℕ × List ℕ

abbrev pub shown_row : CursorRow → Shown
shown_row r = (r.key, r.pkey, slice r.data_ r.size)

abbrev pub shown_entry : Entry → Shown
shown_entry e = (e.key, e.key_pk, e.payload)

abbrev pub shown_rows : List CursorRow → List Shown
shown_rows [] = []
shown_rows (r ∷ rs) = shown_row r ∷ shown_rows rs

abbrev pub shown_entries : List Entry → List Shown
shown_entries [] = []
shown_entries (e ∷ es) = shown_entry e ∷ shown_entries es

-- The entries of a tree from left to right. In an index the internal nodes hold entries too.
unfoldable mutual
  pub in_order : Bool → Tree → List Shown
  in_order index (leaf es) = shown_entries es
  in_order index (node ks) = in_order_kids index ks

  pub in_order_kids : Bool → Kids → List Shown
  in_order_kids index (last t) = in_order index t
  in_order_kids index (more t e ks) =
      in_order index t ++ ((if index then shown_entry e ∷ [] else []) ++ in_order_kids index ks)

-- A run of the collector appends rows that show what is given.
abbrev pub Appends : List Shown → Cmd (List CursorRow) (Unit {0}) → Type 0
Appends s m =
    (out : List CursorRow)
    → (rs : List CursorRow) × (m out ≡ ok tt (out ++ rs)) × (shown_rows rs ≡ s)

shown-append : (rs qs : List CursorRow) → shown_rows (rs ++ qs) ≡ shown_rows rs ++ shown_rows qs
shown-append [] qs = refl
shown-append (r ∷ rs) qs = ap (◌∷◌ (shown_row r)) (shown-append rs qs)

module _ {m : Cmd (List CursorRow) (Unit {0})} {s : List Shown} (a : Appends s m) where
  pub ignore-Appends : Appends s (ignore m)
  ignore-Appends out = let (rs, e, h) = a out in (rs, ap dropped e, h)

  pub then-Appends :
      {n : Cmd (List CursorRow) (Unit {0})} {t : List Shown}
      → Appends t n
      → Appends (s ++ t) (m >> n)
  then-Appends {n} b out =
      let (rs, e, h) = a out in
      let (qs, f, g) = b (out ++ rs) in
      (
        rs ++ qs,
        ap (λ r. and_then r (λ u. n)) e ∙ f ∙ ap (ok tt) (append_assoc out rs qs),
        shown-append rs qs ∙ ap₂ ◌++◌ h g,
      )

pub nothing-Appends : Appends [] (pure tt)
nothing-Appends out = ([], ap (ok tt) (sym (append-nil out)), refl)

push-Appends : (r : CursorRow) → Appends (shown_row r ∷ []) (collector_push r)
unfolding collector_push
push-Appends r out = (r ∷ [], refl, refl)

-- The cells of a node and its entries.
abbrev pub Cells : List BTreeCell → List Entry → Type 0
Cells [] [] = Unit
Cells [] (e ∷ es) = ⊥
Cells (c ∷ cs) [] = ⊥
Cells (c ∷ cs) (e ∷ es) = (entry c ≡ e) × (c.data_size < 2 ^ 16) × Cells cs es

shown_cell :
    (c : BTreeCell) → c.data_size < 2 ^ 16 → shown_row (row_of_cell c) ≡ shown_entry (entry c)
unfolding row_of_cell entry
shown_cell c h = ap (λ n. (c.key, c.key_pk, slice c.data_ n)) (omega arith)

pub push_cell :
    (c : BTreeCell) (e : Entry)
    → entry c ≡ e
    → c.data_size < 2 ^ 16
    → Appends (shown_entry e ∷ []) (collector_push (row_of_cell c))
push_cell c e same h =
    subst (λ s. Appends (s ∷ []) (collector_push (row_of_cell c)))
      (shown_cell c h ∙ ap shown_entry same) (push-Appends (row_of_cell c))

module _ (visit : ℕ → Cmd (List CursorRow) (Unit {0})) where
  pub leaf-Appends :
      (index : Bool) (cs : List BTreeCell) (es : List Entry)
      → Cells cs es
      → Appends (shown_entries es) (collect_cells visit (leaf_type index) cs)
  unfolding collect_cells
  leaf-Appends index [] [] h = nothing-Appends
  leaf-Appends index [] (e ∷ es) h = absurd h
  leaf-Appends index (c ∷ cs) [] h = absurd h
  leaf-Appends true (c ∷ cs) (e ∷ es) (same, small, rest) =
      then-Appends (push_cell c e same small) (leaf-Appends true cs es rest)
  leaf-Appends false (c ∷ cs) (e ∷ es) (same, small, rest) =
      then-Appends (push_cell c e same small) (leaf-Appends false cs es rest)

-- The cells that a well-formed leaf or internal node gives.
entry-cell :
    (btn : BTreeNode) (i : ℕ)
    → entry (parse_cell btn.type btn.page.data_ (cell_offset btn i)) ≡ entry_at btn i
unfolding entry_at
entry-cell btn i = refl

no_cells : (btn : BTreeNode) (i : ℕ) → cells_from btn i zero ≡ []
unfolding cells_from
no_cells btn i = refl

one_cell :
    (btn : BTreeNode) (i k : ℕ) (c : BTreeCell)
    → get_cell btn i ≡ some c
    → cells_from btn i (suc k) ≡ c ∷ cells_from btn (i + 1) k
unfolding cells_from
one_cell btn i k c h = ground (arith, h)

size-stored :
    (d : Bytes) (o type : ℕ) → IsType type → (parse_cell type d o).data_size ≤ stored_size type d o
unfolding parse_cell stored_size
size-stored d o =
    IsType-cases (λ type. (parse_cell type d o).data_size ≤ stored_size type d o) (omega arith)
      (omega arith) (omega arith) (omega arith)

module _ (page_size : ℕ) (btn : BTreeNode) (is : IsNode page_size btn) where
  small_cell :
      (i : ℕ)
      → i < btn.n_cells
      → (parse_cell btn.type btn.page.data_ (cell_offset btn i)).data_size < 2 ^ 16
  small_cell i h = omega (
    arith,
    size-stored btn.page.data_ (cell_offset btn i) btn.type is.is_type,
    is.cell_to i h,
    is.size_lt,
  )

  pub Cells-from : (i k : ℕ) → i + k ≡ btn.n_cells → Cells (cells_from btn i k) (shifted btn i k)
  Cells-from i zero h = rw (no_cells btn i, shifted-zero btn i) tt
  Cells-from i (suc k) h =
      rw (one_cell btn i k _ (get_cell-some btn i (omega arith)), shifted-suc btn i k)
        (entry-cell btn i, small_cell i (omega arith), Cells-from (i + 1) k (omega arith))

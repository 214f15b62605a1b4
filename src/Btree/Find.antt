-- ===== src/Btree/Find.antt =====
-- src/libchidb/btree.c: `chidb_Btree_find` on a file that holds a table B-tree.
use chidb.Prelude.{
  ℕ, zero, suc, ◌+◌, ◌%◌, ◌^◌, ◌≤◌, ◌<◌, ◌≡◌, ◌⊎◌, refl, sym, ap, subst, ◌∙◌, true, false, Option,
  none, some, List, [], ◌∷◌, inl, inr, leb, arith, Bool-cases, Option-cases,
}
use chidb.Bytes.{Bytes}
use chidb.Run.{Code, Run, ok, err}
use chidb.Pager.{Pager}
use chidb.Pager.Laws.{IsPage, read_page-ok}
use chidb.Node.PageType
use chidb.Node.{BTreeNode, BTreeCell, parse_cell, cell_offset}
use chidb.Node.Entries.{IsNode, Entry, entry, slice, stored_size, entry_at, entries}
use chidb.Node.Position.{
  lower_bound, lower_bound-le, get_cell-some, shifted, shifted-suc, shifted-zero, key-entry_at,
  entries-shifted, find_position-lower_bound, length-entries, child_of, child_at-child_of,
}
use chidb.Btree.{get_node_by_page, find_cell, child_for, find}
use chidb.Btree.Tree.{
  Tree, Kids, more, depth, depth_kids, lookup, search_tree, search_kids, node_at, IsNodeAt, Holds,
  leaf_at, node_in, HoldsKids, last_at, more_at,
}

-- A page that the pager accepts is loaded, and nothing is written.
pub get_node_by_page-ok :
    (p : Pager) (npage : ℕ) → IsPage p npage → get_node_by_page npage p ≡ ok (node_at p npage) p
unfolding get_node_by_page
get_node_by_page-ok p npage is = rw (read_page-ok {p = p} npage is)

-- The first cell with the key is the first entry with the key.
abbrev entry? : Option BTreeCell → Option Entry
entry? none = none
entry? (some c) = some (entry c)

entry-entry_at :
    (btn : BTreeNode) (i : ℕ)
    → entry (parse_cell btn.type btn.page.data_ (cell_offset btn i)) ≡ entry_at btn i
unfolding entry_at
entry-entry_at btn i = refl

find_cell-lookup :
    (btn : BTreeNode) (key k i : ℕ)
    → i + k ≡ btn.n_cells
    → entry? (find_cell btn key i k) ≡ lookup key (shifted btn i k)
unfolding find_cell lookup
find_cell-lookup btn key zero i h = ground (arith, shifted-zero btn i)
find_cell-lookup btn key (suc k) i h = ground (
  arith,
  get_cell-some btn i (omega arith),
  shifted-suc btn i k,
  key-entry_at btn i,
  entry-entry_at btn i,
  find_cell-lookup btn key k (i + 1) (omega arith),
)

-- A cell that is found lies in its page.
leaf_cell_size :
    (d : Bytes) (o : ℕ)
    → (parse_cell PageType.table_leaf d o).data_size + 8 ≡ stored_size PageType.table_leaf d o
unfolding parse_cell stored_size
leaf_cell_size d o = omega arith

find_cell_in_page :
    (page_size : ℕ) (btn : BTreeNode) (key k i : ℕ) (c : BTreeCell)
    → IsNode page_size btn
    → btn.type ≡ PageType.table_leaf
    → i + k ≡ btn.n_cells
    → find_cell btn key i k ≡ some c
    → c.data_size < 2 ^ 16
unfolding find_cell
find_cell_in_page page_size btn key zero i c is t h e = cc
find_cell_in_page page_size btn key (suc k) i c is t h e = ground (
  arith,
  get_cell-some btn i (omega arith),
  is.cell_to i (omega arith),
  is.size_lt,
  leaf_cell_size btn.page.data_ (cell_offset btn i),
  find_cell_in_page page_size btn key k (i + 1) c is t (omega arith),
)

pub child_for-child_of :
    (p : Pager) (btn : BTreeNode) (key : ℕ)
    → child_for btn key p
      ≡ ok (child_of (entries btn) btn.right_page (lower_bound key (entries btn))) p
unfolding child_for
child_for-child_of p btn key = ground (
  arith,
  find_position-lower_bound btn key,
  child_at-child_of btn (lower_bound key (entries btn)) small,
)
  where
    small : lower_bound key (entries btn) ≤ btn.n_cells
    small = omega (arith, lower_bound-le key (entries btn), length-entries btn)

-- What a search that comes to `none` or to an entry returns. The pager is as before.
abbrev pub Finds : Pager → Option Entry → Run Pager (ℕ × Bytes) → Type 0
Finds p none r = r ≡ err Code.enotfound p
Finds p (some e) r = (n : ℕ) × (d : Bytes) × (r ≡ ok (n, d) p) × (slice d n ≡ e.payload)

module _ (p : Pager) (key : ℕ) (npage fuel : ℕ) (btn : BTreeNode)
    (loaded : get_node_by_page npage p ≡ ok btn p) where
  find-none :
      btn.type ≡ PageType.table_leaf
      → find_cell btn key 0 btn.n_cells ≡ none
      → find (suc fuel) npage key p ≡ err Code.enotfound p
  unfolding find
  find-none t e = ground arith

  find-some :
      (c : BTreeCell)
      → btn.type ≡ PageType.table_leaf
      → find_cell btn key 0 btn.n_cells ≡ some c
      → find (suc fuel) npage key p ≡ ok (c.data_size % 2 ^ 16, c.data_) p
  unfolding find
  find-some c t e = ground arith

  find-internal :
      btn.type ≡ PageType.table_internal
      → find (suc fuel) npage key p
        ≡ find fuel (child_of (entries btn) btn.right_page (lower_bound key (entries btn))) key p
  unfolding find
  find-internal t = ground (arith, child_for-child_of p btn key)

found-lookup :
    (btn : BTreeNode) (key : ℕ)
    → entry? (find_cell btn key 0 btn.n_cells) ≡ lookup key (entries btn)
found-lookup btn key =
    find_cell-lookup btn key btn.n_cells 0 (omega arith)
    ∙ ap (lookup key) (sym (entries-shifted btn))

payload-entry : (c : BTreeCell) → (entry c).payload ≡ slice c.data_ c.data_size
unfolding entry
payload-entry c = refl

module _ (p : Pager) (key : ℕ) where
  find-leaf :
      (fuel npage : ℕ)
      → IsNodeAt p npage PageType.table_leaf
      → Finds p (lookup key (entries (node_at p npage))) (find (suc fuel) npage key p)
  find-leaf fuel npage at = elim (Option-cases (find_cell btn key 0 btn.n_cells)) [
    | inl e ↦
        subst (λ o. Finds p o (find (suc fuel) npage key p))
          (sym (ap entry? e) ∙ found-lookup btn key)
          (find-none p key npage fuel btn loaded at.type_is e)
    | inr (c, e) ↦
        subst (λ o. Finds p o (find (suc fuel) npage key p))
          (sym (ap entry? e) ∙ found-lookup btn key)
          (
            c.data_size % 2 ^ 16,
            c.data_,
            find-some p key npage fuel btn loaded c at.type_is e,
            ap (slice c.data_) (omega (arith, in_page c e)) ∙ sym (payload-entry c),
          )
  ]
    where
      btn : BTreeNode
      btn = node_at p npage

      loaded : get_node_by_page npage p ≡ ok btn p
      loaded = get_node_by_page-ok p npage at.is_page

      in_page : (c : BTreeCell) → find_cell btn key 0 btn.n_cells ≡ some c → c.data_size < 2 ^ 16
      in_page c e =
          find_cell_in_page p.page_size btn key btn.n_cells 0 c at.is_node at.type_is (omega arith)
            e

  pub find-leaf_at :
      (fuel npage : ℕ) {es : List Entry}
      → IsNodeAt p npage PageType.table_leaf
      → entries (node_at p npage) ≡ es
      → 1 ≤ fuel
      → Finds p (lookup key es) (find fuel npage key p)
  find-leaf_at zero npage at e h = absurd (omega arith)
  find-leaf_at (suc fuel) npage at e h =
      subst (λ l. Finds p (lookup key l) (find (suc fuel) npage key p)) e (find-leaf fuel npage at)

  find-node_in :
      (fuel k npage : ℕ) (o : Option Entry)
      → IsNodeAt p npage PageType.table_internal
      → suc k ≤ fuel
      → ((f : ℕ)
          → k ≤ f
          → Finds p o (
              find f
                (child_of
                  (entries (node_at p npage))
                  (node_at p npage).right_page
                  (lower_bound key (entries (node_at p npage))))
                key
                p))
      → Finds p o (find fuel npage key p)
  find-node_in zero k npage o at h below = absurd (omega arith)
  find-node_in (suc fuel) k npage o at h below =
      subst (Finds p o)
        (sym (
          find-internal p key npage fuel (node_at p npage) (get_node_by_page-ok p npage at.is_page)
            at.type_is))
        (below fuel (omega arith))

  only_child : (right : ℕ) → child_of [] right (lower_bound key []) ≡ right
  unfolding child_of lower_bound
  only_child right = refl

  first_child :
      (e : Entry) (es : List Entry) (right : ℕ)
      → leb key e.key ≡ true
      → child_of (e ∷ es) right (lower_bound key (e ∷ es)) ≡ e.child_page
  unfolding child_of lower_bound
  first_child e es right h = ground arith

  later_child :
      (e : Entry) (es : List Entry) (right : ℕ)
      → leb key e.key ≡ false
      → child_of (e ∷ es) right (lower_bound key (e ∷ es)) ≡ child_of es right (lower_bound key es)
  unfolding child_of lower_bound
  later_child e es right h = ground arith

mutual
  unfolding search_tree depth

  pub search-Holds :
      (p : Pager) (key : ℕ) {npage : ℕ} {t : Tree}
      → Holds p false npage t
      → (fuel : ℕ) → depth t ≤ fuel
      → Finds p (search_tree key t) (find fuel npage key p)
  search-Holds p key (leaf_at {npage} at e) fuel deep = find-leaf_at p key fuel npage at e deep
  search-Holds p key (node_in {npage} {ks} at kids) fuel deep =
      find-node_in p key fuel (depth_kids ks) npage (search_kids key ks) at deep
        (search-HoldsKids p key kids)

  pub search-HoldsKids :
      (p : Pager) (key : ℕ) {right : ℕ} {es : List Entry} {ks : Kids}
      → HoldsKids p false right es ks
      → (fuel : ℕ) → depth_kids ks ≤ fuel
      → Finds p (search_kids key ks) (find fuel (child_of es right (lower_bound key es)) key p)
  search-HoldsKids p key (last_at {right} h) fuel deep =
      rw (only_child p key right) (search-Holds p key h fuel deep)
  search-HoldsKids p key (more_at {right} {e} {es} {t} {ks} h hs) fuel deep =
      pick (Bool-cases (leb key e.key)) (search-Holds p key h fuel (omega arith))
        (search-HoldsKids p key hs fuel (omega arith))
    where
      pick :
          (leb key e.key ≡ true) ⊎ (leb key e.key ≡ false)
          → Finds p (search_tree key t) (find fuel e.child_page key p)
          → Finds p (search_kids key ks) (find fuel (child_of es right (lower_bound key es)) key p)
          → Finds p
              (search_kids key (more t e ks))
              (find fuel (child_of (e ∷ es) right (lower_bound key (e ∷ es))) key p)
      pick (inl b) below above = rw (first_child p key e es right b, b) below
      pick (inr b) below above = rw (later_child p key e es right b, b) above

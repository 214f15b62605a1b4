-- ===== src/Btree/LeafInsert.antt =====
-- src/libchidb/btree.c: the insertion of a cell into a leaf that has room for it.
use chidb.Prelude.{
  ℕ, zero, suc, ◌+◌, ◌^◌, ◌≤◌, ◌<◌, ◌≡◌, ◌≢◌, ◌⊎◌, refl, sym, subst, ◌∙◌, Bool, true, false, Option,
  none, some, List, [], ◌∷◌, inl, inr, leb, ◌==◌, if◌then◌else◌, arith, All, Bool-cases, get_elem?,
  length, le-cases,
}
use chidb.Run.{Code, ok, err}
use chidb.Pager.{Pager}
use chidb.Pager.Laws.{IsPager, IsPage}
use chidb.Node.{BTreeNode, BTreeCell, get_cell, cell_size, node_free_space, load_node}
use chidb.Node.Cells.{CellFits}
use chidb.Node.Load.{IsHeader}
use chidb.Node.Entries.{IsType, IsType-cases, IsNode, Entry, entry, entries}
use chidb.Node.Insert.{
  insert_at, inserted, Fits, insert_cell-inserted, entries-inserted, inserted-IsNode,
}
use chidb.Node.Position.{
  lower_bound, lower_bound-le, find_position-lower_bound, length-entries, get_cell-some,
  get_elem?-entries, key-entry_at,
}
use chidb.Btree.{insert_leaf, is_duplicate, is_full}
use chidb.Btree.Tree.{IsNodeAt, node_at, lookup}
use chidb.Btree.Write.{
  with_node, write_node-ok, entries-with_node, with_node-IsNodeAt, node_at-with_node_ne,
  with_node-IsPager, inserted-IsHeader,
}

-- The keys ascend, and no key stands twice.
abbrev pub IsAscending : List Entry → Type 0
IsAscending [] = Unit
IsAscending (e ∷ es) = All (λ f. e.key < f.key) es × IsAscending es

abbrev has_key : ℕ → Option Entry → Bool
has_key key none = false
has_key key (some e) = e.key == key

abbrev pub is_some {ℓ} : {A : Type ℓ} → Option A → Bool
is_some none = false
is_some (some a) = true

lookup-greater :
    (key k : ℕ) (es : List Entry) → key ≤ k → All (λ f. k < f.key) es → lookup key es ≡ none
unfolding lookup
lookup-greater key k [] h a = refl
lookup-greater key k (e ∷ es) h a = ground (arith, lookup-greater key k es h a.1)

-- In an ascending list a key is present exactly if it stands at its lower bound.
bound-lookup :
    (key : ℕ) (es : List Entry)
    → IsAscending es
    → has_key key (get_elem? es (lower_bound key es)) ≡ is_some (lookup key es)
unfolding lookup lower_bound
bound-lookup key [] asc = refl
bound-lookup key (e ∷ es) asc =
    ground
      (arith, bound-lookup key es asc.1, λ (h : key ≤ e.key). lookup-greater key e.key es h asc.0)

get_cell-none : (btn : BTreeNode) (i : ℕ) → btn.n_cells ≤ i → get_cell btn i ≡ none
unfolding get_cell
get_cell-none btn i h = ground arith

get_elem?-none {ℓ} : {A : Type ℓ} (xs : List A) (i : ℕ) → length xs ≤ i → get_elem? xs i ≡ none
get_elem?-none [] i h = refl
get_elem?-none (x ∷ xs) zero h = absurd (omega arith)
get_elem?-none (x ∷ xs) (suc i) h = get_elem?-none xs i (omega arith)

duplicate-has_key :
    (btn : BTreeNode) (pos key : ℕ)
    → is_duplicate btn pos key ≡ has_key key (get_elem? (entries btn) pos)
unfolding is_duplicate
duplicate-has_key btn pos key = elim (le-cases btn.n_cells pos) [
  | inl h ↦ ground (
    arith,
    get_cell-none btn pos h,
    get_elem?-none (entries btn) pos (omega (arith, length-entries btn)),
  )
  | inr h ↦
      ground (arith, get_cell-some btn pos h, get_elem?-entries btn pos h, key-entry_at btn pos)
]

-- The list after an insertion at the lower bound.
pub lookup-insert_at :
    (e : Entry) (es : List Entry) (key : ℕ)
    → lookup e.key es ≡ none
    → lookup key (insert_at (lower_bound e.key es) e es)
      ≡ (if e.key == key then some e else lookup key es)
unfolding lookup lower_bound insert_at
lookup-insert_at e [] key new = refl
lookup-insert_at e (f ∷ es) key new = ground (arith, lookup-insert_at e es key)

All-insert_at :
    (k : ℕ) (e : Entry) (es : List Entry) (i : ℕ)
    → k < e.key
    → All (λ f. k < f.key) es
    → All (λ f. k < f.key) (insert_at i e es)
unfolding insert_at
All-insert_at k e es zero h a = (h, a)
All-insert_at k e [] (suc i) h a = (h, tt)
All-insert_at k e (f ∷ es) (suc i) h a = (a.0, All-insert_at k e es i h a.1)

All-above : (k m : ℕ) (es : List Entry) → k < m → All (λ f. m < f.key) es → All (λ f. k < f.key) es
All-above k m [] h a = tt
All-above k m (e ∷ es) h a = (omega (arith, a.0), All-above k m es h a.1)

-- The first entry, where the new one goes in front of it, and where it goes behind it.
front_key :
    (e f : Entry) (es : List Entry)
    → lookup e.key (f ∷ es) ≡ none
    → leb e.key f.key ≡ true
    → e.key < f.key
unfolding lookup
front_key e f es new h = ground arith

rest_new : (e f : Entry) (es : List Entry) → lookup e.key (f ∷ es) ≡ none → lookup e.key es ≡ none
unfolding lookup
rest_new e f es new = ground arith

behind_key : (a b : ℕ) → leb a b ≡ false → b < a
behind_key a b h = ground arith

pub IsAscending-insert_at :
    (e : Entry) (es : List Entry)
    → IsAscending es
    → lookup e.key es ≡ none
    → IsAscending (insert_at (lower_bound e.key es) e es)
unfolding lower_bound insert_at
IsAscending-insert_at e [] asc new = (tt, tt)
IsAscending-insert_at e (f ∷ es) asc new =
    split (IsAscending-insert_at e es asc.1 (rest_new e f es new)) (Bool-cases (leb e.key f.key))
  where
    split :
        IsAscending (insert_at (lower_bound e.key es) e es)
        → (leb e.key f.key ≡ true) ⊎ (leb e.key f.key ≡ false)
        → IsAscending (insert_at (lower_bound e.key (f ∷ es)) e (f ∷ es))
    split rest (inl h) =
        let k : e.key < f.key = front_key e f es new h in
        rw h ((k, All-above e.key f.key es k asc.0), asc)
    split rest (inr h) =
        rw h (All-insert_at f.key e es (lower_bound e.key es) (behind_key _ _ h) asc.0, rest)

cell_size-lt :
    (c : BTreeCell) (type : ℕ) → IsType type → CellFits type c → cell_size type c + 2 < 2 ^ 16
unfolding cell_size
cell_size-lt c =
    IsType-cases (λ type. CellFits type c → cell_size type c + 2 < 2 ^ 16) (λ h. omega arith)
      (λ h. omega arith) (λ h. omega arith) (λ h. omega arith)

-- A node that is not full has room for the cell.
pub not_full-Fits :
    (page_size : ℕ) (btn : BTreeNode) (c : BTreeCell)
    → IsNode page_size btn
    → CellFits btn.type c
    → is_full btn c ≡ false
    → Fits btn c
unfolding is_full node_free_space
not_full-Fits page_size btn c is fits h =
    ground (arith, cell_size-lt c btn.type is.is_type fits, is.array_le, is.cells_le, is.size_lt)

-- The pager and the node after the insertion of a cell into the leaf in a page.
module _ (p : Pager) (valid : IsPager p) (npage type : ℕ) (at : IsNodeAt p npage type)
    (c : BTreeCell) (fits : CellFits type c) (room : is_full (node_at p npage) c ≡ false)
    (asc : IsAscending (entries (node_at p npage))) where
  abbrev place : ℕ
  place = lower_bound c.key (entries (node_at p npage))

  abbrev pub leaf_after : BTreeNode
  leaf_after = inserted (node_at p npage) place c

  abbrev pub pager_after : Pager
  pager_after = with_node p leaf_after

  cell_fits : CellFits (node_at p npage).type c
  cell_fits = subst (λ t. CellFits t c) (sym at.type_is) fits

  has_room : Fits (node_at p npage) c
  has_room = not_full-Fits p.page_size (node_at p npage) c at.is_node cell_fits room

  place_in : place ≤ (node_at p npage).n_cells
  place_in =
      omega
        (arith, lower_bound-le c.key (entries (node_at p npage)), length-entries (node_at p npage))

  after-IsNode : IsNode p.page_size leaf_after
  after-IsNode = inserted-IsNode p.page_size _ place c at.is_node cell_fits has_room place_in

  after-IsHeader : IsHeader leaf_after
  after-IsHeader = inserted-IsHeader _ place c at.is_header

  is_new :
      lookup c.key (entries (node_at p npage)) ≡ none
      → is_duplicate (node_at p npage) place c.key ≡ false
  is_new new = ground (
    arith,
    duplicate-has_key (node_at p npage) place c.key,
    bound-lookup c.key (entries (node_at p npage)) asc,
  )

  is_old :
      (e : Entry)
      → lookup c.key (entries (node_at p npage)) ≡ some e
      → is_duplicate (node_at p npage) place c.key ≡ true
  is_old e old = ground (
    arith,
    duplicate-has_key (node_at p npage) place c.key,
    bound-lookup c.key (entries (node_at p npage)) asc,
  )

  pub insert_leaf-new :
      lookup c.key (entries (node_at p npage)) ≡ none
      → insert_leaf (node_at p npage) c p ≡ ok tt pager_after
  unfolding insert_leaf load_node
  insert_leaf-new new = ground (
    arith,
    find_position-lower_bound (node_at p npage) c.key,
    is_new new,
    insert_cell-inserted p.page_size (node_at p npage) place c at.is_node cell_fits has_room
        place_in,
    write_node-ok p valid leaf_after at.is_page after-IsNode after-IsHeader,
  )

  pub insert_leaf-old :
      (e : Entry)
      → lookup c.key (entries (node_at p npage)) ≡ some e
      → insert_leaf (node_at p npage) c p ≡ err Code.eduplicate p
  unfolding insert_leaf
  insert_leaf-old e old =
      ground (arith, find_position-lower_bound (node_at p npage) c.key, is_old e old)

  pub entries-after :
      entries (node_at pager_after npage) ≡ insert_at place (entry c) (entries (node_at p npage))
  unfolding load_node
  entries-after =
      entries-with_node p valid leaf_after at.is_page after-IsNode after-IsHeader
      ∙ entries-inserted p.page_size (node_at p npage) place c at.is_node cell_fits has_room
          place_in

  pub after-IsNodeAt : IsNodeAt pager_after npage type
  unfolding load_node
  after-IsNodeAt =
      subst (IsNodeAt pager_after npage) at.type_is
        (with_node-IsNodeAt p valid leaf_after at.is_page after-IsNode after-IsHeader)

  pub node_at-after_ne : (n : ℕ) → IsPage p n → n ≢ npage → node_at pager_after n ≡ node_at p n
  unfolding load_node
  node_at-after_ne = node_at-with_node_ne p valid leaf_after at.is_page after-IsNode after-IsHeader

  pub after-IsPager : IsPager pager_after
  unfolding load_node
  after-IsPager = with_node-IsPager p valid leaf_after at.is_page after-IsNode after-IsHeader

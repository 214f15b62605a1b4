-- ===== src/Node/Position.antt =====
-- src/libchidb/btree.c: `find_position` and `child_at` on the list of the node's entries, and the node
-- that `chidb_Btree_initEmptyNode` sets up.
use chidb.Prelude.{
  ℕ, zero, suc, ◌+◌, ◌^◌, ◌≤◌, ◌<◌, ◌≡◌, refl, ap, ap₂, ◌∙◌, arith, some, List, [], ◌∷◌, leb, ◌==◌,
  if◌then◌else◌, get_elem?, length,
}
use native.Mathlib.Nat.{add-zero}
use chidb.Pager.{MemPage}
use chidb.Node.{
  BTreeNode, get_cell, parse_cell, cell_offset, position_from, find_position, child_at, empty_node,
  node_header_base, node_header_size,
}
use chidb.Node.Entries.{IsType, IsNode, Entry, entry, entry_at, entries, tabulate, tabulate-same}
use chidb.Node.Load.{IsHeader}

-- The number of entries before the first one whose key is at least `key`.
unfoldable pub lower_bound : ℕ → List Entry → ℕ
lower_bound key [] = 0
lower_bound key (e ∷ es) = if leb key e.key then 0 else suc (lower_bound key es)

pub get_cell-some :
    (btn : BTreeNode) (i : ℕ)
    → i < btn.n_cells
    → get_cell btn i ≡ some (parse_cell btn.type btn.page.data_ (cell_offset btn i))
unfolding get_cell
get_cell-some btn i h = ground arith

unfoldable pub shifted : (btn : BTreeNode) (i k : ℕ) → List Entry
shifted btn i k = tabulate (λ j. entry_at btn (i + j)) k

pub shifted-suc :
    (btn : BTreeNode) (i k : ℕ) → shifted btn i (suc k) ≡ entry_at btn i ∷ shifted btn (i + 1) k
unfolding shifted tabulate
shifted-suc btn i k =
    ap₂ ◌∷◌ (ap (entry_at btn) (add-zero i))
      (tabulate-same _ _ k λ j l. ap (entry_at btn) (next i j))
  where
    next : (i j : ℕ) → i + suc j ≡ i + 1 + j
    next i j = omega arith

pub shifted-zero : (btn : BTreeNode) (i : ℕ) → shifted btn i 0 ≡ []
unfolding shifted tabulate
shifted-zero btn i = refl

pub key-entry_at :
    (btn : BTreeNode) (i : ℕ)
    → (parse_cell btn.type btn.page.data_ (cell_offset btn i)).key ≡ (entry_at btn i).key
unfolding entry_at entry
key-entry_at btn i = refl

position_from-lower_bound :
    (btn : BTreeNode) (key k i : ℕ)
    → i + k ≡ btn.n_cells
    → position_from btn key i k ≡ i + lower_bound key (shifted btn i k)
unfolding position_from lower_bound
position_from-lower_bound btn key zero i h = ground (arith, shifted-zero btn i)
position_from-lower_bound btn key (suc k) i h = ground (
  arith,
  get_cell-some btn i (omega arith),
  shifted-suc btn i k,
  key-entry_at btn i,
  position_from-lower_bound btn key k (i + 1) (omega arith),
)

pub entries-shifted : (btn : BTreeNode) → entries btn ≡ shifted btn 0 btn.n_cells
unfolding entries shifted
entries-shifted btn = tabulate-same _ _ btn.n_cells λ i l. ap (entry_at btn) (omega arith)

-- `find_position` gives the number of entries in front of the first key that is not smaller.
pub find_position-lower_bound :
    (btn : BTreeNode) (key : ℕ) → find_position btn key ≡ lower_bound key (entries btn)
unfolding find_position
find_position-lower_bound btn key =
    rw (entries-shifted btn)
      (position_from-lower_bound btn key btn.n_cells 0 (omega arith) ∙ omega arith)

pub lower_bound-le : (key : ℕ) (es : List Entry) → lower_bound key es ≤ length es
unfolding lower_bound
lower_bound-le key [] = omega arith
lower_bound-le key (e ∷ es) = ground (arith, lower_bound-le key es)

pub length-tabulate {ℓ} : {A : Type ℓ} (n : ℕ) (f : ℕ → A) → length (tabulate f n) ≡ n
unfolding tabulate
length-tabulate zero f = refl
length-tabulate (suc n) f = ap suc (length-tabulate n _)

pub get_elem?-tabulate {ℓ} :
    {A : Type ℓ} (n : ℕ) (f : ℕ → A) (i : ℕ) → i < n → get_elem? (tabulate f n) i ≡ some (f i)
unfolding tabulate
get_elem?-tabulate zero f i h = absurd (omega arith)
get_elem?-tabulate (suc n) f zero h = refl
get_elem?-tabulate (suc n) f (suc i) h = get_elem?-tabulate n _ i (omega arith)

pub length-entries : (btn : BTreeNode) → length (entries btn) ≡ btn.n_cells
unfolding entries
length-entries btn = length-tabulate btn.n_cells _

-- Cell by cell, the list of entries is what `chidb_Btree_getCell` reads.
pub get_elem?-entries :
    (btn : BTreeNode) (i : ℕ) → i < btn.n_cells → get_elem? (entries btn) i ≡ some (entry_at btn i)
unfolding entries
get_elem?-entries btn i h = get_elem?-tabulate btn.n_cells _ i h

-- The child at a position: the child of that entry, and the right page behind the last.
unfoldable pub child_of : List Entry → ℕ → ℕ → ℕ
child_of [] right i = right
child_of (e ∷ es) right zero = e.child_page
child_of (e ∷ es) right (suc i) = child_of es right i

child_of-tabulate :
    (n : ℕ) (f : ℕ → Entry) (right i : ℕ)
    → i ≤ n
    → child_of (tabulate f n) right i ≡ (if i == n then right else (f i).child_page)
unfolding child_of tabulate
child_of-tabulate zero f right i h = ground arith
child_of-tabulate (suc n) f right zero h = ground arith
child_of-tabulate (suc n) f right (suc i) h =
    ground (arith, child_of-tabulate n (λ j. f (suc j)) right i)

pub child_at-child_of :
    (btn : BTreeNode) (i : ℕ)
    → i ≤ btn.n_cells
    → child_at btn i ≡ some (child_of (entries btn) btn.right_page i)
unfolding child_at entries entry_at entry
child_at-child_of btn i h =
    ground
      (arith, child_of-tabulate btn.n_cells (entry_at btn) btn.right_page i h, get_cell-some btn i)

-- An empty node is well formed, holds nothing and agrees with its page.
module _ (page : MemPage) (type page_size : ℕ) (is_type : IsType type)
    (fits : node_header_base page.npage + node_header_size type ≤ page_size)
    (size_lt : page_size < 2 ^ 16) where
  pub empty_node-entries : entries (empty_node page type page_size) ≡ []
  unfolding entries empty_node tabulate
  empty_node-entries = refl

  pub empty_node-IsNode : IsNode page_size (empty_node page type page_size)
  unfolding empty_node
  empty_node-IsNode = record {
    is_type = is_type;
    size_lt = size_lt;
    array_end = omega arith;
    array_le = fits;
    cells_le = omega arith;
    cell_from = λ i h. absurd (omega arith);
    cell_to = λ i h. absurd (omega arith);
  }

  pub empty_node-IsHeader : IsHeader (empty_node page type page_size)
  unfolding empty_node
  empty_node-IsHeader = record {
    array_at = refl;
    right_page_lt = omega arith;
    leaf_right_page = λ e. refl;
  }

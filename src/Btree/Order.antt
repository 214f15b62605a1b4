-- ===== src/Btree/Order.antt =====
-- src/libchidb/btree.c: the order of the keys in a table B-tree, by which a search finds every entry.
use chidb.Prelude.{ℕ, ◌≤◌, ◌<◌, ◌≡◌, refl, subst, false, none, List, [], ◌∷◌, ◌++◌, arith, All}
use chidb.Pager.{Pager}
use chidb.Node.Entries.{Entry}
use chidb.Btree.{find}
use chidb.Btree.Tree.{
  Tree, leaf, node, Kids, last, more, depth, lookup, search_tree, search_kids, Holds,
}
use chidb.Btree.Find.{Finds, search-Holds}

-- The entries of the leaves from left to right: what the table holds.
unfoldable mutual
  pub rows : Tree → List Entry
  rows (leaf es) = es
  rows (node ks) = rows_kids ks

  pub rows_kids : Kids → List Entry
  rows_kids (last t) = rows t
  rows_kids (more t e ks) = rows t ++ rows_kids ks

abbrev pub AtMost : ℕ → List Entry → Type 0
AtMost k = All (λ e. e.key ≤ k)

abbrev pub Above : ℕ → List Entry → Type 0
Above k = All (λ e. k < e.key)

-- An entry of an internal node separates the keys of the child in front of it from those behind it.
unfoldable mutual
  pub IsOrdered : Tree → Type 0
  IsOrdered (leaf es) = Unit
  IsOrdered (node ks) = IsOrderedKids ks

  pub IsOrderedKids : Kids → Type 0
  IsOrderedKids (last t) = IsOrdered t
  IsOrderedKids (more t e ks) =
      IsOrdered t × AtMost e.key (rows t) × Above e.key (rows_kids ks) × IsOrderedKids ks

lookup-Above : (key k : ℕ) (es : List Entry) → key ≤ k → Above k es → lookup key es ≡ none
unfolding lookup
lookup-Above key k [] h a = refl
lookup-Above key k (e ∷ es) h a = ground (arith, lookup-Above key k es h (a.1))

lookup-AtMost : (key k : ℕ) (es : List Entry) → k < key → AtMost k es → lookup key es ≡ none
unfolding lookup
lookup-AtMost key k [] h a = refl
lookup-AtMost key k (e ∷ es) h a = ground (arith, lookup-AtMost key k es h (a.1))

lookup-append_left :
    (key : ℕ) (xs ys : List Entry) → lookup key ys ≡ none → lookup key (xs ++ ys) ≡ lookup key xs
unfolding lookup
lookup-append_left key [] ys h = h
lookup-append_left key (x ∷ xs) ys h = ground (arith, lookup-append_left key xs ys h)

lookup-append_right :
    (key : ℕ) (xs ys : List Entry) → lookup key xs ≡ none → lookup key (xs ++ ys) ≡ lookup key ys
unfolding lookup
lookup-append_right key [] ys h = refl
lookup-append_right key (x ∷ xs) ys h = ground (arith, lookup-append_right key xs ys)

mutual
  unfolding search_tree rows IsOrdered

  search_tree-lookup : (key : ℕ) (t : Tree) → IsOrdered t → search_tree key t ≡ lookup key (rows t)
  search_tree-lookup key (leaf es) o = refl
  search_tree-lookup key (node ks) o = search_kids-lookup key ks o

  search_kids-lookup :
      (key : ℕ) (ks : Kids) → IsOrderedKids ks → search_kids key ks ≡ lookup key (rows_kids ks)
  search_kids-lookup key (last t) o = search_tree-lookup key t o
  search_kids-lookup key (more t e ks) (o, lo, hi, os) = ground (
    arith,
    search_tree-lookup key t o,
    search_kids-lookup key ks os,
    λ (h : key ≤ e.key).
        lookup-append_left key (rows t) (rows_kids ks) (lookup-Above key e.key (rows_kids ks) h hi),
    λ (h : e.key < key).
        lookup-append_right key (rows t) (rows_kids ks) (lookup-AtMost key e.key (rows t) h lo),
  )

-- `chidb_Btree_find` on an ordered table B-tree returns the row with the key, and reports CHIDB_ENOTFOUND
-- exactly when no leaf holds the key. It changes nothing, and fuel for the depth of the tree is
-- enough.
pub find-lookup :
    (p : Pager) (key : ℕ) {npage : ℕ} {t : Tree}
    → Holds p false npage t
    → IsOrdered t
    → (fuel : ℕ) → depth t ≤ fuel
    → Finds p (lookup key (rows t)) (find fuel npage key p)
find-lookup p key {npage} {t} h o fuel deep =
    subst (λ r. Finds p r (find fuel npage key p)) (search_tree-lookup key t o)
      (search-Holds p key h fuel deep)

-- ===== src/Btree/Write.antt =====
-- src/libchidb/btree.c: nodes written to the file, and the insertion into a leaf.
use chidb.Prelude.{ℕ, ◌≡◌, ◌≢◌, refl, sym, ap, subst, ◌∙◌}
use chidb.Run.{ok}
use chidb.Pager.{Pager, MemPage, page_bytes}
use chidb.Pager.Laws.{
  IsPager, IsPage, trim, written, read_page-ok, write_page-ok, page_bytes-written_self,
  page_bytes-written_ne, written-IsPager,
}
use chidb.Node.{BTreeNode, BTreeCell, store_node, load_node}
use chidb.Node.Entries.{IsNode, entries}
use chidb.Node.Insert.{inserted}
use chidb.Node.Load.{
  IsHeader, stored_page, load_node-store_node, stored_body, entries-same_page, IsNode-same_page,
}
use chidb.Btree.{get_node_by_page, write_node}
use chidb.Btree.Tree.{IsNodeAt, node_at}

store_node-npage : (btn : BTreeNode) → (store_node btn).npage ≡ btn.page.npage
unfolding store_node
store_node-npage btn = refl

-- The pager after a node was written.
abbrev pub with_node : Pager → BTreeNode → Pager
with_node p btn = written p (store_node btn)

module _ (p : Pager) (valid : IsPager p) (btn : BTreeNode) (is_page : IsPage p btn.page.npage)
    (is_node : IsNode p.page_size btn) (header : IsHeader btn) where
  accepted : IsPage p (store_node btn).npage
  accepted = rw (store_node-npage btn) is_page

  pub write_node-ok : write_node btn p ≡ ok tt (with_node p btn)
  unfolding write_node
  write_node-ok = write_page-ok valid (store_node btn) accepted

  stored : MemPage
  stored = stored_page btn p.page_size is_node header

  page_after : page_bytes (with_node p btn) btn.page.npage ≡ trim p.page_size (store_node btn).data_
  page_after =
      subst (λ n. page_bytes (with_node p btn) n ≡ trim p.page_size (store_node btn).data_)
        (store_node-npage btn) (page_bytes-written_self valid (store_node btn) accepted)

  -- The node is found again in its page.
  pub node_at-with_node :
      node_at (with_node p btn) btn.page.npage
      ≡ record btn { page = stored_page btn p.page_size is_node header }
  node_at-with_node =
      ap (λ d. load_node (record { npage = btn.page.npage; data_ = d })) page_after
      ∙ load_node-store_node btn p.page_size is_node header

  pub entries-with_node : entries (node_at (with_node p btn) btn.page.npage) ≡ entries btn
  entries-with_node =
      ap entries node_at-with_node
      ∙ entries-same_page btn p.page_size is_node _ (stored_body btn p.page_size is_node header)

  pub with_node-IsNodeAt : IsNodeAt (with_node p btn) btn.page.npage btn.type
  with_node-IsNodeAt = record {
    is_page = is_page;
    type_is = ap (λ b. b.type) node_at-with_node;
    is_node =
        subst (IsNode p.page_size) (sym node_at-with_node)
          (IsNode-same_page btn p.page_size is_node _ (stored_body btn p.page_size is_node header));
    is_header = subst IsHeader (sym node_at-with_node) (record {
      array_at = header.array_at;
      right_page_lt = header.right_page_lt;
      leaf_right_page = header.leaf_right_page;
    });
  }

  -- Every other page holds the node that it held.
  pub node_at-with_node_ne :
      (n : ℕ) → IsPage p n → n ≢ btn.page.npage → node_at (with_node p btn) n ≡ node_at p n
  node_at-with_node_ne n other ne =
      ap (λ d. load_node (record { npage = n; data_ = d }))
        (page_bytes-written_ne valid (store_node btn) accepted n other
          (λ e. ne (e ∙ store_node-npage btn)))

  pub with_node-IsPager : IsPager (with_node p btn)
  with_node-IsPager = written-IsPager valid (store_node btn) accepted

-- A node that is well formed and agrees with its page is written by `chidb_Btree_writeNode`, and the load of its page
-- gives a node with the same fields and entries.
pub get_node_by_page-write_node :
    (p : Pager) (valid : IsPager p) (btn : BTreeNode) (is_page : IsPage p btn.page.npage)
    (is_node : IsNode p.page_size btn) (header : IsHeader btn)
    → (p' : Pager) × (page : MemPage) × (write_node btn p ≡ ok tt p')
      × (get_node_by_page btn.page.npage p' ≡ ok (record btn { page = page }) p')
      × (entries (record btn { page = page }) ≡ entries btn)
unfolding get_node_by_page
get_node_by_page-write_node p valid btn is_page is_node header = (
  with_node p btn,
  stored_page btn p.page_size is_node header,
  write_node-ok p valid btn is_page is_node header,
  rw (read_page-ok {p = with_node p btn} btn.page.npage is_page)
      (ap (λ b. ok b (with_node p btn)) (node_at-with_node p valid btn is_page is_node header)),
  entries-same_page btn p.page_size is_node _ (stored_body btn p.page_size is_node header),
)

-- A node in another page stays.
pub IsNodeAt-with_node_ne :
    (p : Pager) (valid : IsPager p) (btn : BTreeNode) (is_page : IsPage p btn.page.npage)
    (is_node : IsNode p.page_size btn) (header : IsHeader btn) (n type : ℕ)
    → IsNodeAt p n type
    → n ≢ btn.page.npage
    → IsNodeAt (with_node p btn) n type
IsNodeAt-with_node_ne p valid btn is_page is_node header n type at ne = record {
  is_page = at.is_page;
  type_is = ap (λ b. b.type) same ∙ at.type_is;
  is_node = subst (IsNode p.page_size) (sym same) at.is_node;
  is_header = subst IsHeader (sym same) at.is_header;
}
  where
    same : node_at (with_node p btn) n ≡ node_at p n
    same = node_at-with_node_ne p valid btn is_page is_node header n at.is_page ne

pub inserted-IsHeader :
    (btn : BTreeNode) (pos : ℕ) (c : BTreeCell) → IsHeader btn → IsHeader (inserted btn pos c)
inserted-IsHeader btn pos c header = record {
  array_at = header.array_at;
  right_page_lt = header.right_page_lt;
  leaf_right_page = header.leaf_right_page;
}

-- ===== src/Codegen/Join/Parts.antt =====
-- src/libchidb/codegen.c: the instructions of a join that depend on how a side finds its rows.
use chidb.Prelude.{ℕ, ◌+◌, List, [], ◌∷◌, ◌++◌}
use chidb.Dbm.{Opcode, DbmOp}
use chidb.Sql.{Column}
use chidb.Codegen.{op_of, unpatched, literal_op, column_count, read_op}
use chidb.Codegen.Conjuncts.{RCol, rcol_op}
use chidb.Codegen.Select.{advance_op, bound_ops, bound_literal, bound_address}
use chidb.Codegen.Join.{SideAccess, JoinSide, bound_of}

-- A side's index, if it uses one, and its table are opened.
abbrev pub open_side : JoinSide → ℕ → ℕ → ℕ → ℕ → List DbmOp
open_side a idx_cursor cursor r_idxroot r_root =
    (elim a.access [
      | SideAccess.scan ↦ []
      | SideAccess.eq_seek idx cmp ↦
          op_of Opcode.integer idx.root_page r_idxroot 0
          ∷ op_of Opcode.open_read idx_cursor r_idxroot 0
          ∷ []
      | SideAccess.range_seek idx cmp bound2 o forward ↦
          op_of Opcode.integer idx.root_page r_idxroot 0
          ∷ op_of Opcode.open_read idx_cursor r_idxroot 0
          ∷ []
    ])
    ++ op_of Opcode.integer a.tbl.root_page r_root 0
      ∷ op_of Opcode.open_read cursor r_root (column_count a.cols)
      ∷ []

abbrev pub seek_literals : SideAccess → ℕ → ℕ → List DbmOp
seek_literals SideAccess.scan r_lit r_lit_b = []
seek_literals (SideAccess.eq_seek idx cmp) r_lit r_lit_b = literal_op cmp.lit r_lit ∷ []
seek_literals (SideAccess.range_seek idx cmp bound2 o forward) r_lit r_lit_b =
    literal_op cmp.lit r_lit ∷ bound_literal bound2 r_lit_b

-- A side with one row is placed once, before any loop.
abbrev pub place_once : SideAccess → ℕ → ℕ → ℕ → ℕ → List DbmOp
place_once (SideAccess.eq_seek idx cmp) idx_cursor cursor r_lit r_pkey =
    op_of Opcode.seek idx_cursor unpatched r_lit
    ∷ op_of Opcode.idx_pkey idx_cursor r_pkey 0
    ∷ op_of Opcode.seek cursor unpatched r_pkey
    ∷ []
place_once _ idx_cursor cursor r_lit r_pkey = []

-- The jumps of those instructions, which start at `pc`.
abbrev pub placed_addresses : SideAccess → ℕ → List ℕ
placed_addresses (SideAccess.eq_seek idx cmp) pc = pc ∷ (pc + 2) ∷ []
placed_addresses _ pc = []

-- The first instruction of a loop, at `addr_pos`.
abbrev pub begin_loop : SideAccess → ℕ → ℕ → ℕ → List DbmOp
begin_loop SideAccess.scan idx_cursor cursor r_lit = op_of Opcode.rewind cursor unpatched 0 ∷ []
begin_loop (SideAccess.eq_seek idx cmp) idx_cursor cursor r_lit = []
begin_loop (SideAccess.range_seek idx cmp bound2 o forward) idx_cursor cursor r_lit =
    op_of o idx_cursor unpatched r_lit ∷ []

-- The row of an index entry, and the check of the upper bound.
abbrev pub entry_ops : JoinSide → ℕ → ℕ → ℕ → ℕ → ℕ → List DbmOp
entry_ops a idx_cursor cursor r_pkey r_lit_b r_tmp = elim a.access [
  | SideAccess.scan ↦ []
  | SideAccess.eq_seek idx cmp ↦ []
  | SideAccess.range_seek idx cmp bound2 o forward ↦
      op_of Opcode.idx_pkey idx_cursor r_pkey 0
      ∷ op_of Opcode.seek cursor unpatched r_pkey
      ∷ bound_ops cursor a.cols bound2 r_lit_b r_tmp
]

-- Of those, the address of the seek, and that of the jump of the check.
abbrev pub entry_address : SideAccess → ℕ → List ℕ
entry_address (SideAccess.range_seek idx cmp bound2 o forward) pc = (pc + 1) ∷ []
entry_address _ pc = []

abbrev pub entry_bound_address : SideAccess → ℕ → List ℕ
entry_bound_address a pc = bound_address (bound_of a) (pc + 2)

-- The last instruction of a loop.
abbrev pub end_loop : SideAccess → ℕ → ℕ → ℕ → List DbmOp
end_loop SideAccess.scan idx_cursor cursor loop = op_of Opcode.next cursor loop 0 ∷ []
end_loop (SideAccess.eq_seek idx cmp) idx_cursor cursor loop = []
end_loop (SideAccess.range_seek idx cmp bound2 o forward) idx_cursor cursor loop =
    op_of (advance_op forward) idx_cursor loop 0 ∷ []

abbrev pub loop_address : SideAccess → ℕ → List ℕ
loop_address (SideAccess.eq_seek idx cmp) pc = []
loop_address _ pc = pc ∷ []

-- The comparisons of the join columns. The third of every three instructions jumps.
unfoldable pub pair_checks : List (ℕ × ℕ) → List Column → List Column → ℕ → ℕ → List DbmOp
pair_checks [] cols1 cols2 r_a r_b = []
pair_checks ((i, j) ∷ ps) cols1 cols2 r_a r_b =
    read_op cols1 0 i r_a
    ∷ read_op cols2 1 j r_b
    ∷ op_of Opcode.ne r_a unpatched r_b
    ∷ pair_checks ps cols1 cols2 r_a r_b

unfoldable pub pair_addresses : List (ℕ × ℕ) → ℕ → List ℕ
pair_addresses [] pc = []
pair_addresses (p ∷ ps) pc = (pc + 2) ∷ pair_addresses ps (pc + 3)

unfoldable pub output_rcol_ops : List RCol → List Column → List Column → ℕ → List DbmOp
unfolding rcol_op
output_rcol_ops [] cols1 cols2 r = []
output_rcol_ops (rc ∷ rcs) cols1 cols2 r =
    rcol_op rc cols1 cols2 r ∷ output_rcol_ops rcs cols1 cols2 (r + 1)

abbrev pub close_index : SideAccess → ℕ → List DbmOp
close_index SideAccess.scan cursor = []
close_index _ cursor = op_of Opcode.close cursor 0 0 ∷ []

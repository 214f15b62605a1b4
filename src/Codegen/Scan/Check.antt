-- ===== src/Codegen/Scan/Check.antt =====
-- src/libchidb/codegen.c, dbm.c: one check of a compiled scan, run by the machine.
use chidb.Prelude.{
  ℕ, suc, ◌+◌, ◌^◌, ◌≤◌, ◌<◌, ◌≡◌, refl, sym, ap, subst, ◌∙◌, inl, inr, Bool, true, false, Option,
  none, some, List, [], ◌∷◌, arith, get_elem?, length, Bool-cases,
}
use chidb.Run.{Run, ok}
use chidb.Cursor.{CursorRow, Cursor}
use chidb.Dbm.{DbmOp, Register, Stmt}
use chidb.Dbm.Ops.{op_handle}
use chidb.Dbm.Exec.Stops.{at_next}
use chidb.Schema.{str_case_eq}
use chidb.Sql.{DataType, Literal, ColumnReference, Condition, Column}
use chidb.Optimizer.Meaning.{Value, literal_value, holds}
use chidb.Codegen.{
  op_of, column_count, column_index_by_name, next_index, literal_matches_type, read_op,
}
use chidb.Codegen.Checks.{value_register}
use chidb.Codegen.Compare.{
  SameType, ints, texts, checked, Compiles, resolve_comparison-Compiles,
  resolve_comparison-op_handle,
}
use chidb.Codegen.Conjuncts.{
  RCol, ResolvedCmp, on_side, resolve_comparison, resolve_single_column, rcol_op,
}
use chidb.Codegen.Layout.{get_elem?-lt}
use chidb.Codegen.Scan.State.{
  InRegister, get_reg-InRegister, Puts, put_reg-Puts, Finishes, step-Finishes, Running,
}
use chidb.Codegen.Scan.Row.{HasType, int_value, text_value, RowIs, row_env, read_op-put_reg}

pub on_side-some :
    (side : ℕ) (o : Option (ℕ × DataType)) (col : RCol) (type : DataType)
    → on_side side o ≡ some (col, type)
    → (o ≡ some (col.idx, type)) × (col.side ≡ side)
on_side-some side none col type e = absurd cc
on_side-some side (some (i, type')) col type e = (ap back e, sym (ap side_of e))
  where
    back : Option (RCol × DataType) → Option (ℕ × DataType)
    back none = none
    back (some (col, type)) = some (col.idx, type)

    side_of : Option (RCol × DataType) → ℕ
    side_of none = 0
    side_of (some (col, type)) = col.side

index_of : Option (ℕ × DataType) → ℕ
index_of none = 0
index_of (some (i, type)) = i

next_index-some :
    (o : Option (ℕ × DataType)) (i : ℕ) (type : DataType)
    → next_index o ≡ some (i, type)
    → (j : ℕ) × (o ≡ some (j, type)) × (i ≡ suc j)
unfolding index_of
next_index-some none i type e = absurd cc
next_index-some (some (j, t)) i type e =
    (j, ap (λ (x : DataType). some (j, x)) (type_is), sym (ap index_of e))
  where
    type_of : Option (ℕ × DataType) → DataType
    type_of none = type
    type_of (some (i, t)) = t

    type_is : t ≡ type
    type_is = ap type_of e

pub column_index_by_name-lt :
    (cols : List Column) (name : List ℕ) (i : ℕ) (type : DataType)
    → column_index_by_name cols name ≡ some (i, type)
    → i < column_count cols
unfolding column_index_by_name column_count index_of
column_index_by_name-lt [] name i type e = absurd cc
column_index_by_name-lt (c ∷ cs) name i type e = elim (Bool-cases (str_case_eq c.name name)) [
  | inl b ↦
      let first : some (0, c.type) ≡ some (i, type) = sym (rw (b, column_index_by_name) refl) ∙ e in
      omega (arith, ap index_of first)
  | inr b ↦
      let (j, found, is) =
        next_index-some (column_index_by_name cs name) i type
          (sym (rw (b, column_index_by_name) refl) ∙ e) in
      omega (arith, is, column_index_by_name-lt cs name j type found)
]

-- A literal that matches the type has a value of it.
pub literal_value-HasType :
    (lit : Literal) (type : DataType)
    → literal_matches_type lit type ≡ true
    → (w : Value) × (literal_value lit ≡ some w) × HasType type w
unfolding literal_matches_type literal_value
literal_value-HasType (Literal.lit_int n) DataType.int_type e = (Value.int n, refl, int_value)
literal_value-HasType (Literal.lit_text t) DataType.text_type e = (Value.text t, refl, text_value)
literal_value-HasType (Literal.lit_char c) DataType.text_type e = (_, refl, text_value)
literal_value-HasType _ _ e = absurd cc

HasType-SameType : (type : DataType) (v w : Value) → HasType type v → HasType type w → SameType v w
HasType-SameType type v w int_value int_value = ints
HasType-SameType type v w text_value text_value = texts

module _ (prog : List DbmOp) (cmps : List ResolvedCmp) (nout : ℕ) (cur : Cursor) where
  abbrev pub Runs : ℕ → Stmt → Type 0
  Runs = Running prog cmps nout cur

  module _ (pc : ℕ) (s : Stmt) (h : Runs pc s) where
    -- A register behind those of the literals is set.
    put-Running :
        (r : ℕ) (v : Register) (f : ℕ → Register) (n : ℕ)
        → length cmps < r
        → Puts (at_next s) r v f n
        → Runs (pc + 1) (record (at_next s) { reg = f; n_reg = n })
    put-Running r v f n behind p = record {
      pc_is = omega (arith, h.pc_is);
      ops_are = h.ops_are;
      end_is = h.end_is;
      count_is = h.count_is;
      cols_is = h.cols_is;
      slot = h.slot;
      slots = h.slots;
      opened = h.opened;
      literals = λ j cmp w e g.
          let old : InRegister s (1 + j) (value_register w) = h.literals j cmp w e g in
          record {
            there = omega (arith, old.there, p.more);
            small = old.small;
            value =
                p.old (1 + j) old.there (inl (omega (arith, get_elem?-lt cmps j cmp e)))
                ∙ old.value;
          };
    }

    -- The machine at another address.
    pub moved-Running : (target : ℕ) → Runs target (record s { pc = target })
    moved-Running target = record {
      pc_is = refl;
      ops_are = h.ops_are;
      end_is = h.end_is;
      count_is = h.count_is;
      cols_is = h.cols_is;
      slot = h.slot;
      slots = h.slots;
      opened = h.opened;
      literals = λ j cmp w e g.
          let old : InRegister s (1 + j) (value_register w) = h.literals j cmp w e g in
          record { there = old.there; small = old.small; value = old.value };
    }

    pub inside : (op : DbmOp) → get_elem? prog pc ≡ some op → s.pc < s.end_op
    inside op e = omega (arith, h.pc_is, h.end_is, get_elem?-lt prog pc op e)

    pub here : (op : DbmOp) → get_elem? prog pc ≡ some op → get_elem? prog s.pc ≡ some op
    here op e = ap (get_elem? prog) h.pc_is ∙ e

  module _ (cols : List Column) (few : column_count cols ≤ 2 ^ 8) (row : CursorRow) (k : ℕ)
      (at : cur.pos ≡ some k) (row_is : get_elem? cur.rows k ≡ some row) (vs : ℕ → Value)
      (values : RowIs cur cols row vs) (depth : ℕ) (P : Run Stmt (Unit {0}) → Type 0) where
    -- A column of the row is read into a register.
    pub read-Finishes :
        (pc : ℕ) (s : Stmt) (i r : ℕ)
        → Runs pc s
        → get_elem? prog pc ≡ some (read_op cols 0 i r)
        → i < column_count cols
        → length cmps < r
        → r < 2 ^ 31
        → ((s' : Stmt)
            → Runs (pc + 1) s'
            → InRegister s' r (value_register (vs i))
            → ((j : ℕ) (v : Register) → j < r → InRegister s j v → InRegister s' j v)
            → Finishes depth P s')
        → Finishes depth P s
    read-Finishes pc s i r h op_is i_lt behind small rest =
        let (f, n, e, p) = put_reg-Puts (at_next s) r (value_register (vs i)) small in
        step-Finishes depth prog P s (read_op cols 0 i r) h.ops_are (here pc s h _ op_is)
          (inside pc s h _ op_is) (record (at_next s) { reg = f; n_reg = n })
          (read_op-put_reg prog cmps nout cur pc s h cols few row k at row_is depth i r (vs i) i_lt
              (values.columns i i_lt)
            ∙ e)
          (rest (record (at_next s) { reg = f; n_reg = n })
            (put-Running pc s h r (value_register (vs i)) f n behind p)
            (record { there = p.there; small = small; value = p.new })
            (λ j v j_lt old. record {
              there = omega (arith, old.there, p.more);
              small = old.small;
              value = p.old j old.there (inl j_lt) ∙ old.value;
            }))

    -- A comparison of the row is checked: the machine goes on if it holds, and to the target if not.
    pub check-Finishes :
        (pc : ℕ) (s : Stmt) (cond : Condition) (cmp : ResolvedCmp) (j target : ℕ)
        → Runs pc s
        → resolve_comparison (resolve_single_column cols) cond ≡ some cmp
        → get_elem? cmps j ≡ some cmp
        → get_elem? prog pc ≡ some (rcol_op cmp.col cols [] (1 + length cmps))
        → get_elem? prog (pc + 1) ≡ some (op_of cmp.op (1 + j) target (1 + length cmps))
        → 1 + length cmps < 2 ^ 31
        → ((s' : Stmt)
            → holds cond (row_env cols vs) ≡ true
            → Runs (pc + 1 + 1) s'
            → Finishes depth P s')
        → ((s' : Stmt)
            → holds cond (row_env cols vs) ≡ false
            → Runs target s'
            → Finishes depth P s')
        → Finishes depth P s
    unfolding rcol_op resolve_single_column row_env
    check-Finishes pc s cond cmp j target h compiles cmp_is read_is jump_is small pass miss =
        let c : Compiles (resolve_single_column cols) cond cmp =
          resolve_comparison-Compiles (resolve_single_column cols) cond cmp compiles in
        let (found, side_is) =
          on_side-some 0 (column_index_by_name cols c.ref.column_name) cmp.col c.type c.resolves in
        let (w, lit_is, lit_type) = literal_value-HasType cmp.lit c.type c.matches in
        let same : SameType (vs cmp.col.idx) w =
          HasType-SameType c.type (vs cmp.col.idx) w
            (values.types c.ref.column_name cmp.col.idx c.type found) lit_type in
        read-Finishes pc s cmp.col.idx (1 + length cmps) h (read_is ∙ rw side_is refl)
          (column_index_by_name-lt cols c.ref.column_name cmp.col.idx c.type found) (omega arith)
          small
          (λ s' runs tmp_in old.
            let lit_in : InRegister s' (1 + j) (value_register w) =
              runs.literals j cmp w cmp_is lit_is in
            let handled : op_handle depth (op_of cmp.op (1 + j) target (1 + length cmps))
                  (at_next s')
                ≡ ok tt (checked (holds cond (row_env cols vs)) target (at_next s')) =
              resolve_comparison-op_handle (resolve_single_column cols) cond cmp compiles
                (row_env cols vs) (vs cmp.col.idx) w (reads cmp) lit_is same depth (at_next s')
                (1 + j) target (1 + length cmps)
                (get_reg-InRegister (at_next s') (1 + length cmps) (value_register (vs cmp.col.idx))
                  (record { there = tmp_in.there; small = tmp_in.small; value = tmp_in.value }))
                (get_reg-InRegister (at_next s') (1 + j) (value_register w)
                  (record { there = lit_in.there; small = lit_in.small; value = lit_in.value })) in
            let at : get_elem? prog s'.pc ≡ some (op_of cmp.op (1 + j) target (1 + length cmps)) =
              here (pc + 1) s' runs _ jump_is in
            let within : s'.pc < s'.end_op = inside (pc + 1) s' runs _ jump_is in
            elim (Bool-cases (holds cond (row_env cols vs))) [
              | inl e ↦
                  step-Finishes depth prog P s' _ runs.ops_are at within (at_next s')
                    (handled ∙ ap (λ (b : Bool). ok tt (checked b target (at_next s'))) e)
                    (pass (at_next s') e (
                      subst (λ n. Runs n (at_next s')) (ap (λ (n : ℕ). n + 1) runs.pc_is)
                        (moved-Running (pc + 1) s' runs (s'.pc + 1))))
              | inr e ↦
                  step-Finishes depth prog P s' _ runs.ops_are at within (record s' { pc = target })
                    (handled ∙ ap (λ (b : Bool). ok tt (checked b target (at_next s'))) e)
                    (miss (record s' { pc = target }) e (moved-Running (pc + 1) s' runs target))
            ])
      where
        reads :
            (cmp : ResolvedCmp) (ref : ColumnReference) (type : DataType)
            → resolve_single_column cols ref ≡ some (cmp.col, type)
            → row_env cols vs ref ≡ some (vs cmp.col.idx)
        reads cmp ref type e =
            let (found, side_is) =
              on_side-some 0 (column_index_by_name cols ref.column_name) cmp.col type e in
            rw (found, row_env) refl

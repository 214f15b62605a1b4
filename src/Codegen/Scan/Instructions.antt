-- ===== src/Codegen/Scan/Instructions.antt =====
-- src/libchidb/codegen.c: the instructions of the parts of a scan, one by one.
use chidb.Prelude.{
  ℕ, zero, suc, ◌+◌, ◌*◌, ◌<◌, ◌≡◌, refl, sym, ap, ap₂, subst, ◌∙◌, inl, inr, some, List, [], ◌∷◌,
  arith, get_elem?, length, All,
}
use chidb.Dbm.{Opcode, DbmOp}
use chidb.Dbm.Values.{c_string}
use chidb.Schema.Lookup.{Decided}
use chidb.Sql.{Literal, Column}
use chidb.Codegen.{op_of, string_op, literal_op, column_name_at, column_is_primary_key, read_op}
use chidb.Codegen.Conjuncts.{ResolvedCmp, rcol_op, filter_literals, filter_checks}
use chidb.Codegen.Scan.Checked.{Lies, Lies-rest}
use chidb.Codegen.Scan.Values.{IsKey, column_at, column_is_primary_key-Decided}
use chidb.Codegen.Select.{output_columns, column_names, r_out_of}

-- The instruction reads the column with the index `i` of the cursor 0 into the register `r`.
pub data Reads (cols : List Column) (i r : ℕ) : DbmOp → Type 0 where
  reads_key :
      {c : Column}
      → get_elem? cols i ≡ some c
      → IsKey c.constraints
      → Reads cols i r (op_of Opcode.key 0 r 0)
  reads_field :
      {c : Column}
      → get_elem? cols i ≡ some c
      → ¬ IsKey c.constraints
      → Reads cols i r (op_of Opcode.column 0 i r)

-- The instruction loads the literal into the register `r`. A character is a text of at most one.
pub data Loads (r : ℕ) : Literal → DbmOp → Type 0 where
  loads_int : {n : ℕ} → Loads r (Literal.lit_int n) (op_of Opcode.integer n r 0)
  loads_text : {s : List ℕ} → Loads r (Literal.lit_text s) (string_op s r)
  loads_char : {c : ℕ} → Loads r (Literal.lit_char c) (string_op (c_string (c ∷ [])) r)
  loads_no_text : {n : ℕ} → Loads r (Literal.lit_double n) (op_of Opcode.string 0 r 0)

-- The register of the first column that is shown, for `n` comparisons. With comparisons, it is behind their literals
-- and the register of the value that is compared.
abbrev pub first_shown : ℕ → ℕ
first_shown zero = 1
first_shown (suc n) = n + 3

-- The comparison is of a column of the one table.
abbrev pub IsOn : List Column → ResolvedCmp → Type 0
IsOn cols cmp = (cmp.col.side ≡ 0) × (cmp.col.idx < length cols)

pub literal_op-Loads : (l : Literal) (r : ℕ) → Loads r l (literal_op l r)
unfolding literal_op
literal_op-Loads (Literal.lit_int n) r = loads_int
literal_op-Loads (Literal.lit_char c) r = loads_char
literal_op-Loads (Literal.lit_text s) r = loads_text
literal_op-Loads (Literal.lit_double n) r = loads_no_text

pub read_op-Reads :
    (cols : List Column) (i r : ℕ) → i < length cols → Reads cols i r (read_op cols 0 i r)
unfolding read_op
read_op-Reads cols i r h =
    let (c, at) = column_at cols i h in reads c at (column_is_primary_key-Decided cols i c at)
  where
    reads :
        (c : Column)
        → get_elem? cols i ≡ some c
        → Decided (column_is_primary_key cols i) (IsKey c.constraints)
        → Reads cols i r (read_op cols 0 i r)
    reads c at (inl (e, key)) = rw (e, read_op) (reads_key at key)
    reads c at (inr (e, no_key)) = rw (e, read_op) (reads_field at no_key)

pub rcol_op-Reads :
    (cols : List Column) (cmp : ResolvedCmp) (r : ℕ)
    → IsOn cols cmp
    → Reads cols cmp.col.idx r (rcol_op cmp.col cols [] r)
unfolding rcol_op
rcol_op-Reads cols cmp r (side, idx) = rw (side, rcol_op) (read_op-Reads cols cmp.col.idx r idx)

pub filter_literals-at :
    (cmps : List ResolvedCmp) (r j : ℕ) (cmp : ResolvedCmp)
    → get_elem? cmps j ≡ some cmp
    → get_elem? (filter_literals cmps r) j ≡ some (literal_op cmp.lit (r + j))
unfolding filter_literals
filter_literals-at [] r j cmp e = absurd cc
filter_literals-at (c ∷ cs) r zero cmp e =
    ap₂ (λ (c : ResolvedCmp) (n : ℕ). some (literal_op c.lit n)) (head_is e) (omega arith)
  where
    head_is : some c ≡ some cmp → c ≡ cmp
    head_is p = cc
filter_literals-at (c ∷ cs) r (suc j) cmp e =
    filter_literals-at cs (r + 1) j cmp e
    ∙ ap (λ (n : ℕ). some (literal_op cmp.lit n)) (omega arith)

pub length-filter_literals :
    (cmps : List ResolvedCmp) (r : ℕ) → length (filter_literals cmps r) ≡ length cmps
unfolding filter_literals
length-filter_literals [] r = refl
length-filter_literals (c ∷ cs) r = ap suc (length-filter_literals cs (r + 1))

pub length-filter_checks :
    (cmps : List ResolvedCmp) (cols : List Column) (r_lit r_tmp target : ℕ)
    → length (filter_checks cmps cols [] r_lit r_tmp target) ≡ 2 * length cmps
unfolding filter_checks
length-filter_checks [] cols r_lit r_tmp target = refl
length-filter_checks (c ∷ cs) cols r_lit r_tmp target =
    omega (arith, length-filter_checks cs cols (r_lit + 1) r_tmp target)

column_name_at-name :
    (cols : List Column) (i : ℕ) (c : Column)
    → get_elem? cols i ≡ some c
    → column_name_at cols i ≡ some c.name
unfolding column_name_at
column_name_at-name [] i c e = absurd cc
column_name_at-name (d ∷ ds) zero c e = name_of e
  where
    name_of : some d ≡ some c → some d.name ≡ some c.name
    name_of p = cc
column_name_at-name (d ∷ ds) (suc i) c e = column_name_at-name ds i c e

pub length-output_columns :
    (cols : List Column) (out : List ℕ) (r : ℕ) → length (output_columns 0 cols out r) ≡ length out
unfolding output_columns
length-output_columns cols [] r = refl
length-output_columns cols (i ∷ is) r = ap suc (length-output_columns cols is (r + 1))

-- The two instructions of a comparison.
pub filter_checks-at :
    (cmps : List ResolvedCmp) (cols : List Column) (r_lit r_tmp target : ℕ) (prog : List DbmOp)
    (pc : ℕ)
    → Lies prog pc (filter_checks cmps cols [] r_lit r_tmp target)
    → (j : ℕ) (cmp : ResolvedCmp) → get_elem? cmps j ≡ some cmp
    → (get_elem? prog (pc + 2 * j) ≡ some (rcol_op cmp.col cols [] r_tmp))
      × (get_elem? prog (pc + 2 * j + 1) ≡ some (op_of cmp.op (r_lit + j) target r_tmp))
unfolding filter_checks
filter_checks-at [] cols r_lit r_tmp target prog pc lies j cmp e = absurd cc
filter_checks-at (c ∷ cs) cols r_lit r_tmp target prog pc lies zero cmp e =
    subst
      (λ (c : ResolvedCmp).
        (get_elem? prog (pc + 0) ≡ some (rcol_op c.col cols [] r_tmp))
        × (get_elem? prog (pc + 0 + 1) ≡ some (op_of c.op (r_lit + 0) target r_tmp)))
      (head_is e)
      (
        lies 0 _ refl,
        ap (get_elem? prog) (omega arith)
            ∙ lies 1 _ refl
            ∙ ap (λ (n : ℕ). some (op_of c.op n target r_tmp)) (omega arith),
      )
  where
    head_is : some c ≡ some cmp → c ≡ cmp
    head_is p = cc
filter_checks-at (c ∷ cs) cols r_lit r_tmp target prog pc lies (suc j) cmp e =
    let read : DbmOp = rcol_op c.col cols [] r_tmp in
    let jump : DbmOp = op_of c.op r_lit target r_tmp in
    let ops : List DbmOp = filter_checks cs cols [] (r_lit + 1) r_tmp target in
    let (reads, jumps) =
      filter_checks-at cs cols (r_lit + 1) r_tmp target prog (pc + 1 + 1)
        (Lies-rest prog (pc + 1) jump ops (Lies-rest prog pc read (jump ∷ ops) lies)) j cmp e in
    (
      ap (get_elem? prog) (omega arith) ∙ reads,
      ap (get_elem? prog) (omega arith)
          ∙ jumps
          ∙ ap (λ (n : ℕ). some (op_of cmp.op n target r_tmp)) (omega arith),
    )

pub output_columns-at :
    (cols : List Column) (out : List ℕ) (r j i : ℕ)
    → get_elem? out j ≡ some i
    → get_elem? (output_columns 0 cols out r) j ≡ some (read_op cols 0 i (r + j))
unfolding output_columns
output_columns-at cols [] r j i e = absurd cc
output_columns-at cols (k ∷ ks) r zero i e =
    ap₂ (λ (k n : ℕ). some (read_op cols 0 k n)) (head_is e) (omega arith)
  where
    head_is : some k ≡ some i → k ≡ i
    head_is p = cc
output_columns-at cols (k ∷ ks) r (suc j) i e =
    output_columns-at cols ks (r + 1) j i e
    ∙ ap (λ (n : ℕ). some (read_op cols 0 i n)) (omega arith)

pub column_names-named :
    (cols : List Column) (out : List ℕ)
    → All (λ i. i < length cols) out
    → (names : List (List ℕ)) × (column_names cols out ≡ some names)
      × (length names ≡ length out)
      × ((j i : ℕ) (c : Column)
          → get_elem? out j ≡ some i
          → get_elem? cols i ≡ some c
          → get_elem? names j ≡ some c.name)
unfolding column_names
column_names-named cols [] h = ([], refl, refl, λ j i c e at. absurd cc)
column_names-named cols (k ∷ ks) (k_lt, h) =
    let (d, d_at) = column_at cols k k_lt in
    let (names, e, count, rest) = column_names-named cols ks h in
    (
      d.name ∷ names,
      rw (column_name_at-name cols k d d_at, e, column_names) refl,
      ap suc count,
      named d d_at names rest,
    )
  where
    same : {a b : ℕ} → some a ≡ some b → a ≡ b
    same p = cc

    name_of : (c d : Column) → some d ≡ some c → some d.name ≡ some c.name
    name_of c d p = cc

    named :
        (d : Column)
        → get_elem? cols k ≡ some d
        → (names : List (List ℕ))
        → ((j i : ℕ) (c : Column)
            → get_elem? ks j ≡ some i
            → get_elem? cols i ≡ some c
            → get_elem? names j ≡ some c.name)
        → (j i : ℕ) (c : Column) → get_elem? (k ∷ ks) j ≡ some i
        → get_elem? cols i ≡ some c
        → get_elem? (d.name ∷ names) j ≡ some c.name
    named d d_at names rest zero i c e at =
        name_of c d (sym d_at ∙ ap (get_elem? cols) (same e) ∙ at)
    named d d_at names rest (suc j) i c e at = rest j i c e at

pub All-get_elem? :
    {A : Type 0} (P : A → Type 0) (xs : List A) (j : ℕ) (x : A)
    → All P xs
    → get_elem? xs j ≡ some x
    → P x
All-get_elem? P [] j x h e = absurd cc
All-get_elem? P (y ∷ ys) zero x (p, h) e = subst P (same e) p
  where
    same : some y ≡ some x → y ≡ x
    same q = cc
All-get_elem? P (y ∷ ys) (suc j) x (p, h) e = All-get_elem? P ys j x h e

pub r_out_of-first_shown : (cmps : List ResolvedCmp) → r_out_of cmps ≡ first_shown (length cmps)
r_out_of-first_shown [] = refl
r_out_of-first_shown (c ∷ cs) = omega arith

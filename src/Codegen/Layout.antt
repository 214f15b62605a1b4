-- ===== src/Codegen/Layout.antt =====
-- src/libchidb/codegen.c: the program that a sequence of emitted and patched instructions leaves, as a list.
use mathlib.Core.List.{append_assoc, append-nil}
use chidb.Prelude.{
  ℕ, zero, suc, ◌+◌, ◌≤◌, ◌<◌, ◌≡◌, ◌⊎◌, refl, sym, ap, subst, ◌∙◌, inl, inr, some, List, [], ◌∷◌,
  ◌++◌, arith, leb, get_elem?, length, length-append, Bool-cases,
}
use chidb.Dbm.{DbmOp, Stmt, fill_from, realloc_ops, set_op, set_at}
use chidb.Codegen.{Emitter, emit, emits, patch, patch_all}

-- The file, the program counter, the registers and the cursors of a statement are as before.
pub record SameMachine (s t : Stmt) : Type 0 where
  pub pager : t.pager ≡ s.pager
  pub pc : t.pc ≡ s.pc
  pub reg : t.reg ≡ s.reg
  pub n_reg : t.n_reg ≡ s.n_reg
  pub cursors : t.cursors ≡ s.cursors
  pub n_cursors : t.n_cursors ≡ s.n_cursors

-- The program is the list, and the machine that runs it has not changed.
pub record Lays (s : Stmt) (xs : List DbmOp) (e : Emitter) : Type 0 where
  pub pc_is : e.pc ≡ length xs
  pub end_is : e.stmt.end_op ≡ length xs
  pub fits : length xs ≤ e.stmt.n_ops
  pub ops_are : (i : ℕ) (x : DbmOp) → get_elem? xs i ≡ some x → e.stmt.ops i ≡ x
  pub machine : SameMachine s e.stmt

pub get_elem?-lt :
    {A : Type 0} (xs : List A) (i : ℕ) (x : A) → get_elem? xs i ≡ some x → i < length xs
get_elem?-lt [] i x e = absurd cc
get_elem?-lt (y ∷ ys) zero x e = omega arith
get_elem?-lt (y ∷ ys) (suc i) x e = omega (arith, get_elem?-lt ys i x e)

pub get_elem?-snoc :
    {A : Type 0} (xs : List A) (y : A) (i : ℕ) (x : A)
    → get_elem? (xs ++ y ∷ []) i ≡ some x
    → (get_elem? xs i ≡ some x) ⊎ ((i ≡ length xs) × (y ≡ x))
get_elem?-snoc [] y zero x e = inr (refl, cc)
get_elem?-snoc [] y (suc i) x e = absurd cc
get_elem?-snoc (z ∷ zs) y zero x e = inl e
get_elem?-snoc (z ∷ zs) y (suc i) x e = elim (get_elem?-snoc zs y i x e) [
  | inl h ↦ inl h
  | inr (h, g) ↦ inr (ap suc h, g)
]

-- The list after `ops[address].p2 = target`.
abbrev pub set_target : List DbmOp → ℕ → ℕ → List DbmOp
set_target [] address target = []
set_target (x ∷ xs) zero target = record x { p2 = target } ∷ xs
set_target (x ∷ xs) (suc address) target = x ∷ set_target xs address target

abbrev pub set_targets : List DbmOp → List ℕ → ℕ → List DbmOp
set_targets xs [] target = xs
set_targets xs (address ∷ rest) target = set_targets (set_target xs address target) rest target

length-set_target :
    (xs : List DbmOp) (address target : ℕ) → length (set_target xs address target) ≡ length xs
length-set_target [] address target = refl
length-set_target (x ∷ xs) zero target = refl
length-set_target (x ∷ xs) (suc address) target = ap suc (length-set_target xs address target)

get_elem?-set_target :
    (xs : List DbmOp) (address target i : ℕ) (x : DbmOp)
    → get_elem? (set_target xs address target) i ≡ some x
    → ((i ≡ address) × ((y : DbmOp) × (get_elem? xs i ≡ some y) × (x ≡ record y { p2 = target })))
      ⊎ (((i < address) ⊎ (address < i)) × (get_elem? xs i ≡ some x))
get_elem?-set_target [] address target i x e = absurd cc
get_elem?-set_target (y ∷ ys) zero target zero x e = inl (refl, (y, refl, cc))
get_elem?-set_target (y ∷ ys) zero target (suc i) x e = inr (inr (omega arith), e)
get_elem?-set_target (y ∷ ys) (suc address) target zero x e = inr (inl (omega arith), e)
get_elem?-set_target (y ∷ ys) (suc address) target (suc i) x e =
    elim (get_elem?-set_target ys address target i x e) [
      | inl (h, r) ↦ inl (ap suc h, r)
      | inr (inl h, r) ↦ inr (inl (omega arith), r)
      | inr (inr h, r) ↦ inr (inr (omega arith), r)
    ]

module _ (s : Stmt) (op : DbmOp) (pos : ℕ) where
  end_op-set_op : s.end_op ≡ pos → (set_op s op pos).end_op ≡ pos + 1
  unfolding set_op realloc_ops
  end_op-set_op e = ground (arith, e)

  n_ops-set_op : pos + 1 ≤ (set_op s op pos).n_ops
  unfolding set_op realloc_ops
  n_ops-set_op = ground arith

  ops-set_op : (set_op s op pos).ops pos ≡ op
  unfolding set_op set_at
  ops-set_op = ground arith

  ops-set_op_lt : (i : ℕ) → pos ≤ s.n_ops → i < pos → (set_op s op pos).ops i ≡ s.ops i
  unfolding set_op set_at realloc_ops fill_from
  ops-set_op_lt i h g = ground arith

  set_op-SameMachine : SameMachine s (set_op s op pos)
  unfolding set_op realloc_ops
  set_op-SameMachine = elim (Bool-cases (leb s.n_ops pos)) [
    | inl e ↦ record {
      pager = rw e refl;
      pc = rw e refl;
      reg = rw e refl;
      n_reg = rw e refl;
      cursors = rw e refl;
      n_cursors = rw e refl;
    }
    | inr e ↦ record {
      pager = rw e refl;
      pc = rw e refl;
      reg = rw e refl;
      n_reg = rw e refl;
      cursors = rw e refl;
      n_cursors = rw e refl;
    }
  ]

then-SameMachine : (r s t : Stmt) → SameMachine r s → SameMachine s t → SameMachine r t
then-SameMachine r s t h k = record {
  pager = k.pager ∙ h.pager;
  pc = k.pc ∙ h.pc;
  reg = k.reg ∙ h.reg;
  n_reg = k.n_reg ∙ h.n_reg;
  cursors = k.cursors ∙ h.cursors;
  n_cursors = k.n_cursors ∙ h.n_cursors;
}

module _ (s : Stmt) where
  pub emit-Lays :
      (xs : List DbmOp) (e : Emitter) (op : DbmOp)
      → Lays s xs e
      → Lays s (xs ++ op ∷ []) (emit e op)
  unfolding emit
  emit-Lays xs e op h =
      let count : length (xs ++ op ∷ []) ≡ length xs + 1 = length-append xs (op ∷ []) in
      record {
        pc_is = omega (arith, h.pc_is, count);
        end_is =
            omega (arith, end_op-set_op e.stmt op e.pc (h.end_is ∙ sym h.pc_is), count, h.pc_is);
        fits = omega (arith, n_ops-set_op e.stmt op e.pc, count, h.pc_is);
        ops_are = λ i x at. elim (get_elem?-snoc xs op i x at) [
          | inl old ↦
              ops-set_op_lt e.stmt op e.pc i (omega (arith, h.fits, h.pc_is))
                (omega (arith, get_elem?-lt xs i x old, h.pc_is))
              ∙ h.ops_are i x old
          | inr (last, is) ↦
              ap (set_op e.stmt op e.pc).ops (last ∙ sym h.pc_is) ∙ ops-set_op e.stmt op e.pc ∙ is
        ];
        machine =
            then-SameMachine s e.stmt (set_op e.stmt op e.pc) h.machine
              (set_op-SameMachine e.stmt op e.pc);
      }

  pub emits-Lays :
      (xs ops : List DbmOp) (e : Emitter) → Lays s xs e → Lays s (xs ++ ops) (emits e ops)
  unfolding emits
  emits-Lays xs [] e h = subst (λ ys. Lays s ys e) (sym (append-nil xs)) h
  emits-Lays xs (op ∷ ops) e h =
      subst (λ ys. Lays s ys (emits (emit e op) ops)) (append_assoc xs (op ∷ []) ops)
        (emits-Lays (xs ++ op ∷ []) ops (emit e op) (emit-Lays xs e op h))

  pub patch-Lays :
      (xs : List DbmOp) (e : Emitter) (address target : ℕ)
      → Lays s xs e
      → Lays s (set_target xs address target) (patch e address target)
  unfolding patch set_at
  patch-Lays xs e address target h = record {
    pc_is = h.pc_is ∙ sym (length-set_target xs address target);
    end_is = h.end_is ∙ sym (length-set_target xs address target);
    fits = omega (arith, h.fits, length-set_target xs address target);
    ops_are = λ i x at. elim (get_elem?-set_target xs address target i x at) [
      | inl (here, (y, old, is)) ↦ ground (arith, here, is, h.ops_are i y old)
      | inr (other, old) ↦ ground (arith, other, h.ops_are i x old)
    ];
    machine = then-SameMachine s e.stmt _ h.machine (record {
      pager = refl;
      pc = refl;
      reg = refl;
      n_reg = refl;
      cursors = refl;
      n_cursors = refl;
    });
  }

  pub patch_all-Lays :
      (xs : List DbmOp) (e : Emitter) (addresses : List ℕ) (target : ℕ)
      → Lays s xs e
      → Lays s (set_targets xs addresses target) (patch_all e addresses target)
  unfolding patch_all
  patch_all-Lays xs e [] target h = h
  patch_all-Lays xs e (address ∷ rest) target h =
      patch_all-Lays (set_target xs address target) (patch e address target) rest target
        (patch-Lays xs e address target h)

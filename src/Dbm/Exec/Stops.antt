-- ===== src/Dbm/Exec/Stops.antt =====
-- src/libchidb/dbm.c: a program that only jumps forward ends.
use chidb.Prelude.{
  ℕ, zero, suc, ◌+◌, ◌-◌, ◌≤◌, ◌<◌, ◌≡◌, ◌≢◌, ◌⊎◌, refl, sym, subst, inl, inr, Option, some, arith,
  ◌==◌, Bool-cases, le-cases,
}
use chidb.Run.{Code, Run, ok, err, fault, out_of_fuel, and_then}
use chidb.Dbm.{Stmt}
use chidb.Dbm.Ops.{op_handle}
use chidb.Dbm.Exec.{exec_loop, finish, ended, exec}
use chidb.Dbm.Exec.Control.{Ends, Controlled}
use chidb.Dbm.Exec.Dispatch.{jump_target, op_handle-Controlled}

-- A jump in the program leads to a later instruction.
abbrev pub IsForward : Stmt → Type 0
IsForward s = (a t : ℕ) → a < s.end_op → jump_target (s.ops a).opcode (s.ops a).p2 ≡ some t → a < t

abbrev pub at_next : Stmt → Stmt
at_next s = record s { pc = s.pc + 1 }

some_inj : (a b : ℕ) → some a ≡ some b → a ≡ b
some_inj a b e = cc

-- The program counter after an instruction of such a program.
pc_grows :
    (s s' : Stmt)
    → IsForward s
    → s.pc < s.end_op
    → Controlled (jump_target (s.ops s.pc).opcode (s.ops s.pc).p2) (at_next s) s'
    → s.pc < s'.pc
pc_grows s s' forward inside c = elim c.pc [
  | inl e ↦ omega arith
  | inr (inl e) ↦ forward s.pc s'.pc inside (sym e)
  | inr (inr e) ↦ omega arith
]

-- The states that the loop comes to at the start of a round.
pub data Reaches (depth : ℕ) (s : Stmt) : Stmt → Type 0 where
  here : Reaches depth s s
  later :
      {t u : Stmt}
      → Reaches depth s t
      → t.pc < t.end_op
      → op_handle depth (t.ops t.pc) (at_next t) ≡ ok tt u
      → Reaches depth s u

-- In some state an instruction finds a B-tree that is deeper than `depth`.
pub record MeetsDepth (depth : ℕ) (s : Stmt) : Type 0 where
  pub state : Stmt
  pub reached : Reaches depth s state
  pub inside : state.pc < state.end_op
  pub too_deep : op_handle depth (state.ops state.pc) (at_next state) ≡ out_of_fuel

IsForward-after :
    (target : Option ℕ) (s s' : Stmt)
    → IsForward s
    → Controlled target (at_next s) s'
    → IsForward s'
IsForward-after target s s' forward c a t inside =
    rw (c.ops) (forward a t (subst (λ n. a < n) c.end_op inside))

pub loop-done :
    (depth fuel : ℕ) (s : Stmt) → s.end_op ≤ s.pc → exec_loop depth (suc fuel) s ≡ ok tt s
unfolding exec_loop
loop-done depth fuel s h = ground arith

pub loop-round :
    (depth fuel : ℕ) (s : Stmt)
    → s.pc < s.end_op
    → exec_loop depth (suc fuel) s
      ≡ and_then (op_handle depth (s.ops s.pc) (at_next s)) (λ u s'. exec_loop depth fuel s')
unfolding exec_loop
loop-round depth fuel s h = ground arith

done-ne : {s : Stmt} (r : Run Stmt (Unit {0})) → r ≡ ok tt s → r ≢ out_of_fuel
done-ne r e h = cc

finish-ne : (c : Code) (s : Stmt) → finish c s ≢ out_of_fuel
unfolding finish
finish-ne c s h = elim (Bool-cases (s.n_rr == s.n_cols)) [
  | inl e ↦ cc (rw e at h)
  | inr e ↦ cc (rw e at h)
]

ended-ne : (r : Run Stmt (Unit {0})) → r ≢ out_of_fuel → ended r ≢ out_of_fuel
unfolding ended
ended-ne (ok u s) h = finish-ne Code.done s
ended-ne (err c s) h = finish-ne c s
ended-ne fault h = λ e. cc
ended-ne out_of_fuel h = h

exec-ne :
    (depth fuel : ℕ) (s : Stmt)
    → exec_loop depth fuel s ≢ out_of_fuel
    → exec depth fuel s ≢ out_of_fuel
unfolding exec
exec-ne depth fuel s = ended-ne (exec_loop depth fuel s)

module _ (depth : ℕ) (start : Stmt) where
  abbrev StopsOrMeets : Run Stmt (Unit {0}) → Type 0
  StopsOrMeets r = (r ≢ out_of_fuel) ⊎ MeetsDepth depth start

  -- The round of the loop, by the outcome of the instruction.
  round-stops :
      (fuel : ℕ) (s : Stmt) (r : Run Stmt (Unit {0}))
      → Reaches depth start s
      → s.pc < s.end_op
      → op_handle depth (s.ops s.pc) (at_next s) ≡ r
      → ((u : Stmt) → r ≡ ok tt u → StopsOrMeets (exec_loop depth fuel u))
      → StopsOrMeets (and_then r (λ u s'. exec_loop depth fuel s'))
  round-stops fuel s (ok u t) reach inside e rest = rest t refl
  round-stops fuel s (err c t) reach inside e rest = inl (λ h. cc)
  round-stops fuel s fault reach inside e rest = inl (λ h. cc)
  round-stops fuel s out_of_fuel reach inside e rest =
      inr (record { state = s; reached = reach; inside = inside; too_deep = e })

  loop-stops :
      (fuel : ℕ) (s : Stmt)
      → Reaches depth start s
      → IsForward s
      → s.end_op - s.pc < fuel
      → StopsOrMeets (exec_loop depth fuel s)
  loop-stops zero s reach forward enough = absurd (omega arith)
  loop-stops (suc fuel) s reach forward enough = elim (le-cases s.end_op s.pc) [
    | inl done ↦ inl (λ h. done-ne (exec_loop depth (suc fuel) s) (loop-done depth fuel s done) h)
    | inr inside ↦ rw (loop-round depth fuel s inside) (
        round-stops fuel s (op_handle depth (s.ops s.pc) (at_next s)) reach inside refl λ u e.
          loop-stops fuel u (later reach inside e)
            (IsForward-after (jump_target (s.ops s.pc).opcode (s.ops s.pc).p2) s u forward
              (after u e))
            (omega (arith, pc_grows s u forward inside (after u e), (after u e).end_op)))
  ]
    where
      after :
          (u : Stmt)
          → op_handle depth (s.ops s.pc) (at_next s) ≡ ok tt u
          → Controlled (jump_target (s.ops s.pc).opcode (s.ops s.pc).p2) (at_next s) u
      after u e =
          subst (Ends (Controlled (jump_target (s.ops s.pc).opcode (s.ops s.pc).p2) (at_next s))) e
            (op_handle-Controlled depth (s.ops s.pc) (at_next s))

-- `chidb_stmt_exec` on a program whose jumps all lead forward ends, with fuel for one round more than there are
-- instructions to the end, unless it comes to an instruction that meets a B-tree deeper than `depth`.
pub exec_stops :
    (depth fuel : ℕ) (s : Stmt)
    → IsForward s
    → s.end_op - s.pc < fuel
    → (exec depth fuel s ≢ out_of_fuel) ⊎ MeetsDepth depth s
exec_stops depth fuel s forward enough = elim (loop-stops depth s fuel s here forward enough) [
  | inl h ↦ inl (exec-ne depth fuel s h)
  | inr m ↦ inr m
]

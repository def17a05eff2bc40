-- ===== src/Simulation/Slot.antt =====
-- os.c: one round of `cpu_routine` with the instructions that it runs is, for the scheduler, the
-- program counters and the variables of the processor, the slot of Processor.
use os_assignment.Base.{
  ℕ, ◌≡◌, refl, ap, sym, subst, ◌∙◌, Bool, true, false, ltb, Option, none, some, ◌==◌, inl, inr,
  if◌then◌else◌, update, Bool-cases, if_eq_true, if_eq_false,
}
use os_assignment.Queue.{null}
use os_assignment.Sched.{Sched, put_mlq_proc}
use os_assignment.Processor.{Cpu, System, Setup, get_proc, recheck, fetch, cpu_slot}
use os_assignment.Processor.Slots.{slice_over}
use os_assignment.Processor
use os_assignment.Instruction.{CodeSeg, State, run}
use os_assignment.Instruction.Steps.{run_pc}
use os_assignment.Simulation.{
  Shared, setup_of, state_of, with_state, run_proc, next_proc, after_run, put_back, recheck_proc,
  fetch_proc, free_proc, cpu_routine,
}

-- `s` has these programs and priorities, and these blocks are allocated.
pub record IsSame (p : ℕ → ℕ) (c : ℕ → CodeSeg) (f : ℕ → Bool) (s : Shared) : Type 0 where
  pub prio : s.prio ≡ p
  pub code : s.code ≡ c
  pub allocated : s.allocated ≡ f

-- A result, if there is one, is for the scheduler and the processor what the slot gives.
abbrev Agrees :
    (ℕ → ℕ)
    → (ℕ → CodeSeg)
    → (ℕ → Bool)
    → System × Option Cpu
    → Option (Shared × Option Cpu)
    → Type 0
Agrees prio code f r none = Unit
Agrees prio code f r (some (t, d)) = (r ≡ (t.system, d)) × IsSame prio code f t

abbrev AgreesSlot :
    (ℕ → ℕ)
    → (ℕ → CodeSeg)
    → (ℕ → Bool)
    → Option (System × Option Cpu)
    → Option (Shared × Option Cpu)
    → Type 0
AgreesSlot prio code f o none = Unit
AgreesSlot prio code f o (some (t, d)) = (o ≡ some (t.system, d)) × IsSame prio code f t

Agrees-slot :
    (prio : ℕ → ℕ) (code : ℕ → CodeSeg) (f : ℕ → Bool) (r : System × Option Cpu)
    (o : Option (Shared × Option Cpu))
    → Agrees prio code f r o
    → AgreesSlot prio code f (some r) o
Agrees-slot prio code f r none h = tt
Agrees-slot prio code f r (some (t, d)) h = (ap some h.0, h.1)

-- Two tests of the same condition.
if_both :
    {A B : Type 0} (P : A → B → Type 0) (b : Bool) {x y : A} {v w : B}
    → (b ≡ true → P x v)
    → (b ≡ false → P y w)
    → P (if b then x else y) (if b then v else w)
if_both P true h h' = h refl
if_both P false h h' = h' refl

-- `run` of Processor changes only the program counters.
pc_system :
    (u : Setup) (s : System) (proc : ℕ)
    → record s { pc = (Processor.run u s proc).pc } ≡ Processor.run u s proc
unfolding Processor.run
pc_system u s proc = elim (Bool-cases (ltb (s.pc proc) (u.code_size proc))) [
  | inl h ↦ subst (λ (t : System). record s { pc = t.pc } ≡ t) (sym (if_eq_true _ _ h)) refl
  | inr h ↦ subst (λ (t : System). record s { pc = t.pc } ≡ t) (sym (if_eq_false _ _ h)) refl
]

ran-Agrees :
    (time_slot junk : ℕ) (s : Shared) (proc time_left : ℕ) (o : Option (ℕ × State))
    → run junk (s.code proc) (state_of s) proc ≡ o
    → Agrees s.prio s.code s.allocated
        (
          Processor.run (setup_of time_slot s) s.system proc,
          some (record { proc = proc; time_left = time_left }),
        )
        (after_run proc time_left (with_state s o))
ran-Agrees time_slot junk s proc time_left none e = tt
ran-Agrees time_slot junk s proc time_left (some (stat, t)) e =
    let u = setup_of time_slot s in
    let moved = run_pc junk u s.system.sched (s.code proc) (state_of s) t proc stat refl e in
    (
      ap (λ (x : System). (x, some (record { proc = proc; time_left = time_left })))
          (sym (pc_system u s.system proc)
            ∙ ap (λ (pc : ℕ → ℕ). record (s.system) { pc = pc }) (sym moved.0)),
      record { prio = refl; code = refl; allocated = refl },
    )

recheck-Agrees :
    (time_slot junk : ℕ) (done : Bool) (s : Shared) (proc time_left : ℕ)
    → Agrees s.prio s.code s.allocated
        (recheck (setup_of time_slot s) done (s.system, proc) time_left)
        (recheck_proc time_slot junk done (s, proc) time_left)
unfolding recheck recheck_proc run_proc
recheck-Agrees time_slot junk done s proc time_left =
    if_both (Agrees s.prio s.code s.allocated) (proc == null)
      (λ e. (refl, record { prio = refl; code = refl; allocated = refl }))
      (λ e. ran-Agrees time_slot junk s proc _ _ refl)

fetch-Agrees :
    (time_slot junk : ℕ) (done : Bool) (s : Shared) (proc time_left : ℕ)
    → Agrees s.prio s.code s.allocated
        (fetch (setup_of time_slot s) done (s.system, proc) time_left)
        (fetch_proc time_slot junk done (s, proc) time_left)
unfolding fetch fetch_proc
fetch-Agrees time_slot junk done s proc time_left =
    if_both (Agrees s.prio s.code s.allocated) (proc == null)
      (λ e. (refl, record { prio = refl; code = refl; allocated = refl }))
      (λ e. recheck-Agrees time_slot junk done s proc time_left)

put_back-Agrees :
    (time_slot junk : ℕ) (done : Bool) (s : Shared) (o : Option Sched)
    → AgreesSlot s.prio s.code s.allocated
        (slice_over (setup_of time_slot s) done s.system o)
        (put_back time_slot junk done s o)
unfolding next_proc
put_back-Agrees time_slot junk done s none = tt
put_back-Agrees time_slot junk done s (some sched) =
    let t : Shared = record s { system = record (s.system) { sched = sched } } in
    Agrees-slot s.prio s.code s.allocated _ _
      (recheck-Agrees time_slot junk done (next_proc time_slot t).0 (next_proc time_slot t).1 0)

-- Which blocks are allocated after a slot: the process that has come to its end is freed.
abbrev pub left_allocated : Shared → Cpu → ℕ → Bool
left_allocated s c =
    if c.proc == null
    then s.allocated
    else if s.system.pc c.proc == (s.code c.proc).size
    then update s.allocated c.proc false
    else s.allocated

cpu_routine-Agrees :
    (time_slot junk : ℕ) (done : Bool) (s : Shared) (c : Cpu)
    → AgreesSlot s.prio s.code
        (left_allocated s c)
        (cpu_slot (setup_of time_slot s) done s.system c)
        (cpu_routine time_slot junk done s c)
unfolding cpu_slot cpu_routine next_proc
cpu_routine-Agrees time_slot junk done s c =
    let P = AgreesSlot s.prio s.code (left_allocated s c) in
    let at =
      λ (f : ℕ → Bool) (o : Option (System × Option Cpu)) (o' : Option (Shared × Option Cpu))
          (e : left_allocated s c ≡ f) (h : AgreesSlot s.prio s.code f o o').
        subst (λ (g : ℕ → Bool). AgreesSlot s.prio s.code g o o') (sym e) h in
    if_both P (c.proc == null)
      (λ idle.
        let t = next_proc time_slot s in
        at s.allocated _ _ (if_eq_true _ _ idle)
          (Agrees-slot _ _ _ _ _ (fetch-Agrees time_slot junk done t.0 t.1 c.time_left)))
      (λ held.
        if_both P (s.system.pc c.proc == (s.code c.proc).size)
          (λ finished.
            let t = next_proc time_slot (free_proc s c.proc) in
            at (update s.allocated c.proc false) _ _
              (if_eq_false _ _ held ∙ if_eq_true _ _ finished)
              (Agrees-slot _ _ _ _ _ (recheck-Agrees time_slot junk done t.0 t.1 0)))
          (λ unfinished.
            let kept = if_eq_false _ _ held ∙ if_eq_false _ _ unfinished in
            if_both P (c.time_left == 0)
              (λ over.
                at s.allocated _ _ kept (
                  put_back-Agrees time_slot junk done s
                    (put_mlq_proc s.prio s.system.sched c.proc)))
              (λ left.
                at s.allocated _ _ kept (
                  Agrees-slot _ _ _ _ _
                    (recheck-Agrees time_slot junk done s c.proc c.time_left)))))

-- A round of the loop of `cpu_routine`, when it has a result, is for the scheduler, the program
-- counters and the processor the slot of Processor, which does not know the memories; no program
-- or priority changes, and no block is freed but that of a process that has come to its end.
pub cpu_routine-cpu_slot :
    (time_slot junk : ℕ) (done : Bool) (s t : Shared) (c : Cpu) (d : Option Cpu)
    → cpu_routine time_slot junk done s c ≡ some (t, d)
    → (cpu_slot (setup_of time_slot s) done s.system c ≡ some (t.system, d))
      × IsSame s.prio s.code (left_allocated s c) t
cpu_routine-cpu_slot time_slot junk done s t c d ran =
    subst
      (AgreesSlot s.prio s.code (left_allocated s c)
        (cpu_slot (setup_of time_slot s) done s.system c))
      ran (cpu_routine-Agrees time_slot junk done s c)

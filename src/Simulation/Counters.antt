-- ===== src/Simulation/Counters.antt =====
-- The program counters in every run of the simulation.
use os_assignment.Base.{
  ℕ, ◌+◌, ◌≤◌, ◌≡◌, ◌≢◌, ap, sym, subst, ◌∙◌, Bool, true, false, Option, none, some, List, ◌==◌,
  ltb, inl, inr, update, arith, Bool-cases, if_eq_true, if_eq_false,
}
use os_assignment.Queue.{null}
use os_assignment.Sched.{Sched, put_mlq_proc}
use os_assignment.Processor.{Cpu, System, Setup, run, get_proc, recheck, fetch, cpu_slot}
use os_assignment.Processor.Slots.{slice_over}
use os_assignment.Instruction.{CodeSeg}
use os_assignment.Loader.{Pcb}
use os_assignment.Config.{Job}
use os_assignment.Simulation.{Shared, setup_of, with_pcb, cpu_routine}
use os_assignment.Simulation.Slot.{cpu_routine-cpu_slot}
use os_assignment.Simulation.Stops.{if_case}
use os_assignment.Simulation.Begun.{load_job-AtStart}
use os_assignment.Simulation.Loaded.{IsAdded, add_job-IsAdded}
use os_assignment.Simulation.Safe.{left_allocated-cases, simulation_safe}
use os_assignment.Simulation.Threads
use os_assignment.Simulation.Threads.{
  Fixed, World, first_world, Step, time, slot, wait, add, finish, next_slot, wake, detach_event,
  stop, Run, start, then_step,
}

-- The program counter of `p` is not behind the end of its code.
abbrev InCode : Setup → ℕ → System × Option Cpu → Type 0
InCode u p r = r.0.pc p ≤ u.code_size p

abbrev InCodeSome : Setup → ℕ → Option (System × Option Cpu) → Type 0
InCodeSome u p none = Unit
InCodeSome u p (some r) = InCode u p r

run-pc-le :
    (u : Setup) (s : System) (proc p : ℕ)
    → s.pc p ≤ u.code_size p
    → (run u s proc).pc p ≤ u.code_size p
unfolding run
run-pc-le u s proc p h = elim (Bool-cases (ltb (s.pc proc) (u.code_size proc))) [
  | inl l ↦
      subst (λ (t : System). t.pc p ≤ u.code_size p) (sym (if_eq_true _ _ l))
        (elim (Bool-cases (p == proc)) [
          | inl same ↦
              let e : p ≡ proc = ground arith in
              subst (λ (k : ℕ). k ≤ u.code_size p) (sym (if_eq_true _ _ same))
                (subst (λ (q : ℕ). s.pc proc + 1 ≤ u.code_size q) (sym e) (ground arith))
          | inr other ↦ subst (λ (k : ℕ). k ≤ u.code_size p) (sym (if_eq_false _ _ other)) h
        ])
  | inr l ↦ subst (λ (t : System). t.pc p ≤ u.code_size p) (sym (if_eq_false _ _ l)) h
]

recheck-InCode :
    (u : Setup) (done : Bool) (r : System × ℕ) (time_left p : ℕ)
    → r.0.pc p ≤ u.code_size p
    → InCode u p (recheck u done r time_left)
unfolding recheck
recheck-InCode u done (s, proc) time_left p h =
    if_case (InCode u p) (proc == null) (λ e. h) (λ e. run-pc-le u s proc p h)

fetch-InCode :
    (u : Setup) (done : Bool) (r : System × ℕ) (time_left p : ℕ)
    → r.0.pc p ≤ u.code_size p
    → InCode u p (fetch u done r time_left)
unfolding fetch
fetch-InCode u done (s, proc) time_left p h =
    if_case (InCode u p) (proc == null) (λ e. h)
      (λ e. recheck-InCode u done (s, proc) time_left p h)

put-InCode :
    (u : Setup) (done : Bool) (s : System) (p : ℕ) (o : Option Sched)
    → s.pc p ≤ u.code_size p
    → InCodeSome u p (slice_over u done s o)
unfolding get_proc
put-InCode u done s p none h = tt
put-InCode u done s p (some sched) h =
    let t : System = record s { sched = sched } in recheck-InCode u done (get_proc u t) 0 p h

cpu_slot-InCode :
    (u : Setup) (done : Bool) (s : System) (c : Cpu) (p : ℕ)
    → s.pc p ≤ u.code_size p
    → InCodeSome u p (cpu_slot u done s c)
unfolding cpu_slot get_proc
cpu_slot-InCode u done s c p h =
    let P = InCodeSome u p in
    if_case P (c.proc == null) (λ e. fetch-InCode u done (get_proc u s) c.time_left p h)
      (λ e.
        if_case P (s.pc c.proc == u.code_size c.proc)
          (λ e. recheck-InCode u done (get_proc u s) 0 p h)
          (λ e.
            if_case P (c.time_left == 0)
              (λ e. put-InCode u done s p (put_mlq_proc u.prio s.sched c.proc) h)
              (λ e. recheck-InCode u done (s, c.proc) c.time_left p h)))

-- No allocated process is behind the end of its code.
abbrev pub IsCounted : Shared → Type 0
IsCounted s = (p : ℕ) → s.allocated p ≡ true → s.system.pc p ≤ (s.code p).size

slot-IsCounted :
    (time_slot junk : ℕ) (done : Bool) (s t : Shared) (c : Cpu) (d : Option Cpu)
    → cpu_routine time_slot junk done s c ≡ some (t, d)
    → IsCounted s
    → IsCounted t
slot-IsCounted time_slot junk done s t c d ran h p there =
    let (on, same) = cpu_routine-cpu_slot time_slot junk done s t c d ran in
    let u = setup_of time_slot s in
    let before : s.system.pc p ≤ (s.code p).size = elim (left_allocated-cases s c p) [
      | inl e ↦ h p (sym e ∙ sym (ap (λ (f : ℕ → Bool). f p) same.allocated) ∙ there)
      | inr (e, held, finished) ↦
          subst (λ (q : ℕ). s.system.pc q ≤ (s.code q).size) (sym e) (omega (arith, finished))
    ] in
    subst (λ (f : ℕ → CodeSeg). t.system.pc p ≤ (f p).size) (sym same.code)
      (subst (InCodeSome u p) on (cpu_slot-InCode u done s.system c p before))

load-IsCounted :
    (s : Shared) (proc : ℕ) (job : Job) (pcb : Pcb) (next : ℕ)
    → pcb.pc ≡ 0
    → IsCounted s
    → IsCounted (with_pcb s proc job pcb next)
load-IsCounted s proc job pcb next first h p there = elim (Bool-cases (p == proc)) [
  | inl same ↦
      let counter = if_eq_true pcb.pc (s.system.pc p) same in omega (arith, counter ∙ first)
  | inr other ↦
      subst (λ (k : ℕ). k ≤ (update s.code proc pcb.code p).size)
        (sym (if_eq_false pcb.pc (s.system.pc p) other))
        (subst (λ (code : CodeSeg). s.system.pc p ≤ code.size)
          (sym (if_eq_false pcb.code (s.code p) other))
          (h p (sym (if_eq_false true (s.allocated p) other) ∙ there)))
]

add-IsCounted : (s t : Shared) (proc : ℕ) → IsAdded s proc t → IsCounted s → IsCounted t
add-IsCounted s t proc added h p there =
    subst (λ (f : ℕ → CodeSeg). t.system.pc p ≤ (f p).size) (sym added.same.code)
      (subst (λ (f : ℕ → ℕ). f p ≤ (s.code p).size) (sym added.pc)
        (h p (sym (ap (λ (f : ℕ → Bool). f p) added.same.allocated) ∙ there)))

Step-IsCounted : (x : Fixed) {w z : World} → IsCounted w.shared → Step x w z → IsCounted z.shared
Step-IsCounted x h (time step) = h
Step-IsCounted x {w} h (slot i junk c (s, d) l at running ran) =
    slot-IsCounted x.time_slot junk w.done w.shared s c d ran h
Step-IsCounted x {w} h (Threads.load proc junk job rest s at js e ne is_free ran) =
    let (pcb, next, same, first) = load_job-AtStart x.files junk w.shared s proc job ran in
    subst IsCounted same (load-IsCounted w.shared proc job pcb next first h)
Step-IsCounted x h (wait proc job rest at js e early) = h
Step-IsCounted x {w} h (add proc junk left job rest s at js e due ran) =
    add-IsCounted w.shared s proc (add_job-IsAdded junk left w.shared s proc ran) h
Step-IsCounted x h (finish at js) = h
Step-IsCounted x h (next_slot i l at over) = h
Step-IsCounted x h (wake i l e over) = h
Step-IsCounted x h (detach_event i l at over) = h
Step-IsCounted x h (stop all) = h

Run-IsCounted : (x : Fixed) {v w : World} → IsCounted v.shared → Run x v w → IsCounted w.shared
Run-IsCounted x h start = h
Run-IsCounted x h (then_step run step) = Step-IsCounted x (Run-IsCounted x h run) step

true-false : true ≡ false → ⊥
true-false e = cc

-- In every run of the whole simulation from a start at which no process is allocated: no process
-- that is not freed is behind the end of its code, and neither is one on a processor. So the
-- test for the end in `cpu_routine`, which is an equality, does not miss it.
pub simulation_counters :
    (x : Fixed) (s : Shared) (jobs : List Job) (w : World)
    → ((p : ℕ) → s.allocated p ≡ false)
    → Run x (first_world x s jobs) w
    → ((p : ℕ) → w.shared.allocated p ≡ true → w.shared.system.pc p ≤ (w.shared.code p).size)
      × ((i : ℕ) (c : Cpu)
          → w.cpus i ≡ some c
          → c.proc ≢ null
          → w.shared.system.pc c.proc ≤ (w.shared.code c.proc).size)
simulation_counters x s jobs w nothing run =
    let counted =
      Run-IsCounted x {v = first_world x s jobs}
        (λ p there. absurd (true-false (sym there ∙ nothing p))) run in
    let (valid, held, freed) = simulation_safe x s jobs w run in
    (
      counted,
      λ i c running ne.
          let (prio, there, unqueued, alone) = held i c running ne in counted c.proc there,
    )

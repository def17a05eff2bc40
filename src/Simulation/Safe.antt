-- ===== src/Simulation/Safe.antt =====
-- Every run of the whole simulation: where the processes are.
use os_assignment.Base.{
  ℕ, ◌≡◌, ◌≢◌, ◌⊎◌, ◌<◌, refl, ap, ap₂, sym, subst, ◌∙◌, Bool, true, false, Option, none, some,
  List, ◌==◌, ◌%◌, ◌^◌, inl, inr, arith, Bool-cases, if_eq_true, if_eq_false,
}
use os_assignment.Queue.{null}
use os_assignment.Sched.{max_prio}
use os_assignment.Sched.Invariant.{IsValid}
use os_assignment.Processor.{Cpu, Setup}
use os_assignment.Processor.Runs.{Machine, IsServing}
use os_assignment.Processor.Places.{queued, holds}
use os_assignment.Instruction.{CodeSeg}
use os_assignment.Boot.Runs.{
  first_machine-IsSound, first_machine-IsAlone, first_machine-holds, first_machine-queued,
}
use os_assignment.Config.{Job}
use os_assignment.Simulation.{Shared, setup_of, with_pcb}
use os_assignment.Simulation.Slot.{IsSame, left_allocated, cpu_routine-cpu_slot}
use os_assignment.Simulation.Blocks.{IsSafe, moved_on, slot-IsSafe}
use os_assignment.Simulation.Arrivals.{renewed-IsSafe, add-IsSafe}
use os_assignment.Simulation.Threads.{
  Fixed, World, first_world, Step, time, slot, load, wait, add, finish, next_slot, wake,
  detach_event, stop, Run, start, then_step,
}
use os_assignment.Simulation.Loaded.{IsAdded, load_job-with_pcb, add_job-IsAdded}

abbrev machine_of : World → Machine
machine_of w = record { system = w.shared.system; cpus = w.cpus }

-- `IsSafe` of Blocks, for what the threads share.
abbrev pub IsSafeWorld : Fixed → World → Type 0
IsSafeWorld x w = IsSafe (setup_of x.time_slot w.shared) (machine_of w) w.shared.allocated w.loading

setup-same :
    (time_slot : ℕ) (s t : Shared) (f : ℕ → Bool)
    → IsSame s.prio s.code f t
    → setup_of time_slot s ≡ setup_of time_slot t
setup-same time_slot s t f same =
    ap₂
      (λ (prio : ℕ → ℕ) (code : ℕ → CodeSeg). record {
        prio = prio;
        code_size = λ p. (code p).size;
        time_slot = time_slot;
      })
      (sym same.prio) (sym same.code)

-- `IsSafe` for what `add_job` leaves.
IsAdded-IsSafe :
    (time_slot : ℕ) (s t : Shared) (cpus : ℕ → Option Cpu) (proc : ℕ)
    → IsAdded s proc t
    → IsSafe
        (setup_of time_slot s)
        (record { system = record (s.system) { sched = t.system.sched }; cpus = cpus })
        s.allocated
        none
    → IsSafe (setup_of time_slot t) (record { system = t.system; cpus = cpus }) t.allocated none
IsAdded-IsSafe time_slot s t cpus proc added safe =
    let m : (ℕ → ℕ) → Machine =
      λ pc. record { system = record { sched = t.system.sched; pc = pc }; cpus = cpus } in
    subst (λ (u : Setup). IsSafe u (record { system = t.system; cpus = cpus }) t.allocated none)
      (setup-same time_slot s t _ added.same)
      (subst (λ (f : ℕ → Bool). IsSafe (setup_of time_slot s) (m t.system.pc) f none)
        (sym added.same.allocated)
        (subst (λ (pc : ℕ → ℕ). IsSafe (setup_of time_slot s) (m pc) s.allocated none)
          (sym added.pc) safe))

pub left_allocated-cases :
    (s : Shared) (c : Cpu) (p : ℕ)
    → (left_allocated s c p ≡ s.allocated p)
      ⊎ ((p ≡ c.proc) × (c.proc ≢ null) × (s.system.pc c.proc ≡ (s.code c.proc).size))
left_allocated-cases s c p = elim (Bool-cases (c.proc == null)) [
  | inl idle ↦ inl (ap (λ (f : ℕ → Bool). f p) (if_eq_true _ _ idle))
  | inr held ↦ elim (Bool-cases (s.system.pc c.proc == (s.code c.proc).size)) [
    | inr unfinished ↦
        inl (ap (λ (f : ℕ → Bool). f p) (if_eq_false _ _ held ∙ if_eq_false _ _ unfinished))
    | inl finished ↦ elim (Bool-cases (p == c.proc)) [
      | inl same ↦ inr (ground arith, ground arith, ground arith)
      | inr other ↦ inl (
          ap (λ (f : ℕ → Bool). f p) (if_eq_false _ _ held ∙ if_eq_true _ _ finished)
          ∙ if_eq_false _ _ other)
    ]
  ]
]

Step-IsSafe : (x : Fixed) {w z : World} → IsSafeWorld x w → Step x w z → IsSafeWorld x z
Step-IsSafe x safe (time t) = safe
Step-IsSafe x {w} safe (slot i junk c (s, d) l h running ran) =
    let (on, same) = cpu_routine-cpu_slot x.time_slot junk w.done w.shared s c d ran in
    subst (λ (u : Setup). IsSafe u (moved_on (machine_of w) i (s.system, d)) s.allocated w.loading)
      (setup-same x.time_slot w.shared s _ same)
      (slot-IsSafe (setup_of x.time_slot w.shared) (machine_of w) i w.done c (s.system, d) running
        on w.shared.allocated s.allocated w.loading safe
        (λ p.
          subst
            (λ (f : ℕ → Bool).
              (f p ≡ w.shared.allocated p)
              ⊎ ((p ≡ c.proc)
                  × (c.proc ≢ null)
                  × (w.shared.system.pc c.proc ≡ (w.shared.code c.proc).size)))
            (sym same.allocated) (left_allocated-cases w.shared c p)))
Step-IsSafe x {w} safe (load proc junk job rest s h js e ne is_free ran) =
    let (pcb, avail_pid, same) = load_job-with_pcb x.files junk w.shared s proc job ran in
    let got = with_pcb w.shared proc job pcb avail_pid in
    subst (λ (t : Shared). IsSafeWorld x (record w { shared = t; loading = some proc })) same
      (renewed-IsSafe (setup_of x.time_slot w.shared) (setup_of x.time_slot got) (machine_of w)
        got.system.pc w.shared.allocated proc (job.prio % 2 ^ 32) refl
        (subst (IsSafe (setup_of x.time_slot w.shared) (machine_of w) w.shared.allocated) e safe) ne
        is_free)
Step-IsSafe x safe (wait proc job rest h js e early) = safe
Step-IsSafe x {w} safe (add proc junk left job rest s h js e due ran) =
    let added = add_job-IsAdded junk left w.shared s proc ran in
    let u = setup_of x.time_slot w.shared in
    let m = machine_of w in
    IsAdded-IsSafe x.time_slot w.shared s w.cpus proc added (
      add-IsSafe u m w.shared.allocated proc s.system.sched
        (subst (IsSafe u m w.shared.allocated) e safe) added.sched)
Step-IsSafe x safe (finish h js) = safe
Step-IsSafe x safe (next_slot i l h over) = safe
Step-IsSafe x safe (wake i l h over) = safe
Step-IsSafe x safe (detach_event i l h over) = safe
Step-IsSafe x safe (stop all) = safe

Run-IsSafe : (x : Fixed) {v w : World} → IsSafeWorld x v → Run x v w → IsSafeWorld x w
Run-IsSafe x safe start = safe
Run-IsSafe x safe (then_step run step) = Step-IsSafe x (Run-IsSafe x safe run) step

first_world-IsSafe :
    (x : Fixed) (s : Shared) (jobs : List Job) → IsSafeWorld x (first_world x s jobs)
first_world-IsSafe x s jobs =
    let u = setup_of x.time_slot s in
    let sched = s.system.sched in
    record {
      sound = first_machine-IsSound u sched s.system.pc x.num_cpus;
      alone = first_machine-IsAlone u sched s.system.pc x.num_cpus;
      freed = λ p h is_free. record {
        unqueued = first_machine-queued u sched s.system.pc x.num_cpus p h;
        unheld = λ i. first_machine-holds sched s.system.pc x.num_cpus i p h.0;
      };
      pending = λ p e. absurd (cc);
    }

-- In every run of the whole simulation from its start, where `malloc` gives `load` a block that is
-- not allocated, and whatever the instructions do to the memories: the scheduler stays valid. A
-- process on a processor has a priority below 140 and has not been freed, is in no queue, and is
-- on no other processor. No freed process is in a queue.
pub simulation_safe :
    (x : Fixed) (s : Shared) (jobs : List Job) (w : World)
    → Run x (first_world x s jobs) w
    → IsValid w.shared.prio w.shared.system.sched
      × ((i : ℕ) (c : Cpu)
          → w.cpus i ≡ some c
          → c.proc ≢ null
          → (w.shared.prio c.proc < max_prio)
            × (w.shared.allocated c.proc ≡ true)
            × (queued w.shared.prio w.shared.system.sched c.proc ≡ 0)
            × ((j : ℕ) (d : Cpu) → j ≢ i → w.cpus j ≡ some d → d.proc ≢ c.proc))
      × ((p : ℕ)
          → p ≢ null
          → w.shared.prio p < max_prio
          → w.shared.allocated p ≡ false
          → queued w.shared.prio w.shared.system.sched p ≡ 0)
unfolding IsServing
simulation_safe x s jobs w run =
    let safe = Run-IsSafe x (first_world-IsSafe x s jobs) run in
    let u = setup_of x.time_slot w.shared in
    (
      safe.sound.valid,
      λ i c running held.
          let l = subst (IsServing u) running (safe.sound.serving i) held in
          let mine : holds (w.cpus i) c.proc ≡ 1 =
            ap (λ (o : Option Cpu). holds o c.proc) running ∙ ground arith in
          (
            l,
            elim (Bool-cases (w.shared.allocated c.proc)) [
              | inl there ↦ there
              | inr is_free ↦
                  absurd (omega (arith, mine, (safe.freed c.proc (held, l) is_free).unheld i))
            ],
            omega (arith, mine, safe.alone.one i c.proc (held, l)),
            λ j d other running' e.
                let his : holds (w.cpus j) c.proc ≡ 1 =
                  ap (λ (o : Option Cpu). holds o c.proc) running' ∙ ground arith in
                omega (arith, mine, his, safe.alone.apart j i c.proc (held, l) other),
          ),
      λ p ne l is_free. (safe.freed p (ne, l) is_free).unqueued,
    )

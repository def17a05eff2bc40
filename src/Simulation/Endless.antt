-- ===== src/Simulation/Endless.antt =====
-- os.c: what becomes of a processor that has no process when the last one has come to its end.
use os_assignment.Base.{
  ℕ, ◌<◌, ◌≡◌, ◌≢◌, ap, sym, subst, ◌∙◌, Bool, true, false, Option, none, some, List, [], ◌∷◌, ◌==◌,
  inl, inr, update, arith, Bool-cases, if_eq_true, if_eq_false,
}
use os_assignment.Queue.{null}
use os_assignment.Sched.{max_prio}
use os_assignment.Sched.Invariant.{IsValid}
use os_assignment.Processor.{Cpu, System, cpu_slot}
use os_assignment.Processor.Slots.{cpu_slot_idle}
use os_assignment.Config.{Job}
use os_assignment.Timer
use os_assignment.Timer.{Device, Place, working, waiting, gone, stopped}
use os_assignment.Timer.Barrier.{timer_ends}
use os_assignment.Simulation.{Shared, setup_of, cpu_routine}
use os_assignment.Simulation.Slot.{cpu_routine-cpu_slot}
use os_assignment.Simulation.Keeping.{Run-Reach, timer_place, timer_keeps_flag}
use os_assignment.Simulation.Threads.{
  Fixed, World, first_world, is_over, has_stopped, Step, time, slot, load, wait, add, finish,
  next_slot, wake, detach_event, stop, Run, start, then_step,
}

-- A processor that holds no process.
abbrev pub HoldsNone : Option Cpu → Type 0
HoldsNone none = Unit
HoldsNone (some c) = c.proc ≡ null

-- All jobs have been added, no process is in a queue or on a processor, and the processor `i` has
-- not left its loop.
pub record IsDrained (x : Fixed) (i : ℕ) (c : Cpu) (w : World) : Type 0 where
  pub valid : IsValid w.shared.prio w.shared.system.sched
  pub levels : (k : ℕ) → k < max_prio → (w.shared.system.sched.mlq_ready_queue k).size ≡ 0
  pub none_held : (j : ℕ) → HoldsNone (w.cpus j)
  pub no_jobs : w.jobs ≡ []
  pub running : w.cpus i ≡ some c
  pub here : (w.timer.device i).place ≢ gone
  pub timer_on : w.timer.timer_stop ≡ false

some-some : {A : Type 0} {a b : A} → some a ≡ some b → a ≡ b
some-some e = cc

cons-nil : {job : Job} {rest : List Job} → job ∷ rest ≡ [] → ⊥
cons-nil e = cc

-- A slot of a processor without a process changes nothing that the scheduler or a processor sees.
drained_slot :
    (x : Fixed) (i junk : ℕ) (c d : Cpu) (w : World) (r : Shared × Option Cpu)
    → IsDrained x i c w
    → d.proc ≡ null
    → cpu_routine x.time_slot junk w.done w.shared d ≡ some r
    → (r.0.system ≡ w.shared.system) × (r.1 ≡ some d) × (r.0.prio ≡ w.shared.prio)
drained_slot x i junk c d w (s, o) drained free ran =
    let (on, same) = cpu_routine-cpu_slot x.time_slot junk w.done w.shared s d o ran in
    let u = setup_of x.time_slot w.shared in
    let idle =
      subst
        (λ (p : ℕ).
          cpu_slot u w.done w.shared.system (record { proc = p; time_left = d.time_left })
          ≡ some (w.shared.system, some (record { proc = p; time_left = d.time_left })))
        (sym free)
        (cpu_slot_idle u w.done w.shared.system d.time_left drained.valid drained.levels) in
    let both = some-some (sym on ∙ idle) in
    (
      ap (λ (t : System × Option Cpu). t.0) both,
      ap (λ (t : System × Option Cpu). t.1) both,
      same.prio,
    )

slot-IsDrained :
    (x : Fixed) (i j : ℕ) (c d : Cpu) (w : World) (r : Shared × Option Cpu) (acted : ℕ → Bool)
    → IsDrained x i c w
    → w.cpus j ≡ some d
    → d.proc ≡ null
    → r.0.system ≡ w.shared.system
    → r.1 ≡ some d
    → r.0.prio ≡ w.shared.prio
    → IsDrained x i c (record w { shared = r.0; cpus = update w.cpus j r.1; acted = acted })
slot-IsDrained x i j c d w r acted drained at free system cpu prio = record {
  valid =
      subst (λ (t : System). IsValid r.0.prio t.sched) (sym system)
        (subst (λ (f : ℕ → ℕ). IsValid f w.shared.system.sched) (sym prio) drained.valid);
  levels = λ k l. ap (λ (t : System). (t.sched.mlq_ready_queue k).size) system ∙ drained.levels k l;
  none_held = λ k. elim (Bool-cases (k == j)) [
    | inl same ↦ subst HoldsNone (sym (if_eq_true _ _ same ∙ cpu)) free
    | inr other ↦ subst HoldsNone (sym (if_eq_false _ _ other)) (drained.none_held k)
  ];
  no_jobs = drained.no_jobs;
  running = elim (Bool-cases (i == j)) [
    | inl same ↦
        let j_is_i : j ≡ i = ground arith in
        if_eq_true _ _ same ∙ cpu ∙ sym at ∙ ap w.cpus j_is_i ∙ drained.running
    | inr other ↦ if_eq_false _ _ other ∙ drained.running
  ];
  here = drained.here;
  timer_on = drained.timer_on;
}

-- A thread calls the timer: the processor `i` does so only to go on.
called-here :
    (w : World) (i j : ℕ) (d : Device)
    → (w.timer.device i).place ≢ gone
    → (i ≡ j → d.place ≢ gone)
    → (update w.timer.device j d i).place ≢ gone
called-here w i j d h here e = elim (Bool-cases (i == j)) [
  | inl same ↦ here (ground arith) (sym (ap (λ (t : Device). t.place) (if_eq_true _ _ same)) ∙ e)
  | inr other ↦ h (sym (ap (λ (t : Device). t.place) (if_eq_false _ _ other)) ∙ e)
]

moved-IsDrained :
    (x : Fixed) (i : ℕ) (c : Cpu) (w : World) (t : Timer.System) (acted : ℕ → Bool) (done : Bool)
    → IsDrained x i c w
    → (t.device i).place ≢ gone
    → t.timer_stop ≡ false
    → IsDrained x i c (record w { timer = t; acted = acted; done = done })
moved-IsDrained x i c w t acted done drained here on = record {
  valid = drained.valid;
  levels = drained.levels;
  none_held = drained.none_held;
  no_jobs = drained.no_jobs;
  running = drained.running;
  here = here;
  timer_on = on;
}

waiting-gone : waiting ≡ gone → ⊥
waiting-gone e = cc

working-gone : working ≡ gone → ⊥
working-gone e = cc

true-false : true ≡ false → ⊥
true-false e = cc

Step-IsDrained :
    (x : Fixed) (i : ℕ) (c : Cpu) {w z : World}
    → i < x.num_cpus
    → IsDrained x i c w
    → Step x w z
    → IsDrained x i c z
Step-IsDrained x i c {w} l drained (time {t} step) =
    moved-IsDrained x i c w t w.acted w.done drained
      (λ e. drained.here (sym (timer_place i step).0 ∙ e))
      (timer_keeps_flag step ∙ drained.timer_on)
Step-IsDrained x i c {w} l drained (slot j junk d r l' h at ran) =
    let free = subst HoldsNone at (drained.none_held j) in
    let (system, cpu, prio) = drained_slot x i junk c d w r drained free ran in
    slot-IsDrained x i j c d w r (update w.acted j true) drained at free system cpu prio
Step-IsDrained x i c l drained (load proc junk job rest s h js e ne is_free ran) =
    absurd (cons-nil (sym js ∙ drained.no_jobs))
Step-IsDrained x i c l drained (wait proc job rest h js e soon) =
    absurd (cons-nil (sym js ∙ drained.no_jobs))
Step-IsDrained x i c l drained (add proc junk left job rest s h js e late ran) =
    absurd (cons-nil (sym js ∙ drained.no_jobs))
Step-IsDrained x i c {w} l drained (finish h js) =
    moved-IsDrained x i c w w.timer (update w.acted x.num_cpus true) true drained drained.here
      drained.timer_on
Step-IsDrained x i c {w} l drained (next_slot j l' h over) =
    moved-IsDrained x i c w _ (update w.acted j false) w.done drained
      (called-here w i j _ drained.here (λ e. waiting-gone)) drained.timer_on
Step-IsDrained x i c {w} l drained (wake j l' h over) =
    moved-IsDrained x i c w _ (update w.acted j false) w.done drained
      (called-here w i j _ drained.here (λ e. working-gone)) drained.timer_on
Step-IsDrained x i c {w} l drained (detach_event j l' h over) =
    let processor : (i == x.num_cpus) ≡ false = ground arith in
    let goes_on : is_over x w i ≡ false =
      if_eq_false _ _ processor ∙ ap has_stopped drained.running in
    moved-IsDrained x i c w _ (update w.acted j false) w.done drained
      (called-here w i j _ drained.here
        (λ e. absurd (true-false (sym over ∙ subst (λ (k : ℕ). is_over x w k ≡ false) e goes_on))))
      drained.timer_on
Step-IsDrained x i c {w} l drained (stop all_gone) =
    absurd (drained.here (all_gone i (omega (arith, l))))

Run-IsDrained :
    (x : Fixed) (i : ℕ) (c : Cpu) {w z : World}
    → i < x.num_cpus
    → IsDrained x i c w
    → Run x w z
    → IsDrained x i c z
Run-IsDrained x i c l drained start = drained
Run-IsDrained x i c l drained (then_step run step) =
    Step-IsDrained x i c l (Run-IsDrained x i c l drained run) step

Run-trans : {x : Fixed} {u v w : World} → Run x u v → Run x v w → Run x u w
Run-trans before start = before
Run-trans before (then_step run step) = then_step (Run-trans before run) step

-- The simulation does not end: when in a run from its start all jobs have been added, no process is
-- in a queue or on a processor, and a processor is still in its loop, also if the loader is done,
-- then in every continuation of the run that processor is as it is then, no process is in a
-- queue, and the timer goes on.
pub simulation_never_ends :
    (x : Fixed) (s : Shared) (jobs : List Job) (w z : World) (i : ℕ) (c : Cpu)
    → Run x (first_world x s jobs) w
    → i < x.num_cpus
    → IsDrained x i c w
    → Run x w z
    → (z.cpus i ≡ some c)
      × ((k : ℕ) → k < max_prio → (z.shared.system.sched.mlq_ready_queue k).size ≡ 0)
      × (z.timer.phase ≢ stopped)
simulation_never_ends x s jobs w z i c before l drained run =
    let after = Run-IsDrained x i c l drained run in
    (
      after.running,
      after.levels,
      λ e. elim (timer_ends (Run-Reach x s jobs (Run-trans before run)) e) [
        | inl on ↦ true-false (sym on ∙ after.timer_on)
        | inr all_gone ↦ after.here (all_gone i (omega (arith, l)))
      ],
    )

-- ===== src/Simulation/Order.antt =====
-- When the loader brings in which process.
use os_assignment.Base.{
  ℕ, ◌+◌, ◌%◌, ◌^◌, ◌≤◌, ◌<◌, ◌≡◌, ◌≢◌, refl, ap, ap₂, sym, subst, ◌∙◌, true, false, Option, none,
  some, List, [], ◌∷◌, ◌==◌, ltb, inl, inr, arith, Bool-cases, if_eq_true, if_eq_false,
}
use os_assignment.Processor.{Cpu}
use os_assignment.Config.{Job}
use os_assignment.Timer.{Place, working, gone}
use os_assignment.Simulation.{Shared}
use os_assignment.Simulation.Threads.{
  Fixed, Arrival, World, first_world, IsTurn, Step, time, slot, load, wait, add, finish, next_slot,
  wake, detach_event, stop, Run, start, then_step,
}
use os_assignment.Simulation.Keeping.{Run-Reach, timer_place, at_work_slots}
use os_assignment.Timer.Barrier.{lockstep}
use os_assignment.Simulation.Stops.{cpu_routine-stops}
use os_assignment.Simulation.Turns.{
  onto, next_free, IsPrompt, IsEarly, IsTimed, turn, turn-at, turn-passed, turn-waiting, turn_at,
  turn_of, IsOrdered, same_turn, just_due, acted_other, acted_here, called-turn,
}

early : (t k m : ℕ) → m ≡ k → ltb (k % 2 ^ 64) t ≡ true → m % 2 ^ 64 < t
early t k m e h = ground (arith, e, h)

due : (t k m : ℕ) → m ≡ k → ltb (k % 2 ^ 64) t ≡ false → t ≤ m % 2 ^ 64
due t k m e h = ground (arith, e, h)

some-none : {A : Type 0} {a : A} → some a ≡ none → ⊥
some-none e = cc

cons-nil : {job : Job} {rest : List Job} → job ∷ rest ≡ [] → ⊥
cons-nil e = cc

-- The loader passes its slot without an arrival.
idle-IsOrdered :
    (x : Fixed) (all : List Job) (w z : World)
    → IsOrdered x all w
    → IsTurn w x.num_cpus false
    → IsEarly w.jobs (w.timer.device x.num_cpus).slots
    → z.arrivals ≡ w.arrivals
    → z.jobs ≡ w.jobs
    → (z.done ≡ true → z.jobs ≡ [])
    → turn_of x z ≡ (w.timer.device x.num_cpus).slots + 1
    → IsOrdered x all z
idle-IsOrdered x all w z o h soon a j ended t =
    let now = turn-at _ _ (w.timer.device x.num_cpus).slots h.at_work h.step in
    record {
      prompt = subst IsPrompt (sym a) o.prompt;
      timed = (
        omega (arith, o.timed.0, now, t, ap next_free a),
        inr (
          (w.timer.device x.num_cpus).slots,
          t,
          subst (λ (js : List Job). IsEarly js (w.timer.device x.num_cpus).slots) (sym j) soon,
        ),
      );
      order = ap₂ onto a j ∙ o.order;
      ended = ended;
    }

-- The arrival of a process at the slot `n`, at which the loader has looked at the time.
arrival-IsPrompt :
    (before : List Arrival) (job : Job) (rest : List Job) (p n : ℕ)
    → IsPrompt before
    → IsTimed before (job ∷ rest) n
    → job.start_time ≤ n % 2 ^ 64
    → IsPrompt (record { proc = p; job = job; at = n } ∷ before)
arrival-IsPrompt before job rest p n prompt (l, inl behind) h = (l, inr (behind, h), prompt)
arrival-IsPrompt before job rest p n prompt (l, inr (m, e, soon)) h =
    (l, inl (just_due m n job.start_time e soon h), prompt)

Step-IsOrdered :
    (x : Fixed) (all : List Job) {w z : World}
    → (IsTurn w x.num_cpus false → (w.timer.device x.num_cpus).slots ≡ w.timer.ticks)
    → IsOrdered x all w
    → Step x w z
    → IsOrdered x all z
Step-IsOrdered x all {w} {z} now o (time t) =
    let (place, slots) = timer_place x.num_cpus t in
    same_turn x all w z o refl refl refl
      (ap₂ (λ (p : Place) (k : ℕ). turn p (w.acted x.num_cpus) k) place slots)
Step-IsOrdered x all {w} {z} now o (slot i junk c r l h running ran) =
    same_turn x all w z o refl refl refl (
      ap (turn_at (w.timer.device x.num_cpus))
        (acted_other w.acted i x.num_cpus true (λ e. omega (arith, e, l))))
Step-IsOrdered x all {w} {z} now o (load proc junk job rest s h js e ne is_free ran) =
    same_turn x all w z o refl refl refl refl
Step-IsOrdered x all {w} {z} now o (wait proc job rest h js e soon) =
    let n = (w.timer.device x.num_cpus).slots in
    idle-IsOrdered x all w z o h
      (subst (λ (jobs : List Job). IsEarly jobs n) (sym js)
        (early job.start_time w.timer.ticks n (now h) soon))
      refl refl o.ended (turn-passed _ _ n h.at_work (acted_here w.acted x.num_cpus true))
Step-IsOrdered x all {w} {z} now o (add proc junk left job rest s h js e late ran) =
    let n = (w.timer.device x.num_cpus).slots in
    let timed : IsTimed w.arrivals (job ∷ rest) n =
      subst (λ (jobs : List Job). IsTimed w.arrivals jobs n) js
        (subst (IsTimed w.arrivals w.jobs) (turn-at _ _ n h.at_work h.step) o.timed) in
    let at_slot = turn-passed _ _ n h.at_work (acted_here w.acted x.num_cpus true) in
    record {
      prompt =
          subst (λ (k : ℕ). IsPrompt (record { proc = proc; job = job; at = k } ∷ w.arrivals))
            (now h)
            (arrival-IsPrompt w.arrivals job rest proc n o.prompt timed
              (due job.start_time w.timer.ticks n (now h) late));
      timed = (omega (arith, now h, at_slot), inl (omega (arith, now h, at_slot)));
      order = ap (onto w.arrivals) (sym js) ∙ o.order;
      ended = λ e. absurd (cons-nil (sym js ∙ o.ended e));
    }
Step-IsOrdered x all {w} {z} now o (finish h js) =
    let n = (w.timer.device x.num_cpus).slots in
    idle-IsOrdered x all w z o h (subst (λ (jobs : List Job). IsEarly jobs n) (sym js) tt) refl refl
      (λ e. js) (turn-passed _ _ n h.at_work (acted_here w.acted x.num_cpus true))
Step-IsOrdered x all {w} {z} now o (next_slot i l h over) =
    same_turn x all w z o refl refl refl
      (called-turn x w i _ (sym (turn-passed _ _ _ h.at_work h.step)))
Step-IsOrdered x all {w} {z} now o (wake i l h over) =
    same_turn x all w z o refl refl refl (called-turn x w i _ (sym (turn-waiting _ _ _ h)))
Step-IsOrdered x all {w} {z} now o (detach_event i l h over) =
    same_turn x all w z o refl refl refl
      (called-turn x w i _ (sym (turn-passed _ _ _ h.at_work h.step)))
Step-IsOrdered x all {w} {z} now o (stop all_gone) = same_turn x all w z o refl refl refl refl

Run-IsOrdered :
    (x : Fixed) (s : Shared) (jobs : List Job) {w : World}
    → Run x (first_world x s jobs) w
    → IsOrdered x jobs w
Run-IsOrdered x s jobs start = record {
  prompt = tt;
  timed = (omega arith, inl refl);
  order = refl;
  ended = λ e. absurd (cc);
}
Run-IsOrdered x s jobs (then_step run step) =
    Step-IsOrdered x jobs (λ h. at_work_slots x s jobs x.num_cpus run (omega arith) h.at_work)
      (Run-IsOrdered x s jobs run) step

-- A processor stops only when the loader is done.
Run-stopped :
    (x : Fixed) (s : Shared) (jobs : List Job) {w : World}
    → Run x (first_world x s jobs) w
    → (i : ℕ) → i < x.num_cpus
    → w.cpus i ≡ none
    → w.done ≡ true
Run-stopped x s jobs start i l e =
    let there : ltb i x.num_cpus ≡ true = ground arith in
    absurd (some-none (sym (if_eq_true _ _ there) ∙ e))
Run-stopped x s jobs (then_step run (time t)) i l e = Run-stopped x s jobs run i l e
Run-stopped x s jobs (then_step {w} run (slot j junk c (t, d) l' h running ran)) i l e =
    elim (Bool-cases (i == j)) [
      | inl same ↦
          let ended : d ≡ none = sym (if_eq_true _ _ same) ∙ e in
          cpu_routine-stops x.time_slot junk w.done w.shared t c
            (ran ∙ ap (λ (o : Option Cpu). some (t, o)) ended)
      | inr other ↦ Run-stopped x s jobs run i l (sym (if_eq_false _ _ other) ∙ e)
    ]
Run-stopped x s jobs (then_step run (load proc junk job rest t h js q ne is_free ran)) i l e =
    Run-stopped x s jobs run i l e
Run-stopped x s jobs (then_step run (wait proc job rest h js q soon)) i l e =
    Run-stopped x s jobs run i l e
Run-stopped x s jobs (then_step run (add proc junk left job rest t h js q late ran)) i l e =
    Run-stopped x s jobs run i l e
Run-stopped x s jobs (then_step run (finish h js)) i l e = refl
Run-stopped x s jobs (then_step run (next_slot j l' h over)) i l e = Run-stopped x s jobs run i l e
Run-stopped x s jobs (then_step run (wake j l' h over)) i l e = Run-stopped x s jobs run i l e
Run-stopped x s jobs (then_step run (detach_event j l' h over)) i l e =
    Run-stopped x s jobs run i l e
Run-stopped x s jobs (then_step run (stop all_gone)) i l e = Run-stopped x s jobs run i l e

-- In every run of the whole simulation from its start: the processes that the loader has added so
-- far, followed by the jobs that are left, are the jobs of the configuration in order. Each was
-- added in the slot of its start time, or, when that had passed, in the slot right behind the
-- arrival before it, so that no slot has two. No processor stops before all have been added.
pub loads_in_order :
    (x : Fixed) (s : Shared) (jobs : List Job) (w : World)
    → Run x (first_world x s jobs) w
    → (onto w.arrivals w.jobs ≡ jobs)
      × IsPrompt w.arrivals
      × ((i : ℕ) → i < x.num_cpus → w.cpus i ≡ none → w.jobs ≡ [])
loads_in_order x s jobs w run =
    let ordered = Run-IsOrdered x s jobs run in
    (ordered.order, ordered.prompt, λ i l e. ordered.ended (Run-stopped x s jobs run i l e))

-- In every run of the whole simulation from its start, of two threads that have not detached
-- neither is more than one slot ahead of the other, and a thread at work is in the slot that the
-- timer counts.
pub simulation_lockstep :
    (x : Fixed) (s : Shared) (jobs : List Job) (w : World)
    → Run x (first_world x s jobs) w
    → (i j : ℕ) → i < x.num_cpus + 1
    → j < x.num_cpus + 1
    → (w.timer.device i).place ≢ gone
    → (w.timer.device j).place ≢ gone
    → ((w.timer.device i).slots ≤ (w.timer.device j).slots + 1)
      × ((w.timer.device i).place ≡ working → (w.timer.device i).slots ≡ w.timer.ticks)
simulation_lockstep x s jobs w run = lockstep (Run-Reach x s jobs run)

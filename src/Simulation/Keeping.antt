-- ===== src/Simulation/Keeping.antt =====
-- The threads of the simulation and the timer that keeps them in step.
use os_assignment.Base.{ℕ, ◌+◌, ◌<◌, ◌≡◌, ◌≢◌, refl, sym, ◌∙◌, false, List}
use os_assignment.Config.{Job}
use os_assignment.Timer
use os_assignment.Timer.{
  Place, working, waiting, gone, TimerStep, begin, halt, see, tick, let_go, again, finish, Reach,
}
use os_assignment.Timer.Moves.{at_device}
use os_assignment.Timer.Barrier.{lockstep}
use os_assignment.Simulation.{Shared}
use os_assignment.Simulation.Threads
use os_assignment.Simulation.Threads.{Fixed, World, first_world, Step, Run, start, then_step}

Step-Reach :
    (x : Fixed) {w z : World}
    → Reach (x.num_cpus + 1) w.timer
    → Step x w z
    → Reach (x.num_cpus + 1) z.timer
Step-Reach x run (Threads.time t) = Timer.later run (Timer.timer t)
Step-Reach x run (Threads.slot i junk c r l h running ran) = run
Step-Reach x run (Threads.load proc junk job rest s h js e ne is_free ran) = run
Step-Reach x run (Threads.wait proc job rest h js e early) = run
Step-Reach x run (Threads.add proc junk left job rest s h js e due ran) = run
Step-Reach x run (Threads.finish h js) = run
Step-Reach x run (Threads.next_slot i l h over) =
    Timer.later run (Timer.device_step i l (Timer.next_slot h.at_work))
Step-Reach x run (Threads.wake i l h e) = Timer.later run (Timer.device_step i l (Timer.wake h e))
Step-Reach x run (Threads.detach_event i l h over) =
    Timer.later run (Timer.device_step i l (Timer.detach_event h.at_work))
Step-Reach x run (Threads.stop all) = Timer.later run Timer.stop

pub Run-Reach :
    (x : Fixed) (s : Shared) (jobs : List Job) {w : World}
    → Run x (first_world x s jobs) w
    → Reach (x.num_cpus + 1) w.timer
Run-Reach x s jobs start = Timer.start
Run-Reach x s jobs (then_step run step) = Step-Reach x (Run-Reach x s jobs run) step

working-gone : working ≡ gone → ⊥
working-gone e = cc

-- A step of the timer leaves every thread where it is.
pub timer_place :
    {n : ℕ} {s t : Timer.System} (i : ℕ)
    → TimerStep n s t
    → ((t.device i).place ≡ (s.device i).place) × ((t.device i).slots ≡ (s.device i).slots)
timer_place i (begin e h) = (refl, refl)
timer_place i (halt e h) = (refl, refl)
timer_place i (see j fsh e l h) = (refl, refl)
timer_place i (tick j fsh e l) = (refl, refl)
timer_place {s} i (let_go j fsh event e l) =
    at_device (λ k d. (d.place ≡ (s.device k).place) × (d.slots ≡ (s.device k).slots)) s.device j
      (record (s.device j) { done = false }) i (refl, refl) (λ ne. (refl, refl))
timer_place i (again j fsh event e l h) = (refl, refl)
timer_place i (finish j fsh event e l h) = (refl, refl)

-- A thread at work is in the slot that the timer counts.
pub at_work_slots :
    (x : Fixed) (s : Shared) (jobs : List Job) {w : World} (i : ℕ)
    → Run x (first_world x s jobs) w
    → i < x.num_cpus + 1
    → (w.timer.device i).place ≡ working
    → (w.timer.device i).slots ≡ w.timer.ticks
at_work_slots x s jobs {w} i run l e =
    let here : (w.timer.device i).place ≢ gone = λ h. working-gone (sym e ∙ h) in
    (lockstep (Run-Reach x s jobs run) i i l l here here).1 e

-- Only `stop_timer` sets the flag.
pub timer_keeps_flag : {n : ℕ} {s t : Timer.System} → TimerStep n s t → t.timer_stop ≡ s.timer_stop
timer_keeps_flag (begin e h) = refl
timer_keeps_flag (halt e h) = refl
timer_keeps_flag (see j fsh e l h) = refl
timer_keeps_flag (tick j fsh e l) = refl
timer_keeps_flag (let_go j fsh event e l) = refl
timer_keeps_flag (again j fsh event e l h) = refl
timer_keeps_flag (finish j fsh event e l h) = refl

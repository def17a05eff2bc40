-- ===== src/Simulation/Stops.antt =====
-- os.c: when a processor leaves the loop of `cpu_routine`.
use os_assignment.Base.{
  ℕ, ◌≡◌, refl, subst, Bool, true, false, Option, none, some, ◌==◌, if◌then◌else◌,
}
use os_assignment.Queue.{null}
use os_assignment.Sched.{Sched}
use os_assignment.Processor.{Cpu}
use os_assignment.Simulation.{
  Shared, run_proc, after_run, put_back, recheck_proc, fetch_proc, cpu_routine,
}

-- A result in which the processor has stopped.
abbrev StopsWhen : Bool → Option (Shared × Option Cpu) → Type 0
StopsWhen done none = Unit
StopsWhen done (some (t, none)) = done ≡ true
StopsWhen done (some (t, some c)) = Unit

pub if_case :
    {A : Type 0} (P : A → Type 0) (b : Bool) {x y : A}
    → (b ≡ true → P x)
    → (b ≡ false → P y)
    → P (if b then x else y)
if_case P true h h' = h refl
if_case P false h h' = h' refl

ran-StopsWhen :
    (done : Bool) (proc time_left : ℕ) (o : Option Shared)
    → StopsWhen done (after_run proc time_left o)
ran-StopsWhen done proc time_left none = tt
ran-StopsWhen done proc time_left (some s) = tt

recheck-StopsWhen :
    (time_slot junk : ℕ) (done : Bool) (r : Shared × ℕ) (time_left : ℕ)
    → StopsWhen done (recheck_proc time_slot junk done r time_left)
unfolding recheck_proc
recheck-StopsWhen time_slot junk done (s, proc) time_left =
    if_case (StopsWhen done) (proc == null)
      (λ e. if_case (λ (c : Option Cpu). StopsWhen done (some (s, c))) done (λ d. d) (λ d. tt))
      (λ e. ran-StopsWhen done proc _ (run_proc junk s proc))

fetch-StopsWhen :
    (time_slot junk : ℕ) (done : Bool) (r : Shared × ℕ) (time_left : ℕ)
    → StopsWhen done (fetch_proc time_slot junk done r time_left)
unfolding fetch_proc
fetch-StopsWhen time_slot junk done (s, proc) time_left =
    if_case (StopsWhen done) (proc == null) (λ e. tt)
      (λ e. recheck-StopsWhen time_slot junk done (s, proc) time_left)

put_back-StopsWhen :
    (time_slot junk : ℕ) (done : Bool) (s : Shared) (o : Option Sched)
    → StopsWhen done (put_back time_slot junk done s o)
put_back-StopsWhen time_slot junk done s none = tt
put_back-StopsWhen time_slot junk done s (some sched) = recheck-StopsWhen time_slot junk done _ 0

-- A processor stops only when the loader is done.
pub cpu_routine-stops :
    (time_slot junk : ℕ) (done : Bool) (s t : Shared) (c : Cpu)
    → cpu_routine time_slot junk done s c ≡ some (t, none)
    → done ≡ true
unfolding cpu_routine
cpu_routine-stops time_slot junk done s t c ran =
    let P = StopsWhen done in
    let all : P (cpu_routine time_slot junk done s c) =
      if_case P (c.proc == null) (λ e. fetch-StopsWhen time_slot junk done _ c.time_left)
        (λ e.
          if_case P (s.system.pc c.proc == (s.code c.proc).size)
            (λ e. recheck-StopsWhen time_slot junk done _ 0)
            (λ e.
              if_case P (c.time_left == 0) (λ e. put_back-StopsWhen time_slot junk done s _)
                (λ e. recheck-StopsWhen time_slot junk done _ c.time_left))) in
    subst P ran all

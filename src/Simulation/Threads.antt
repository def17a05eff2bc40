-- ===== src/Simulation/Threads.antt =====
-- os.c: the threads of the simulation as a step relation. The processors are the devices below `n`
-- of the timer, and the loader is the device `n`.
use os_assignment.Base.{
  ℕ, ◌+◌, ◌<◌, ◌≡◌, ◌≢◌, Bool, true, false, Option, none, some, List, [], ◌∷◌, ltb, ◌==◌,
  if◌then◌else◌, update,
}
use os_assignment.Queue.{null}
use os_assignment.Map.{Region}
use os_assignment.Region.{Mm}
use os_assignment.Processor.{Cpu}
use os_assignment.Instruction.{Inst}
use os_assignment.Config.{Job}
use os_assignment.Timer
use os_assignment.Timer.{
  Device, TimerStep, working, waiting, gone, current_time, start_timer, set_device,
}
use os_assignment.Boot.{first_machine}
use os_assignment.Simulation.{Shared, cpu_routine, load_job, add_job}

-- What is fixed: the number of processors, the time slice, and what `fopen` finds.
pub record Fixed : Type 0 where
  pub num_cpus : ℕ
  pub time_slot : ℕ
  pub files : List ℕ → Option (List ℕ)

-- A process that the loader has added: its block, its job, and the value of `_time` then, before it
-- wraps. The code keeps no list of these.
pub record Arrival : Type 0 where
  pub proc : ℕ
  pub job : Job
  pub at : ℕ

-- All threads: what they share, the variables of each processor, where `none` is behind the loop,
-- whether a thread has made its step of this slot, and the variables of the loader: the jobs from
-- `i` on, `proc` while it waits, and `done`.
pub record World : Type 0 where
  pub timer : Timer.System
  pub shared : Shared
  pub cpus : ℕ → Option Cpu
  pub acted : ℕ → Bool
  pub jobs : List Job
  pub loading : Option ℕ
  pub done : Bool
  pub arrivals : List Arrival

-- The loop of a thread has ended: that of the loader, or of a processor.
abbrev pub has_stopped : Option Cpu → Bool
has_stopped none = true
has_stopped (some c) = false

abbrev pub is_over : Fixed → World → ℕ → Bool
is_over x w i = if i == x.num_cpus then w.done else has_stopped (w.cpus i)

-- The threads at their start: `main` has attached the devices, started the timer and set up the
-- scheduler.
abbrev pub first_world : Fixed → Shared → List Job → World
first_world x s jobs =
    let m = first_machine s.system.sched s.system.pc x.num_cpus in
    record {
      timer = start_timer;
      shared = record s { system = m.system };
      cpus = m.cpus;
      acted = λ i. false;
      jobs = jobs;
      loading = none;
      done = false;
      arrivals = [];
    }

-- The thread of the device `i` is at work, and has made its step or not.
pub record IsTurn (w : World) (i : ℕ) (acted : Bool) : Type 0 where
  pub at_work : (w.timer.device i).place ≡ working
  pub step : w.acted i ≡ acted

abbrev pub passed : World → ℕ → World
passed w i = record w { acted = update w.acted i true }

-- The device of a thread calls the timer, and the thread has a slot before it.
abbrev pub called : World → ℕ → Device → World
called w i d = record w { timer = set_device w.timer i d; acted = update w.acted i false }

pub data Step (x : Fixed) (w : World) : World → Type 0 where
  time :
      {t : Timer.System} → TimerStep (x.num_cpus + 1) w.timer t → Step x w (record w { timer = t })
  slot :
      (i junk : ℕ) (c : Cpu) (r : Shared × Option Cpu)
      → i < x.num_cpus
      → IsTurn w i false
      → w.cpus i ≡ some c
      → cpu_routine x.time_slot junk w.done w.shared c ≡ some r
      → Step x w (passed (record w { shared = r.0; cpus = update w.cpus i r.1 }) i)
  load :
      (proc : ℕ) (junk : ℕ → Inst) (job : Job) (rest : List Job) (s : Shared)
      → IsTurn w x.num_cpus false
      → w.jobs ≡ job ∷ rest
      → w.loading ≡ none
      → proc ≢ null
      → w.shared.allocated proc ≡ false
      → load_job x.files junk w.shared proc job ≡ some (some s)
      → Step x w (record w { shared = s; loading = some proc })
  wait :
      (proc : ℕ) (job : Job) (rest : List Job)
      → IsTurn w x.num_cpus false
      → w.jobs ≡ job ∷ rest
      → w.loading ≡ some proc
      → ltb (current_time w.timer) job.start_time ≡ true
      → Step x w (passed w x.num_cpus)
  add :
      (proc : ℕ) (junk : List Region) (left : Mm) (job : Job) (rest : List Job) (s : Shared)
      → IsTurn w x.num_cpus false
      → w.jobs ≡ job ∷ rest
      → w.loading ≡ some proc
      → ltb (current_time w.timer) job.start_time ≡ false
      → add_job junk left w.shared proc ≡ some s
      → Step x w (
          passed
            (record w {
              shared = s;
              jobs = rest;
              loading = none;
              arrivals = record { proc = proc; job = job; at = w.timer.ticks } ∷ w.arrivals;
            })
            x.num_cpus)
  finish :
      IsTurn w x.num_cpus false
      → w.jobs ≡ []
      → Step x w (passed (record w { done = true }) x.num_cpus)
  next_slot :
      (i : ℕ)
      → i < x.num_cpus + 1
      → IsTurn w i true
      → is_over x w i ≡ false
      → Step x w (called w i (record (w.timer.device i) { done = true; place = waiting }))
  wake :
      (i : ℕ)
      → i < x.num_cpus + 1
      → (w.timer.device i).place ≡ waiting
      → (w.timer.device i).done ≡ false
      → Step x w (
          called w i
            (record (w.timer.device i) { place = working; slots = (w.timer.device i).slots + 1 }))
  detach_event :
      (i : ℕ)
      → i < x.num_cpus + 1
      → IsTurn w i true
      → is_over x w i ≡ true
      → Step x w (called w i (record (w.timer.device i) { fsh = true; place = gone }))
  stop :
      ((i : ℕ) → i < x.num_cpus + 1 → (w.timer.device i).place ≡ gone)
      → Step x w (record w { timer = record (w.timer) { timer_stop = true } })

-- The runs from the world `v`.
pub data Run (x : Fixed) (v : World) : World → Type 0 where
  start : Run x v v
  then_step : {w z : World} → Run x v w → Step x w z → Run x v z

-- ===== src/Tests/Scheduling.antt =====
-- queue.c and sched.c at concrete states: two processes of priority 3, and one of priority 5.
use os_assignment.Base.{
  update, none, Bool, ℕ, ◌+◌, ◌-◌, ◌^◌, ◌<◌, ◌≤◌, ◌≡◌, ◌≢◌, refl, true, false, some, List, [], ◌∷◌,
  ◌++◌, arith, ◌==◌, if◌then◌else◌, All,
}
use os_assignment.Queue.{Queue, null, max_queue_size, contents, enqueue, dequeue, purgequeue}
use os_assignment.Queue.Laws.{dequeue_lem, Purged, purgequeue-Purged}
use os_assignment.Sched.{Sched, max_prio, get_mlq_proc, put_mlq_proc, add_mlq_proc}
use os_assignment.Sched.Invariant.{IsValid, at_levels}
use os_assignment.Sched.Return.{IsReturned, put_mlq_proc-IsReturned}
use os_assignment.Processor.{Setup, System, Cpu, less_one, cpu_slot}
use os_assignment.Processor.Slots.{Ends}
use os_assignment.Processor.Runs.{
  Machine, load, Reach, start, then_step, IsServing, IsSound, Reach-cpu_slot,
}
use os_assignment.Processor.Places.{queued, holds}
use os_assignment.Processor.Alone.{IsAlone}
use os_assignment.Sched.Policy.{Outcome, get_mlq_proc-Outcome}

abbrev no_process : Queue
no_process = record { proc = λ i. 0; size = 0 }

-- The processes 7, 8 and 9, in that order.
abbrev three : Queue
three = record { proc = λ i. if i == 0 then 7 else if i == 1 then 8 else 9; size = 3 }

-- Process 8 has priority 3, and the others 5.
abbrev mixed : ℕ → ℕ
mixed p = if p == 8 then 3 else 5

-- The same priority for all.
abbrev level_of : ℕ → ℕ
level_of p = 3

run_dequeue : contents (dequeue mixed three).0 ≡ 7 ∷ 9 ∷ []
unfolding dequeue
run_dequeue = refl

dequeue_lem_example :
    (xs : List ℕ) × (ys : List ℕ) × (contents three ≡ xs ++ ((dequeue mixed three).1 ∷ ys))
    × (contents (dequeue mixed three).0 ≡ xs ++ ys)
    × All (λ x. mixed (dequeue mixed three).1 < mixed x) xs
    × All (λ y. mixed (dequeue mixed three).1 ≤ mixed y) ys
dequeue_lem_example = dequeue_lem mixed three (omega arith)

purgequeue-Purged_example : Purged 8 (contents three) (purgequeue three 8)
purgequeue-Purged_example = purgequeue-Purged three 8 (omega arith)

abbrev busy : Sched
busy = record {
  mlq_ready_queue = λ i. if i == 3 then three else no_process;
  slot = λ i. max_prio - i;
  mlq_inited = true;
  ready_queue = no_process;
  run_queue = no_process;
  running_list = no_process;
  attached = λ p. false;
}

busy-IsValid : IsValid level_of busy
busy-IsValid = record {
  inited = refl;
  budget = λ i l. omega arith;
  fits =
      at_levels (λ i. (busy.mlq_ready_queue i).size ≤ max_queue_size) 3 (omega arith)
        λ i l ne. ground arith;
  running_fits = omega arith;
  levels =
      at_levels (λ i. All (λ x. (level_of x ≡ i) × (x ≢ null)) (contents (busy.mlq_ready_queue i)))
        3 ((refl, omega arith), ((refl, omega arith), ((refl, omega arith), tt)))
        λ i l ne. no_level i ne;
}
  where
    no_level :
        (i : ℕ)
        → i ≢ 3
        → All (λ x. (level_of x ≡ i) × (x ≢ null)) (contents (busy.mlq_ready_queue i))
    no_level i ne = let other : (i == 3) ≡ false = ground arith in rw other tt

get_mlq_proc-Outcome_example : Outcome busy (get_mlq_proc level_of busy)
get_mlq_proc-Outcome_example = get_mlq_proc-Outcome level_of busy busy-IsValid

put_mlq_proc-IsReturned_example :
    (t : Sched) × (put_mlq_proc level_of busy 4 ≡ some t)
    × IsReturned level_of busy 4 t
    × (IsValid level_of busy → IsValid level_of t)
put_mlq_proc-IsReturned_example =
    put_mlq_proc-IsReturned level_of busy 4 (omega arith) (omega arith)

abbrev setup : Setup
setup = record { prio = level_of; code_size = λ p. 10; time_slot = 2 }

-- A processor runs process 4 and has used up its time slice.
abbrev system : System
system = record { sched = busy; pc = λ p. 1 }

-- A time slice of length 0 is counted down to -1.
run_less_one : less_one 0 ≡ 2 ^ 32 - 1
unfolding less_one
run_less_one = refl

abbrev cpu : Cpu
cpu = record { proc = 4; time_left = 0 }

abbrev quiet : Sched
quiet = record busy { mlq_ready_queue = λ i. no_process }

quiet-IsValid : IsValid level_of quiet
quiet-IsValid = record {
  inited = refl;
  budget = λ i l. omega arith;
  fits = λ i l. omega arith;
  running_fits = omega arith;
  levels = λ i l. tt;
}

-- One processor that runs process 4, and no other.
abbrev machine : Machine
machine = record { system = system; cpus = λ i. if i == 0 then some cpu else none }

machine-IsSound : IsSound setup machine
unfolding IsServing
machine-IsSound = record { valid = busy-IsValid; serving = λ i. serves (i == 0) }
  where
    serves : (b : Bool) → IsServing setup (if b then some cpu else none)
    serves true = λ held. omega arith
    serves false = tt

loaded-Reach :
    (t : Sched)
    → add_mlq_proc level_of busy 6 ≡ some t
    → Reach setup machine (record machine { system = record system { sched = t } })
loaded-Reach t added = then_step start (load machine 6 t (omega arith) (omega arith) added)

abbrev loaded : Sched
loaded = record busy {
  attached = update busy.attached 6 true;
  running_list = (purgequeue busy.running_list 6).0;
  mlq_ready_queue = update busy.mlq_ready_queue 3 (enqueue (busy.mlq_ready_queue 3) 6);
}

loaded_step : add_mlq_proc level_of busy 6 ≡ some loaded
unfolding add_mlq_proc put_mlq_proc
loaded_step = refl

Reach-cpu_slot_example :
    IsSound setup (record machine { system = record system { sched = loaded } })
    × ((i : ℕ) (c : Cpu) (done : Bool)
        → machine.cpus i ≡ some c
        → Ends setup (cpu_slot setup done (record system { sched = loaded }) c))
Reach-cpu_slot_example =
    Reach-cpu_slot setup machine (record machine { system = record system { sched = loaded } })
      machine-IsSound (loaded-Reach loaded loaded_step)

machine-IsAlone : IsAlone setup machine
machine-IsAlone = record { one = λ i p h. once (i == 0) p; apart = λ i j p h ne. apart i j p ne }
  where
    once : (b : Bool) (p : ℕ) → queued level_of busy p + holds (if b then some cpu else none) p ≤ 1
    once true p = ground arith
    once false p = ground arith

    apart : (i j p : ℕ) → i ≢ j → holds (machine.cpus i) p + holds (machine.cpus j) p ≤ 1
    apart i j p ne = ground arith

six_is_new : (b : Bool) → holds (if b then some cpu else none) 6 ≡ 0
six_is_new true = refl
six_is_new false = refl

-- ===== src/Tests/Simulating.antt =====
-- os.c with one processor and the job of a program of one instruction: the loader brings the process
-- in, and the processor runs it.
use os_assignment.Base.{
  ℕ, ◌≤◌, ◌<◌, ◌≡◌, ◌≢◌, refl, true, false, Option, none, some, List, [], ◌∷◌, update, arith, ltb,
  Bool-cases, if_eq_true, if_eq_false, inl, inr, subst, sym,
}
use os_assignment.Queue.{Queue, null, empty, enqueue, dequeue, purgequeue}
use os_assignment.Memphy.{Memphy, get_freefp}
use os_assignment.Region.{Mm}
use os_assignment.Process.{init_mm}
use os_assignment.Sched.{
  max_prio, levels_empty, queue_empty, reset_from, reset_slots, clear_from, init_scheduler,
  choose_from, choose, dispatch, dispatch_chosen, get_from, get_mlq_proc, add_mlq_proc,
}
use os_assignment.Sched.Levels.{clear_lem}
use os_assignment.Sched.Invariant.{IsValid, init_scheduler-IsValid}
use os_assignment.Processor.{Cpu, get_proc}
use os_assignment.Processor.Places.{queued}
use os_assignment.Instruction.{Inst, run, switch, free}
use os_assignment.Stdio.{
  skip_space, take_word, scan_digits, scan_unsigned, scan_signed, scan_number, scan_numbers,
}
use os_assignment.Loader.{get_opcode, read_opcode, fill, load_inst, load_from, take, load}
use os_assignment.Config.{Job}
use os_assignment.Timer.{stopped, working, gone}
use os_assignment.Simulation.{
  Shared, load_job, add_job, run_proc, next_proc, recheck_proc, fetch_proc, cpu_routine,
}
use os_assignment.Simulation.Threads.{Fixed, World, first_world, passed, Run, Step}
use os_assignment.Simulation.Threads
use os_assignment.Simulation.Turns.{onto, IsPrompt}
use os_assignment.Simulation.Safe.{simulation_safe}
use os_assignment.Simulation.Counters.{simulation_counters}
use os_assignment.Simulation.Order.{loads_in_order}
use os_assignment.Simulation.Endless.{IsDrained, HoldsNone, simulation_never_ends}

abbrev fixed : Fixed
fixed = record {
  num_cpus = 1;
  time_slot = 2;
  files = λ path. some (b'1' ∷ 32 ∷ b'1' ∷ 10 ∷ b'c' ∷ b'a' ∷ b'l' ∷ b'c' ∷ 10 ∷ []);
}

abbrev job : Job
job = record { start_time = 0; path = b'p' ∷ []; prio = 15 }

abbrev no_queue : Queue
no_queue = record { proc = λ i. 0; size = 0 }

abbrev ram : Memphy
ram = record { storage = λ i. 0; maxsz = 256; rdmflg = true; cursor = 0; free_fp_list = [] }

abbrev left_mm : Mm
left_mm = record {
  pgd = 0;
  mmap = [];
  symrgtbl = λ i. record { rg_start = 0; rg_end = 0 };
  fifo_pgn = [];
}

abbrev before : ℕ → Inst
before i = record { opcode = free; arg_0 = 9; arg_1 = 9; arg_2 = 9; arg_3 = 9 }

abbrev shared : Shared
shared = record {
  system = record {
    sched = record {
      mlq_ready_queue = λ i. no_queue;
      slot = λ i. 0;
      mlq_inited = false;
      ready_queue = no_queue;
      run_queue = no_queue;
      running_list = no_queue;
      attached = λ p. false;
    };
    pc = λ p. 9;
  };
  kernel = record {
    running_list = no_queue;
    ready_queue = no_queue;
    pid = λ p. 0;
    mm = λ p. left_mm;
    mram = ram;
    active_mswp = ram;
  };
  prio = λ p. 0;
  code = λ p. record { text = before; size = 0 };
  allocated = λ p. false;
  avail_pid = 1;
}

abbrev or_shared : Option (Option Shared) → Shared
or_shared none = shared
or_shared (some none) = shared
or_shared (some (some s)) = s

abbrev or_slot : Option (Shared × Option Cpu) → Shared × Option Cpu
or_slot none = (shared, none)
or_slot (some r) = r

abbrev w0 : World
w0 = first_world fixed shared (job ∷ [])

abbrev s1 : Shared
s1 = or_shared (load_job fixed.files before w0.shared 7 job)

abbrev w1 : World
w1 = record w0 { shared = s1; loading = some 7 }

abbrev s2 : Shared
s2 = or_shared (some (add_job [] left_mm s1 7))

abbrev w2 : World
w2 =
    passed
      (record w1 {
        shared = s2;
        jobs = [];
        loading = none;
        arrivals = record { proc = 7; job = job; at = 0 } ∷ [];
      })
      1

abbrev r3 : Shared × Option Cpu
r3 = or_slot (cpu_routine 2 0 false s2 (record { proc = null; time_left = 0 }))

abbrev w3 : World
w3 = passed (record w2 { shared = r3.0; cpus = update w2.cpus 0 r3.1 }) 0

loads : Step fixed w0 w1
unfolding load_job load load_from take scan_numbers scan_number scan_unsigned scan_signed
    scan_digits skip_space take_word load_inst read_opcode get_opcode fill
loads =
    Threads.load 7 before job [] s1 (record { at_work = refl; step = refl }) refl refl
      (λ e. omega arith) refl refl

adds : Step fixed w1 w2
unfolding load_job load load_from take scan_numbers scan_number scan_unsigned scan_signed
    scan_digits skip_space take_word load_inst read_opcode get_opcode fill add_job init_mm
    get_freefp add_mlq_proc
adds =
    Threads.add 7 [] left_mm job [] s2 (record { at_work = refl; step = refl }) refl refl refl refl

runs : Step fixed w2 w3
unfolding load_job load load_from take scan_numbers scan_number scan_unsigned scan_signed
    scan_digits skip_space take_word load_inst read_opcode get_opcode fill add_job init_mm
    get_freefp add_mlq_proc init_scheduler reset_slots reset_from clear_from purgequeue enqueue
    dequeue empty queue_empty levels_empty choose choose_from dispatch dispatch_chosen get_from
    get_mlq_proc get_proc cpu_routine fetch_proc recheck_proc next_proc run_proc run switch
runs =
    Threads.slot 0 0 (record { proc = null; time_left = 0 }) r3 (omega arith)
      (record { at_work = refl; step = refl }) refl refl

Run-w3 : Run fixed w0 w3
Run-w3 = Threads.then_step (Threads.then_step (Threads.then_step Threads.start loads) adds) runs

simulation_safe_example :
    IsValid w3.shared.prio w3.shared.system.sched
    × ((i : ℕ) (c : Cpu)
        → w3.cpus i ≡ some c
        → c.proc ≢ null
        → (w3.shared.prio c.proc < max_prio)
          × (w3.shared.allocated c.proc ≡ true)
          × (queued w3.shared.prio w3.shared.system.sched c.proc ≡ 0)
          × ((j : ℕ) (d : Cpu) → j ≢ i → w3.cpus j ≡ some d → d.proc ≢ c.proc))
    × ((p : ℕ)
        → p ≢ null
        → w3.shared.prio p < max_prio
        → w3.shared.allocated p ≡ false
        → queued w3.shared.prio w3.shared.system.sched p ≡ 0)
simulation_safe_example = simulation_safe fixed shared (job ∷ []) w3 Run-w3

loads_in_order_example :
    (onto w3.arrivals [] ≡ job ∷ [])
    × IsPrompt w3.arrivals
    × ((i : ℕ) → i < 1 → w3.cpus i ≡ none → ◌≡◌ {A = List Job} [] [])
loads_in_order_example = loads_in_order fixed shared (job ∷ []) w3 Run-w3

simulation_counters_example :
    ((p : ℕ) → w3.shared.allocated p ≡ true → w3.shared.system.pc p ≤ (w3.shared.code p).size)
    × ((i : ℕ) (c : Cpu)
        → w3.cpus i ≡ some c
        → c.proc ≢ null
        → w3.shared.system.pc c.proc ≤ (w3.shared.code c.proc).size)
simulation_counters_example = simulation_counters fixed shared (job ∷ []) w3 (λ p. refl) Run-w3

-- Without any job, after the loader has ended and the processor has passed its first slot.
abbrev v0 : World
v0 = first_world fixed shared []

abbrev idle : Cpu
idle = record { proc = null; time_left = 0 }

abbrev v1 : World
v1 = passed (record v0 { done = true }) 1

abbrev r2 : Shared × Option Cpu
r2 = or_slot (cpu_routine 2 0 true v1.shared idle)

abbrev v2 : World
v2 = passed (record v1 { shared = r2.0; cpus = update v1.cpus 0 r2.1 }) 0

Run-v2 : Run fixed v0 v2
unfolding init_scheduler reset_slots reset_from clear_from empty queue_empty levels_empty get_from
    get_mlq_proc get_proc cpu_routine fetch_proc next_proc
Run-v2 =
    Threads.then_step
      (Threads.then_step Threads.start
        (Threads.finish (record { at_work = refl; step = refl }) refl))
      (Threads.slot 0 0 idle r2 (omega arith) (record { at_work = refl; step = refl }) refl refl)

working-gone : working ≡ gone → ⊥
working-gone e = cc

v0-HoldsNone : (j : ℕ) → HoldsNone (v0.cpus j)
v0-HoldsNone j = elim (Bool-cases (ltb j 1)) [
  | inl there ↦ subst HoldsNone (sym (if_eq_true (some idle) none there)) refl
  | inr beyond ↦ subst HoldsNone (sym (if_eq_false (some idle) none beyond)) tt
]

v0-IsDrained : IsDrained fixed 0 idle v0
unfolding init_scheduler
v0-IsDrained = record {
  valid = (init_scheduler-IsValid (λ p. 0) shared.system.sched).0;
  levels = λ k l. clear_lem shared.system.sched.mlq_ready_queue k l;
  none_held = v0-HoldsNone;
  no_jobs = refl;
  running = refl;
  here = λ e. working-gone e;
  timer_on = refl;
}

simulation_never_ends_example :
    (v2.cpus 0 ≡ some idle)
    × ((k : ℕ) → k < max_prio → (v2.shared.system.sched.mlq_ready_queue k).size ≡ 0)
    × (v2.timer.phase ≢ stopped)
simulation_never_ends_example =
    simulation_never_ends fixed shared [] v0 v2 0 idle Threads.start (omega arith) v0-IsDrained
      Run-v2

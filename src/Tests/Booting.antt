-- ===== src/Tests/Booting.antt =====
-- os.c from the configuration 2 1 1, 1024 512 0 0 0, 5 p 15.
use os_assignment.Base.{
  ℕ, ◌+◌, ◌≡◌, ◌≢◌, refl, true, false, Option, none, some, List, [], ◌∷◌, length, arith,
}
use os_assignment.Queue.{Queue, null}
use os_assignment.Memphy.{Memphy}
use os_assignment.Table.Entry.{IsRam}
use os_assignment.Sched.{Sched}
use os_assignment.Sched.Invariant.{IsValid}
use os_assignment.Processor.{Cpu}
use os_assignment.Instruction.{calc}
use os_assignment.Config.Entries.{Entry, IsEntry}
use os_assignment.Config.ReadBack.{print_config, config_of}
use os_assignment.Boot.{Os, main}
use os_assignment.Simulation.{Shared}
use os_assignment.Simulation.Threads.{Fixed, World, first_world, Run}
use os_assignment.Simulation.Turns.{onto, IsPrompt}
use os_assignment.Simulation.Start.{with_devices, main-Run}

abbrev entry : Entry
entry = record { start_time = 5; proc = b'p' ∷ []; prio = 15 }

entry-IsEntry : IsEntry entry
entry-IsEntry = record {
  start_lt = omega arith;
  prio_lt = omega arith;
  name = (refl, tt);
  not_empty = omega arith;
  short = omega arith;
}

abbrev blank : Memphy
blank = record { storage = λ i. 7; maxsz = 7; rdmflg = true; cursor = 7; free_fp_list = [] }

abbrev some_queue : Queue
some_queue = record { proc = λ i. 7; size = 7 }

abbrev blank_sched : Sched
blank_sched = record {
  mlq_ready_queue = λ i. some_queue;
  slot = λ i. 7;
  mlq_inited = true;
  ready_queue = some_queue;
  run_queue = some_queue;
  running_list = some_queue;
  attached = λ p. true;
}

abbrev shared : Shared
shared = record {
  system = record { sched = blank_sched; pc = λ p. 9 };
  kernel = record {
    running_list = some_queue;
    ready_queue = some_queue;
    pid = λ p. 0;
    mm = λ p. record {
      pgd = 0;
      mmap = [];
      symrgtbl = λ i. record { rg_start = 0; rg_end = 0 };
      fifo_pgn = [];
    };
    mram = blank;
    active_mswp = blank;
  };
  prio = λ p. 0;
  code = λ p. record {
    text = λ i. record { opcode = calc; arg_0 = 0; arg_1 = 0; arg_2 = 0; arg_3 = 0 };
    size = 0;
  };
  allocated = λ p. false;
  avail_pid = 1;
}

abbrev files : List ℕ → Option (List ℕ)
files path = none

main-Run_example :
    (os : Os) × (main [] blank blank_sched
        (λ p. 9)
        (some (print_config 2 1 1024 (512 ∷ 0 ∷ 0 ∷ 0 ∷ []) (entry ∷ [])))
      ≡ some (some os))
    × IsRam os.mram
    × (length os.mswp ≡ 4)
    × (os.events ≡ 1 + 1)
    × (let x : Fixed = record { num_cpus = 1; time_slot = 2; files = files } in
        let jobs = (config_of 2 1 1024 (512 ∷ 0 ∷ 0 ∷ 0 ∷ []) (entry ∷ [])).ld_processes in
        (w : World)
        → Run x (first_world x (with_devices shared blank os) jobs) w
        → IsValid w.shared.prio w.shared.system.sched
          × ((i : ℕ) (c : Cpu)
              → w.cpus i ≡ some c
              → c.proc ≢ null
              → (w.shared.allocated c.proc ≡ true)
                × ((j : ℕ) (d : Cpu) → j ≢ i → w.cpus j ≡ some d → d.proc ≢ c.proc))
          × (onto w.arrivals w.jobs ≡ jobs)
          × IsPrompt w.arrivals)
main-Run_example =
    main-Run [] blank 2 1 1024 (512 ∷ 0 ∷ 0 ∷ 0 ∷ []) (entry ∷ []) files shared (omega arith)
      (omega arith) (omega arith) refl
      (omega arith, (omega arith, (omega arith, (omega arith, tt)))) (omega arith)
      (entry-IsEntry, tt) (omega arith)

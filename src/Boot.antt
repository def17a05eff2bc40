-- ===== src/Boot.antt =====
-- os.c: what main sets up from the configuration before the threads run. The devices are arrays and
-- variables on its stack, `dev` is what is in each before, and `junk` what `malloc` leaves.
pub mod Runs
use os_assignment.Base.{ℕ, ◌+◌, Option, none, some, List, [], ◌∷◌, ltb, if◌then◌else◌, rounds}
use os_assignment.Queue.{null}
use os_assignment.Memphy.{Memphy, init_memphy}
use os_assignment.Sched.{Sched, init_scheduler}
use os_assignment.Processor.Runs.{Machine}
use os_assignment.Config.{Config, read_config}

-- The devices, the scheduler with the processors, and the number of devices at the timer.
pub record Os : Type 0 where
  pub mram : Memphy
  pub mswp : List Memphy
  pub machine : Machine
  pub events : ℕ

-- The loop that creates the swaps; the results of `init_memphy` are dropped.
pub init_swaps : List ℕ → Memphy → List ℕ → Option (List Memphy)
init_swaps junk dev [] = some []
init_swaps junk dev (size ∷ sizes) = elim (init_memphy junk size 1 dev) [
  | none ↦ none
  | some (status, swap) ↦ elim (init_swaps junk dev sizes) [
    | none ↦ none
    | some swaps ↦ some (swap ∷ swaps)
  ]
]

-- The scheduler and the processors, each without a process, at the start of their threads.
abbrev pub first_machine : Sched → (ℕ → ℕ) → ℕ → Machine
first_machine sched pc num_cpus = record {
  system = record { sched = init_scheduler sched; pc = pc };
  cpus = λ i. if ltb i num_cpus then some (record { proc = null; time_left = 0 }) else none;
}

-- `main` from `read_config` on, up to the creation of the threads.
unfoldable pub set_up : List ℕ → Memphy → Sched → (ℕ → ℕ) → Config → Option Os
set_up junk dev sched pc config = elim (init_memphy junk config.memramsz 1 dev) [
  | none ↦ none
  | some (status, mram) ↦ elim (init_swaps junk dev config.memswpsz) [
    | none ↦ none
    | some mswp ↦ some (record {
      mram = mram;
      mswp = mswp;
      machine = first_machine sched pc (rounds config.num_cpus);
      events = rounds config.num_cpus + 1;
    })
  ]
]

-- `main` on the file with the configuration; `none` inside is `exit`.
unfoldable pub main : List ℕ → Memphy → Sched → (ℕ → ℕ) → Option (List ℕ) → Option (Option Os)
main junk dev sched pc file = elim (read_config file) [
  | none ↦ none
  | some none ↦ some none
  | some (some config) ↦ elim (set_up junk dev sched pc config) [
    | none ↦ none
    | some os ↦ some (some os)
  ]
]

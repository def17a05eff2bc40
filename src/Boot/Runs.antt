-- ===== src/Boot/Runs.antt =====
-- main and what follows: every run of the processors and the loader from there.
use os_assignment.Base.{
  Option, ap, ℕ, ◌+◌, ◌*◌, ◌≤◌, ◌≡◌, ◌≢◌, refl, ◌∙◌, sym, subst, Bool, none, some, List, [], ◌∷◌,
  ltb, length, All, arith, Bool-cases, if_eq_true, if_eq_false, inl, inr, rounds,
}
use os_assignment.Queue.{null}
use os_assignment.Memphy
use os_assignment.Memphy.{Memphy, Status, init_memphy, format}
use os_assignment.Memphy.Frames.{fresh, init_memphy-fresh, init_memphy_total}
use os_assignment.Table.Entry.{IsRam}
use os_assignment.Sched.{Sched}
use os_assignment.Sched.Invariant.{init_scheduler-IsValid}
use os_assignment.Processor.{Cpu, Setup, cpu_slot}
use os_assignment.Processor.Slots.{Ends}
use os_assignment.Processor.Runs.{Machine, Reach, IsServing, IsSound, Reach-cpu_slot}
use os_assignment.Processor.Places.{count, queued, holds, not_it}
use os_assignment.Processor.Alone.{IsProc, AllNew, IsAlone, Reach-IsAlone}
use os_assignment.Config.{Config}
use os_assignment.Config.Entries.{Entry, IsEntry}
use os_assignment.Config.ReadBack.{IsInt, print_config, config_of, read_config-print_config}
use os_assignment.Boot.{Os, init_swaps, first_machine, set_up, main}

init_swaps_total :
    (junk : List ℕ) (dev : Memphy) (sizes : List ℕ)
    → (swaps : List Memphy) × (init_swaps junk dev sizes ≡ some swaps)
      × (length swaps ≡ length sizes)
unfolding init_swaps
init_swaps_total junk dev [] = ([], refl, refl)
init_swaps_total junk dev (size ∷ sizes) =
    let (status, swap, e) = init_memphy_total junk size 1 dev in
    let (swaps, e', same) = init_swaps_total junk dev sizes in
    (swap ∷ swaps, rw (init_swaps, e, e') refl, omega (arith, same))

pub first_machine-IsSound :
    (u : Setup) (sched : Sched) (pc : ℕ → ℕ) (num_cpus : ℕ)
    → IsSound u (first_machine sched pc num_cpus)
unfolding IsServing
first_machine-IsSound u sched pc num_cpus = record {
  valid = (init_scheduler-IsValid u.prio sched).0;
  serving = λ i. elim (Bool-cases (ltb i num_cpus)) [
    | inl there ↦
        subst (IsServing u)
          (sym (if_eq_true (some (record { proc = null; time_left = 0 })) none there))
          (λ ne. absurd (ne refl))
    | inr beyond ↦
        subst (IsServing u)
          (sym (if_eq_false (some (record { proc = null; time_left = 0 })) none beyond)) tt
  ];
}

set_up_lem :
    (junk : List ℕ) (dev : Memphy) (sched : Sched) (pc : ℕ → ℕ) (config : Config)
    → 2 * Memphy.pagesz ≤ config.memramsz
    → IsInt config.memramsz
    → (swaps : List Memphy) × (set_up junk dev sched pc config
        ≡ some (record {
          mram = fresh config.memramsz 1 dev;
          mswp = swaps;
          machine = first_machine sched pc (rounds config.num_cpus);
          events = rounds config.num_cpus + 1;
        }))
      × (length swaps ≡ length config.memswpsz)
unfolding set_up
set_up_lem junk dev sched pc config h bound =
    let (swaps, e, same) = init_swaps_total junk dev config.memswpsz in
    (swaps, rw (set_up, init_memphy-fresh junk config.memramsz 1 dev h bound, e) refl, same)

-- No process is anywhere when the threads start.
pub first_machine-holds :
    (sched : Sched) (pc : ℕ → ℕ) (num_cpus i p : ℕ)
    → p ≢ null
    → holds ((first_machine sched pc num_cpus).cpus i) p ≡ 0
first_machine-holds sched pc num_cpus i p ne = elim (Bool-cases (ltb i num_cpus)) [
  | inl there ↦
      ap (λ (c : Option Cpu). holds c p)
        (if_eq_true (some (record { proc = null; time_left = 0 })) none there)
      ∙ not_it p null (λ e. ne (sym e))
  | inr beyond ↦
      ap (λ (c : Option Cpu). holds c p)
        (if_eq_false (some (record { proc = null; time_left = 0 })) none beyond)
]

pub first_machine-queued :
    (u : Setup) (sched : Sched) (pc : ℕ → ℕ) (num_cpus p : ℕ)
    → IsProc u p
    → queued u.prio (first_machine sched pc num_cpus).system.sched p ≡ 0
first_machine-queued u sched pc num_cpus p h =
    ap (count p) ((init_scheduler-IsValid u.prio sched).1 (u.prio p) h.1).1

pub first_machine-IsAlone :
    (u : Setup) (sched : Sched) (pc : ℕ → ℕ) (num_cpus : ℕ)
    → IsAlone u (first_machine sched pc num_cpus)
first_machine-IsAlone u sched pc num_cpus =
    let idle = first_machine-holds sched pc num_cpus in
    record {
      one = λ i p h. omega (arith, idle i p h.0, first_machine-queued u sched pc num_cpus p h);
      apart = λ i j p h ne. omega (arith, idle i p h.0, idle j p h.0);
    }

-- From a printed configuration under the conditions of `read_config-print_config`, with a RAM of at
-- least 512 bytes, `main` sets the system up: a random-access RAM, the four swaps, and an event for
-- every processor and the loader. In every run of the processors and the loader from there, where
-- the time slot is that of the configuration, the scheduler stays valid and the next slot of any
-- processor that still runs has a result; and if no process arrives that is in the system
-- already, none is ever in two places: on two processors, twice in its queue, or on both.
pub main-Reach :
    (junk : List ℕ) (dev : Memphy) (sched : Sched) (pc : ℕ → ℕ) (u : Setup) (num_cpus memramsz : ℕ)
    (sizes : List ℕ) (es : List Entry)
    → IsInt u.time_slot
    → IsInt num_cpus
    → IsInt memramsz
    → length sizes ≡ 4
    → All IsInt sizes
    → IsInt (length es)
    → All IsEntry es
    → 2 * Memphy.pagesz ≤ memramsz
    → (os : Os) × (main junk dev sched pc
          (some (print_config u.time_slot num_cpus memramsz sizes es))
        ≡ some (some os))
      × IsRam os.mram
      × (length os.mswp ≡ 4)
      × (os.events ≡ num_cpus + 1)
      × ((m : Machine) (run : Reach u os.machine m)
          → IsSound u m
            × ((i : ℕ) (c : Cpu) (done : Bool)
                → m.cpus i ≡ some c
                → Ends u (cpu_slot u done m.system c))
            × (AllNew run → IsAlone u m))
unfolding main
main-Reach junk dev sched pc u num_cpus memramsz sizes es h h' h'' four small few entries room =
    let config = config_of u.time_slot num_cpus memramsz sizes es in
    let (swaps, made, same) = set_up_lem junk dev sched pc config room h'' in
    let read =
      read_config-print_config u.time_slot num_cpus memramsz sizes es h h' h'' four small few
        entries in
    (
      record {
        mram = fresh memramsz 1 dev;
        mswp = swaps;
        machine = first_machine sched pc (rounds num_cpus);
        events = rounds num_cpus + 1;
      },
      rw (read, main, made) refl,
      record { random = refl; size = h'' },
      same ∙ four,
      ground arith,
      λ m run.
          let sound = first_machine-IsSound u sched pc (rounds num_cpus) in
          let alone = first_machine-IsAlone u sched pc (rounds num_cpus) in
          let safe = Reach-cpu_slot u (first_machine sched pc (rounds num_cpus)) m sound run in
          (safe.0, safe.1, λ new. (Reach-IsAlone u sound alone run new).1),
    )

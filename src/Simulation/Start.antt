-- ===== src/Simulation/Start.antt =====
-- os.c: `main` from the file with the configuration on, and every run of its threads.
use os_assignment.Base.{ℕ, ◌+◌, ◌≤◌, ◌*◌, ◌≡◌, ◌≢◌, true, Option, some, List, [], ◌∷◌, length, All}
use os_assignment.Queue.{null}
use os_assignment.Memphy
use os_assignment.Memphy.{Memphy}
use os_assignment.Table.Entry.{IsRam}
use os_assignment.Sched.Invariant.{IsValid}
use os_assignment.Processor.{Cpu, Setup}
use os_assignment.Config.Entries.{Entry, IsEntry}
use os_assignment.Config.ReadBack.{IsInt, print_config, config_of}
use os_assignment.Boot.{Os, main}
use os_assignment.Boot.Runs.{main-Reach}
use os_assignment.Simulation.{Shared}
use os_assignment.Simulation.Turns.{onto, IsPrompt}
use os_assignment.Simulation.Safe.{simulation_safe}
use os_assignment.Simulation.Order.{loads_in_order}
use os_assignment.Simulation.Threads.{Fixed, World, first_world, Run}

-- The devices of `main` as `ld_routine` hands them to every process: the RAM and the first swap.
abbrev first_swap : Memphy → List Memphy → Memphy
first_swap dev [] = dev
first_swap dev (swap ∷ swaps) = swap

abbrev pub with_devices : Shared → Memphy → Os → Shared
with_devices s dev os = record s {
  kernel = record (s.kernel) { mram = os.mram; active_mswp = first_swap dev os.mswp };
}

-- From a printed configuration under the conditions of `read_config-print_config`, with a RAM of at
-- least 512 bytes, `main` sets the system up with a random-access RAM, four swaps and a device for
-- every processor and the loader. In every run of the whole simulation from there with these
-- devices and with the jobs of the configuration, the scheduler stays valid, no process is on two
-- processors or freed while a processor has it, and the jobs come in their order, each in the slot
-- of its start time or right behind the one before.
pub main-Run :
    (junk : List ℕ) (dev : Memphy) (time_slot num_cpus memramsz : ℕ) (sizes : List ℕ)
    (es : List Entry) (files : List ℕ → Option (List ℕ)) (s : Shared)
    → IsInt time_slot
    → IsInt num_cpus
    → IsInt memramsz
    → length sizes ≡ 4
    → All IsInt sizes
    → IsInt (length es)
    → All IsEntry es
    → 2 * Memphy.pagesz ≤ memramsz
    → (os : Os) × (main junk dev s.system.sched s.system.pc
          (some (print_config time_slot num_cpus memramsz sizes es))
        ≡ some (some os))
      × IsRam os.mram
      × (length os.mswp ≡ 4)
      × (os.events ≡ num_cpus + 1)
      × (let x : Fixed = record { num_cpus = num_cpus; time_slot = time_slot; files = files } in
          let jobs = (config_of time_slot num_cpus memramsz sizes es).ld_processes in
          (w : World)
          → Run x (first_world x (with_devices s dev os) jobs) w
          → IsValid w.shared.prio w.shared.system.sched
            × ((i : ℕ) (c : Cpu)
                → w.cpus i ≡ some c
                → c.proc ≢ null
                → (w.shared.allocated c.proc ≡ true)
                  × ((j : ℕ) (d : Cpu) → j ≢ i → w.cpus j ≡ some d → d.proc ≢ c.proc))
            × (onto w.arrivals w.jobs ≡ jobs)
            × IsPrompt w.arrivals)
main-Run junk dev time_slot num_cpus memramsz sizes es files s h h' h'' four small few entries
      room =
    let u : Setup = record { prio = λ p. 0; code_size = λ p. 0; time_slot = time_slot } in
    let (os, made, ram, swaps, events, reach) =
      main-Reach junk dev s.system.sched s.system.pc u num_cpus memramsz sizes es h h' h'' four
        small few entries room in
    let x : Fixed = record { num_cpus = num_cpus; time_slot = time_slot; files = files } in
    let jobs = (config_of time_slot num_cpus memramsz sizes es).ld_processes in
    (
      os,
      made,
      ram,
      swaps,
      events,
      λ w run.
          let (valid, held, freed) = simulation_safe x (with_devices s dev os) jobs w run in
          let (order, prompt, stops) = loads_in_order x (with_devices s dev os) jobs w run in
          (
            valid,
            λ i c running ne.
                let (l, there, unqueued, alone) = held i c running ne in (there, alone),
            order,
            prompt,
          ),
    )

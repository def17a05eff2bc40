-- ===== src/Simulation/Progress.antt =====
-- What keeps the simulation going.
use os_assignment.Base.{ℕ, ◌+◌, ◌<◌, ◌≡◌, false}
use os_assignment.Timer.{System, working, collect}
use os_assignment.Region.{Mm}
use os_assignment.Instruction.{Inst}
use os_assignment.Simulation.Threads.{Fixed, World, Step, called, Run}
use os_assignment.Simulation.Going.{Going}

-- Steps of the timer alone lead to a world where the thread `i`, let go in its `next_slot`, wakes.
abbrev pub WakesAlone : Fixed → World → ℕ → Type 0
WakesAlone x w i =
    (t : System) × (let z = record w { timer = t } in
      Run x w z
      × Step x z (
          called z i (record (w.timer.device i) {
            done = false;
            place = working;
            slots = (w.timer.device i).slots + 1;
          })))

-- Steps of the timer alone lead to a world where it waits for the thread `k`, which has neither
-- called `next_slot` nor detached, and there a step is possible, or something is lacking.
abbrev pub WaitsForThread : Fixed → ℕ → (ℕ → Inst) → Mm → World → Type 0
WaitsForThread x p text left w =
    (t : System) × (k : ℕ) × (let z = record w { timer = t } in
      Run x w z
      × (k < x.num_cpus + 1)
      × ((fsh : ℕ) × (t.phase ≡ collect k fsh))
      × ((t.device k).done ≡ false)
      × ((t.device k).fsh ≡ false)
      × Going x p text left z)

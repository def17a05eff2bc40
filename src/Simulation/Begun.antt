-- ===== src/Simulation/Begun.antt =====
-- loader.c, os.c: where a process is that the loader has read.
use os_assignment.Base.{ℕ, ◌+◌, ◌%◌, ◌^◌, ◌≡◌, refl, Option, none, some, List, [], ◌∷◌}
use os_assignment.Instruction.{Inst}
use os_assignment.Stdio.{uint, scan_numbers}
use os_assignment.Loader.{Pcb, load_from, take, load}
use os_assignment.Config.{Job}
use os_assignment.Simulation.{Shared, with_pcb, loaded_pcb, load_job}

-- A process that `load` gives is at its first instruction.
abbrev AtStart : Option (Option (Pcb × ℕ)) → Type 0
AtStart none = Unit
AtStart (some none) = Unit
AtStart (some (some (pcb, next))) = pcb.pc ≡ 0

abbrev with_text : ℕ → List ℕ → ℕ → ℕ → Option (Option (ℕ → Inst)) → Option (Option (Pcb × ℕ))
with_text avail_pid path priority size o = elim o [
  | none ↦ none
  | some none ↦ some none
  | some (some text) ↦ some (
      some (
        record {
          pid = avail_pid;
          priority = priority;
          path = take 16 path;
          code = record { text = text; size = size };
          pc = 0;
          bp = 2 ^ 10;
        },
        (avail_pid + 1) % 2 ^ 32,
      ))
]

with_text-AtStart :
    (avail_pid : ℕ) (path : List ℕ) (priority size : ℕ) (o : Option (Option (ℕ → Inst)))
    → AtStart (with_text avail_pid path priority size o)
with_text-AtStart avail_pid path priority size none = tt
with_text-AtStart avail_pid path priority size (some none) = tt
with_text-AtStart avail_pid path priority size (some (some text)) = refl

abbrev behind_header :
    (ℕ → Inst) → ℕ → List ℕ → Option (List ℕ × List ℕ) → Option (Option (Pcb × ℕ))
behind_header junk avail_pid path r = elim r [
  | some (priority ∷ size ∷ [], rest) ↦
      with_text avail_pid path priority size
        (load_from size 0 junk (record { rest = rest; opcode = none; buf = none }))
  | _ ↦ none
]

header-AtStart :
    (junk : ℕ → Inst) (avail_pid : ℕ) (path : List ℕ) (r : Option (List ℕ × List ℕ))
    → AtStart (behind_header junk avail_pid path r)
header-AtStart junk avail_pid path none = tt
header-AtStart junk avail_pid path (some ([], rest)) = tt
header-AtStart junk avail_pid path (some (a ∷ [], rest)) = tt
header-AtStart junk avail_pid path (some (a ∷ b ∷ [], rest)) =
    with_text-AtStart avail_pid path a b
      (load_from b 0 junk (record { rest = rest; opcode = none; buf = none }))
header-AtStart junk avail_pid path (some (a ∷ b ∷ c ∷ more, rest)) = tt

load-AtStart :
    (junk : ℕ → Inst) (avail_pid : ℕ) (path : List ℕ) (file : Option (List ℕ))
    → AtStart (load junk avail_pid path file)
unfolding load
load-AtStart junk avail_pid path none = tt
load-AtStart junk avail_pid path (some file) =
    header-AtStart junk avail_pid path (scan_numbers uint 2 file)

-- The same for the job that the loader has read.
loaded_pcb-AtStart :
    (s t : Shared) (proc : ℕ) (job : Job) (o : Option (Option (Pcb × ℕ)))
    → AtStart o
    → loaded_pcb s proc job o ≡ some (some t)
    → (pcb : Pcb) × (next : ℕ) × (with_pcb s proc job pcb next ≡ t) × (pcb.pc ≡ 0)
loaded_pcb-AtStart s t proc job none h e = absurd (cc)
loaded_pcb-AtStart s t proc job (some none) h e = absurd (cc)
loaded_pcb-AtStart s t proc job (some (some (pcb, next))) h e = (pcb, next, cc, h)

pub load_job-AtStart :
    (files : List ℕ → Option (List ℕ)) (junk : ℕ → Inst) (s t : Shared) (proc : ℕ) (job : Job)
    → load_job files junk s proc job ≡ some (some t)
    → (pcb : Pcb) × (next : ℕ) × (with_pcb s proc job pcb next ≡ t) × (pcb.pc ≡ 0)
unfolding load_job
load_job-AtStart files junk s t proc job e =
    loaded_pcb-AtStart s t proc job _ (load-AtStart junk s.avail_pid job.path (files job.path)) e

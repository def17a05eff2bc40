-- ===== src/Simulation/Loaded.antt =====
-- os.c: what the two halves of `ld_routine` leave when they have a result.
use os_assignment.Base.{ℕ, ◌≡◌, refl, subst, Option, none, some, List}
use os_assignment.Sched.{Sched, add_mlq_proc}
use os_assignment.Memphy.{Memphy}
use os_assignment.Region.{Mm}
use os_assignment.Map.{Region}
use os_assignment.Syscall.{Kernel}
use os_assignment.Instruction.{Inst}
use os_assignment.Loader.{Pcb}
use os_assignment.Config.{Job}
use os_assignment.Simulation.{
  Shared, with_pcb, loaded_pcb, with_sched, with_memory, load_job, add_job,
}
use os_assignment.Simulation.Slot.{IsSame}

loaded_pcb-with_pcb :
    (s t : Shared) (proc : ℕ) (job : Job) (o : Option (Option (Pcb × ℕ)))
    → loaded_pcb s proc job o ≡ some (some t)
    → (pcb : Pcb) × (avail_pid : ℕ) × (with_pcb s proc job pcb avail_pid ≡ t)
loaded_pcb-with_pcb s t proc job none e = absurd (cc)
loaded_pcb-with_pcb s t proc job (some none) e = absurd (cc)
loaded_pcb-with_pcb s t proc job (some (some (pcb, avail_pid))) e = (pcb, avail_pid, cc)

-- What `add_job` leaves: the process is in the scheduler, and the priorities, the programs and the
-- allocated blocks are as before.
pub record IsAdded (s : Shared) (proc : ℕ) (t : Shared) : Type 0 where
  pub sched : add_mlq_proc s.prio s.system.sched proc ≡ some (t.system.sched)
  pub pc : t.system.pc ≡ s.system.pc
  pub same : IsSame s.prio s.code s.allocated t

with_sched-IsAdded :
    (s t : Shared) (proc : ℕ) (k : Kernel) (o : Option Sched)
    → add_mlq_proc s.prio s.system.sched proc ≡ o
    → with_sched s k o ≡ some t
    → IsAdded s proc t
with_sched-IsAdded s t proc k none e ran = absurd (cc)
with_sched-IsAdded s t proc k (some sched) e ran =
    let same : record s { system = record (s.system) { sched = sched }; kernel = k } ≡ t = cc in
    subst (IsAdded s proc) same (record {
      sched = e;
      pc = refl;
      same = record { prio = refl; code = refl; allocated = refl };
    })

with_memory-IsAdded :
    (s t : Shared) (proc : ℕ) (left : Mm) (o : Option (Option Mm × Memphy))
    → with_memory s proc left o ≡ some t
    → IsAdded s proc t
with_memory-IsAdded s t proc left none e = absurd (cc)
with_memory-IsAdded s t proc left (some (mm, mram)) e = with_sched-IsAdded s t proc _ _ refl e

pub load_job-with_pcb :
    (files : List ℕ → Option (List ℕ)) (junk : ℕ → Inst) (s t : Shared) (proc : ℕ) (job : Job)
    → load_job files junk s proc job ≡ some (some t)
    → (pcb : Pcb) × (avail_pid : ℕ) × (with_pcb s proc job pcb avail_pid ≡ t)
unfolding load_job
load_job-with_pcb files junk s t proc job e = loaded_pcb-with_pcb s t proc job _ e

pub add_job-IsAdded :
    (junk : List Region) (left : Mm) (s t : Shared) (proc : ℕ)
    → add_job junk left s proc ≡ some t
    → IsAdded s proc t
unfolding add_job
add_job-IsAdded junk left s t proc e = with_memory-IsAdded s t proc left _ e

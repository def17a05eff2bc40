-- ===== src/Simulation.antt =====
-- os.c: the whole simulation, in one state: the processors with the instructions that they run, the
-- loader, and the timer. Between two calls of a `next_slot` a thread of a processor makes one step,
-- and the loader one for each round of its two loops; each critical section of timer.c is a step.
-- What a freed block holds is read as it was. What `malloc`, the stack and the memory leave behind
-- are arguments, `junk`.
pub mod Slot
pub mod Stops
pub mod Loaded
pub mod Blocks
pub mod Arrivals
pub mod Threads
pub mod Safe
pub mod Keeping
pub mod Turns
pub mod Order
pub mod Halting
pub mod Going
pub mod Progress
pub mod Endless
pub mod Start
pub mod Begun
pub mod Counters
use os_assignment.Base.{
  ℕ, ◌%◌, ◌^◌, Bool, true, false, Option, none, some, List, ◌==◌, if◌then◌else◌, update,
}
use os_assignment.Queue.{null}
use os_assignment.Memphy.{Memphy}
use os_assignment.Sched.{Sched, put_mlq_proc, add_mlq_proc}
use os_assignment.Map.{Region}
use os_assignment.Region.{Mm}
use os_assignment.Process.{init_mm}
use os_assignment.Processor.{Cpu, System, Setup, get_proc, less_one}
use os_assignment.Syscall.{Kernel}
use os_assignment.Instruction.{Inst, CodeSeg, State}
use os_assignment.Instruction
use os_assignment.Loader.{Pcb}
use os_assignment.Loader
use os_assignment.Config.{Job}

-- What the threads share: the scheduler with the program counters, the memories, the fields `prio`
-- and `code` of every process, which blocks of `load` are not freed, and `avail_pid`.
pub record Shared : Type 0 where
  pub system : System
  pub kernel : Kernel
  pub prio : ℕ → ℕ
  pub code : ℕ → CodeSeg
  pub allocated : ℕ → Bool
  pub avail_pid : ℕ

-- What a slot of Processor takes as given, and what an instruction works on: its `krnl_t` points
-- to the lists of the scheduler.
abbrev pub setup_of : ℕ → Shared → Setup
setup_of time_slot s = record {
  prio = s.prio;
  code_size = λ p. (s.code p).size;
  time_slot = time_slot;
}

abbrev pub state_of : Shared → State
state_of s = record {
  kernel = record (s.kernel) {
    running_list = s.system.sched.running_list;
    ready_queue = s.system.sched.ready_queue;
  };
  pc = s.system.pc;
}

-- `run`, whose result the processor drops.
abbrev pub with_state : Shared → Option (ℕ × State) → Option Shared
with_state s none = none
with_state s (some (stat, t)) =
    some (record s { system = record (s.system) { pc = t.pc }; kernel = t.kernel })

unfoldable pub run_proc : ℕ → Shared → ℕ → Option Shared
run_proc junk s proc = with_state s (Instruction.run junk (s.code proc) (state_of s) proc)

-- `get_proc`
unfoldable pub next_proc : ℕ → Shared → Shared × ℕ
next_proc time_slot s =
    let r = get_proc (setup_of time_slot s) s.system in (record s { system = r.0 }, r.1)

-- The slot behind `run`.
abbrev pub after_run : ℕ → ℕ → Option Shared → Option (Shared × Option Cpu)
after_run proc time_left none = none
after_run proc time_left (some s) = some (s, some (record { proc = proc; time_left = time_left }))

-- The slot from the second test on; `none` inside is a processor that has stopped.
unfoldable pub recheck_proc : ℕ → ℕ → Bool → Shared × ℕ → ℕ → Option (Shared × Option Cpu)
recheck_proc time_slot junk done (s, proc) time_left =
    if proc == null
    then some (s, if done then none else some (record { proc = proc; time_left = time_left }))
    else after_run proc (less_one (if time_left == 0 then time_slot else time_left))
        (run_proc junk s proc)

-- The branch for a processor without a process.
unfoldable pub fetch_proc : ℕ → ℕ → Bool → Shared × ℕ → ℕ → Option (Shared × Option Cpu)
fetch_proc time_slot junk done (s, proc) time_left =
    if proc == null
    then some (s, some (record { proc = proc; time_left = time_left }))
    else recheck_proc time_slot junk done (s, proc) time_left

-- `free(proc)`
abbrev pub free_proc : Shared → ℕ → Shared
free_proc s proc = record s { allocated = update s.allocated proc false }

-- The slot behind `put_proc`, where `none` is undefined.
abbrev pub put_back : ℕ → ℕ → Bool → Shared → Option Sched → Option (Shared × Option Cpu)
put_back time_slot junk done s none = none
put_back time_slot junk done s (some sched) =
    recheck_proc time_slot junk done
      (next_proc time_slot (record s { system = record (s.system) { sched = sched } })) 0

-- One round of the loop of `cpu_routine`, up to `next_slot` or to the end of the loop.
unfoldable pub cpu_routine : ℕ → ℕ → Bool → Shared → Cpu → Option (Shared × Option Cpu)
cpu_routine time_slot junk done s c =
    if c.proc == null
    then fetch_proc time_slot junk done (next_proc time_slot s) c.time_left
    else if s.system.pc c.proc == (s.code c.proc).size
    then recheck_proc time_slot junk done (next_proc time_slot (free_proc s c.proc)) 0
    else if c.time_left == 0
    then put_back time_slot junk done s (put_mlq_proc s.prio s.system.sched c.proc)
    else recheck_proc time_slot junk done (s, c.proc) c.time_left

-- `ld_routine` up to the waiting: the block `proc` that `malloc` gives holds what `load` makes of
-- the file of the job, and has the priority of the job, which its field `prio` of 32 bits cuts. The inner `none` is `exit`.
abbrev pub with_pcb : Shared → ℕ → Job → Pcb → ℕ → Shared
with_pcb s proc job pcb avail_pid = record s {
  system = record (s.system) { pc = update s.system.pc proc pcb.pc };
  kernel = record (s.kernel) { pid = update s.kernel.pid proc pcb.pid };
  prio = update s.prio proc (job.prio % 2 ^ 32);
  code = update s.code proc pcb.code;
  allocated = update s.allocated proc true;
  avail_pid = avail_pid;
}

abbrev pub loaded_pcb : Shared → ℕ → Job → Option (Option (Pcb × ℕ)) → Option (Option Shared)
loaded_pcb s proc job none = none
loaded_pcb s proc job (some none) = some none
loaded_pcb s proc job (some (some (pcb, avail_pid))) =
    some (some (with_pcb s proc job pcb avail_pid))

unfoldable pub load_job :
    (List ℕ → Option (List ℕ)) → (ℕ → Inst) → Shared → ℕ → Job → Option (Option Shared)
load_job files junk s proc job =
    loaded_pcb s proc job (Loader.load junk s.avail_pid job.path (files job.path))

-- `ld_routine` from the waiting on: `init_mm`, whose result is dropped, and `add_proc`. When
-- `init_mm` fails, the memory management of the process is what `malloc` has left.
abbrev pub or_left : Mm → Option Mm → Mm
or_left left none = left
or_left left (some mm) = mm

abbrev pub with_sched : Shared → Kernel → Option Sched → Option Shared
with_sched s kernel none = none
with_sched s kernel (some sched) =
    some (record s { system = record (s.system) { sched = sched }; kernel = kernel })

abbrev pub with_memory : Shared → ℕ → Mm → Option (Option Mm × Memphy) → Option Shared
with_memory s proc left none = none
with_memory s proc left (some (mm, mram)) =
    let kernel = record (s.kernel) {
      mm = update s.kernel.mm proc (or_left left mm);
      mram = mram;
    } in
    with_sched s kernel (add_mlq_proc s.prio s.system.sched proc)

unfoldable pub add_job : List Region → Mm → Shared → ℕ → Option Shared
add_job junk left s proc = with_memory s proc left (init_mm junk s.kernel.mram)

-- ===== src/Processor.antt =====
-- os.c, cpu.c: what a processor does in one time slot, from one test of the loop of `cpu_routine`
-- to the next. A slot is one step, so that another processor does not call the scheduler between
-- the `put_proc` and the `get_proc` of one slot. The effect of an instruction on memory, freeing a
-- finished process and printing do not appear.
pub mod Slots
pub mod Runs
pub mod Places
pub mod Alone
use os_assignment.Base.{
  ℕ, ◌+◌, ◌-◌, ◌%◌, ◌^◌, Bool, Option, none, some, ltb, ◌==◌, if◌then◌else◌, update,
}
use os_assignment.Queue.{null}
use os_assignment.Sched.{Sched, get_mlq_proc, put_mlq_proc}

-- The variables `proc` and `time_left` of `cpu_routine`. `time_left` is an `int`, kept as its
-- pattern of 32 bits.
pub record Cpu : Type 0 where
  pub proc : ℕ
  pub time_left : ℕ

-- The scheduler, and the field `pc` of every process.
pub record System : Type 0 where
  pub sched : Sched
  pub pc : ℕ → ℕ

-- What no step changes: the priority and the code size of every process, and the length of the
-- time slice, the pattern of an `int`.
pub record Setup : Type 0 where
  pub prio : ℕ → ℕ
  pub code_size : ℕ → ℕ
  pub time_slot : ℕ

-- `time_left--`: from 0 it gives -1, as it does in a time slice of length 0. Below the least `int`
-- it wraps.
unfoldable pub less_one : ℕ → ℕ
less_one time_left = (time_left + (2 ^ 32 - 1)) % 2 ^ 32

-- What `run` does to the program counter.
unfoldable pub run : Setup → System → ℕ → System
run u s proc =
    if ltb (s.pc proc) (u.code_size proc)
    then record s { pc = update s.pc proc (s.pc proc + 1) }
    else s

-- `get_proc`
unfoldable pub get_proc : Setup → System → System × ℕ
get_proc u s = let r = get_mlq_proc u.prio s.sched in (record s { sched = r.0 }, r.1)

-- The slot from the second test on; `none` is a processor that has stopped.
unfoldable pub recheck : Setup → Bool → System × ℕ → ℕ → System × Option Cpu
recheck u done (s, proc) time_left =
    if proc == null
    then (s, if done then none else some (record { proc = proc; time_left = time_left }))
    else (let slice = if time_left == 0 then u.time_slot else time_left in
        (run u s proc, some (record { proc = proc; time_left = less_one slice })))

-- The branch for a processor without a process, which leaves the loop's body early.
unfoldable pub fetch : Setup → Bool → System × ℕ → ℕ → System × Option Cpu
fetch u done (s, proc) time_left =
    if proc == null
    then (s, some (record { proc = proc; time_left = time_left }))
    else recheck u done (s, proc) time_left

-- One time slot. The outer `none` is an undefined `put_proc`.
unfoldable pub cpu_slot : Setup → Bool → System → Cpu → Option (System × Option Cpu)
cpu_slot u done s c =
    if c.proc == null
    then some (fetch u done (get_proc u s) c.time_left)
    else if s.pc c.proc == u.code_size c.proc
    then some (recheck u done (get_proc u s) 0)
    else if c.time_left == 0
    then elim (put_mlq_proc u.prio s.sched c.proc) [
      | none ↦ none
      | some sched ↦ some (recheck u done (get_proc u (record s { sched = sched })) 0)
    ]
    else some (recheck u done (s, c.proc) c.time_left)

-- ===== src/Ready.antt =====
-- sched.c without MLQ_SCHED: a scheduler of two queues, which the configuration leaves out. `prio`
-- reads the field `priority`. Each operation runs under `queue_lock`, so it is one step here.
pub mod Turns
use os_assignment.Base.{ℕ, Bool, true, not, ◌&&◌, Option, none, some, ◌==◌, if◌then◌else◌, update}
use os_assignment.Queue.{Queue, null, empty, enqueue, dequeue, purgequeue}

-- The static variables; `attached p` says that `p->krnl` holds the addresses of the queues.
pub record Ready : Type 0 where
  pub ready_queue : Queue
  pub run_queue : Queue
  pub running_list : Queue
  pub attached : ℕ → Bool

-- `queue_empty` and `init_scheduler`
unfoldable pub ready_empty : Ready → Bool
ready_empty s = empty s.ready_queue && empty s.run_queue

unfoldable pub init_ready : Ready → Ready
init_ready s = record s {
  ready_queue = record (s.ready_queue) { size = 0 };
  run_queue = record (s.run_queue) { size = 0 };
  running_list = record (s.running_list) { size = 0 };
}

-- The block under `if (proc != NULL)` of `get_proc`.
abbrev pub hand_out : Ready → ℕ → Ready × ℕ
hand_out s proc = if proc == null then (s, proc) else (
  record s { attached = update s.attached proc true; running_list = enqueue s.running_list proc },
  proc,
)

-- `get_proc`
pub get_ready_proc : (ℕ → ℕ) → Ready → Ready × ℕ
get_ready_proc prio s =
    if not (empty s.run_queue)
    then (let r = dequeue prio s.run_queue in hand_out (record s { run_queue = r.0 }) r.1)
    else (let r = dequeue prio s.ready_queue in hand_out (record s { ready_queue = r.0 }) r.1)

-- `put_proc` and `add_proc`; `none` is a NULL process.
pub put_ready_proc : Ready → ℕ → Option Ready
put_ready_proc s proc =
    if proc == null
    then none
    else some (record s {
      attached = update s.attached proc true;
      running_list = (purgequeue s.running_list proc).0;
      run_queue = enqueue s.run_queue proc;
    })

unfoldable pub add_ready_proc : Ready → ℕ → Option Ready
add_ready_proc s proc =
    if proc == null
    then none
    else some (record s {
      attached = update s.attached proc true;
      running_list = (purgequeue s.running_list proc).0;
      ready_queue = enqueue s.ready_queue proc;
    })

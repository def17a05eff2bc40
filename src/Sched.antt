-- ===== src/Sched.antt =====
-- sched.c with MLQ_SCHED defined: the multi-level queue scheduler. `prio` reads the field of
-- that name of the block that a pointer designates. Each operation runs under `queue_lock`, so
-- it is one step here.
pub mod Levels
pub mod Invariant
pub mod Return
pub mod Policy
use os_assignment.Base.{
  ℕ, zero, suc, ◌+◌, ◌-◌, Bool, true, false, not, ◌&&◌, Option, none, some, ltb, ◌==◌,
  if◌then◌else◌, update,
}
use os_assignment.Queue.{Queue, null, empty, enqueue, dequeue, purgequeue}

-- `MAX_PRIO`
abbrev pub max_prio : ℕ
max_prio = 140

-- The static variables of sched.c. `attached p` says that `p->krnl` holds the addresses of the
-- queues, as all three operations set it. A slot is an `int` that is only decremented while it
-- is positive.
pub record Sched : Type 0 where
  pub mlq_ready_queue : ℕ → Queue
  pub slot : ℕ → ℕ
  pub mlq_inited : Bool
  pub ready_queue : Queue
  pub run_queue : Queue
  pub running_list : Queue
  pub attached : ℕ → Bool

-- The loop of `queue_empty`, at level `p` with `n` rounds left.
unfoldable pub levels_empty : (ℕ → Queue) → ℕ → ℕ → Bool
levels_empty ready zero p = true
levels_empty ready (suc n) p = elim (empty (ready p)) [
  | true ↦ levels_empty ready n (p + 1)
  | false ↦ false
]

unfoldable pub queue_empty : Sched → Bool
queue_empty s = levels_empty s.mlq_ready_queue max_prio 0

-- `for (p = 0; p < MAX_PRIO; p++) slot[p] = MAX_PRIO - p`, at `p` with `n` rounds left.
unfoldable pub reset_from : ℕ → ℕ → (ℕ → ℕ) → ℕ → ℕ
reset_from zero p slot = slot
reset_from (suc n) p slot = reset_from n (p + 1) (update slot p (max_prio - p))

unfoldable pub reset_slots : (ℕ → ℕ) → ℕ → ℕ
reset_slots slot = reset_from max_prio 0 slot

-- The first loop of `init_scheduler`: it empties a queue and fills a slot in each round.
unfoldable pub clear_from : ℕ → ℕ → (ℕ → Queue) → ℕ → Queue
clear_from zero i ready = ready
clear_from (suc n) i ready = clear_from n (i + 1) (update ready i (record (ready i) { size = 0 }))

unfoldable pub init_scheduler : Sched → Sched
init_scheduler s = record s {
  mlq_ready_queue = clear_from max_prio 0 s.mlq_ready_queue;
  slot = reset_slots s.slot;
  mlq_inited = true;
  ready_queue = record (s.ready_queue) { size = 0 };
  run_queue = record (s.run_queue) { size = 0 };
  running_list = record (s.running_list) { size = 0 };
}

-- The search for a level with a process and a slot, at level `p` with `n` rounds left.
unfoldable pub choose_from : (ℕ → Queue) → (ℕ → ℕ) → ℕ → ℕ → Option ℕ
choose_from ready slot zero p = none
choose_from ready slot (suc n) p = elim (not (empty (ready p)) && ltb 0 (slot p)) [
  | true ↦ some p
  | false ↦ choose_from ready slot n (p + 1)
]

unfoldable pub choose : Sched → Option ℕ
choose s = choose_from s.mlq_ready_queue s.slot max_prio 0

-- The block under `if (chosen_prio >= 0)`.
unfoldable pub dispatch : (ℕ → ℕ) → Sched → ℕ → Sched × ℕ
dispatch prio s level =
    let (rest, proc) = dequeue prio (s.mlq_ready_queue level) in
    let ready = update s.mlq_ready_queue level rest in
    if proc == null then (record s { mlq_ready_queue = ready }, null) else (
      record s {
        mlq_ready_queue = ready;
        slot = update s.slot level (s.slot level - 1);
        attached = update s.attached proc true;
        running_list = enqueue s.running_list proc;
      },
      proc,
    )

-- What follows the second search.
unfoldable pub dispatch_chosen : (ℕ → ℕ) → Sched → Option ℕ → Sched × ℕ
dispatch_chosen prio s none = (s, null)
dispatch_chosen prio s (some level) = dispatch prio s level

-- The block under `if (!mlq_inited)`.
unfoldable pub refill : Sched → Sched
refill s = record s { slot = reset_slots s.slot; mlq_inited = true }

-- `get_mlq_proc` behind its first `if`.
unfoldable pub get_from : (ℕ → ℕ) → Sched → Sched × ℕ
get_from prio s = if queue_empty s then (s, null) else elim (choose s) [
  | some level ↦ dispatch prio s level
  | none ↦
      let full = record s { slot = reset_slots s.slot } in dispatch_chosen prio full (choose full)
]

unfoldable pub get_mlq_proc : (ℕ → ℕ) → Sched → Sched × ℕ
unfolding refill get_from
get_mlq_proc prio s = get_from prio (if s.mlq_inited then s else refill s)

-- `put_mlq_proc`, and `add_mlq_proc` with the same body. `none` is undefined behaviour: a NULL
-- process, or a priority outside the array of queues.
unfoldable pub put_mlq_proc : (ℕ → ℕ) → Sched → ℕ → Option Sched
put_mlq_proc prio s proc =
    if proc == null
    then none
    else if ltb (prio proc) max_prio
    then some (record s {
      attached = update s.attached proc true;
      running_list = (purgequeue s.running_list proc).0;
      mlq_ready_queue =
          update s.mlq_ready_queue (prio proc) (enqueue (s.mlq_ready_queue (prio proc)) proc);
    })
    else none

unfoldable pub add_mlq_proc : (ℕ → ℕ) → Sched → ℕ → Option Sched
add_mlq_proc prio s proc =
    if proc == null
    then none
    else if ltb (prio proc) max_prio
    then some (record s {
      attached = update s.attached proc true;
      running_list = (purgequeue s.running_list proc).0;
      mlq_ready_queue =
          update s.mlq_ready_queue (prio proc) (enqueue (s.mlq_ready_queue (prio proc)) proc);
    })
    else none

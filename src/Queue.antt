-- ===== src/Queue.antt =====
-- queue.c and queue.h: a queue of at most 50 pointers to process control blocks, held in the
-- first `size` cells of an array. A pointer is a number, and NULL is 0. Every call in sched.c
-- passes the address of a static queue, so the argument `q` is never NULL here and the tests
-- `q == NULL` do not appear. An operation that updates `*q` returns the new queue.
pub mod Shift
pub mod Search
pub mod Laws
use os_assignment.Base.{
  ℕ, zero, suc, ◌+◌, ◌-◌, Bool, true, false, Option, none, some, List, ltb, leb, ◌==◌,
  if◌then◌else◌, update, window,
}

-- `MAX_QUEUE_SIZE`
abbrev pub max_queue_size : ℕ
max_queue_size = 50

abbrev pub null : ℕ
null = 0

-- `struct queue_t`
pub record Queue : Type 0 where
  pub proc : ℕ → ℕ
  pub size : ℕ

unfoldable pub empty : Queue → Bool
empty q = q.size == 0

unfoldable pub enqueue : Queue → ℕ → Queue
enqueue q proc =
    if proc == null
    then q
    else if leb max_queue_size q.size
    then q
    else record q { proc = update q.proc q.size proc; size = q.size + 1 }

-- `for (j = i; j < size - 1; j++) proc[j] = proc[j + 1]`, with `n` rounds left.
pub shift : ℕ → ℕ → (ℕ → ℕ) → ℕ → ℕ
shift zero j a = a
shift (suc n) j a = shift n (j + 1) (update a j (a (j + 1)))

-- The shift of both removals, from cell `i` on, and `size--`.
pub remove_at : Queue → ℕ → Queue
unfolding shift
remove_at q i = record q { proc = shift (q.size - 1 - i) i q.proc; size = q.size - 1 }

-- The first loop of `dequeue`, at index `i` with `n` rounds left; `prio` reads the field of that
-- name of the block that a pointer designates.
pub best_from : (ℕ → ℕ) → (ℕ → ℕ) → ℕ → ℕ → ℕ → ℕ
best_from prio a zero i best = best
best_from prio a (suc n) i best =
    best_from prio a n (i + 1) (if ltb (prio (a i)) (prio (a best)) then i else best)

unfoldable pub dequeue : (ℕ → ℕ) → Queue → Queue × ℕ
unfolding empty remove_at best_from
dequeue prio q =
    let best = best_from prio q.proc (q.size - 1) 1 0 in
    if empty q then (q, null) else (remove_at q best, q.proc best)

-- The search of `purgequeue`, at index `i` with `n` rounds left.
pub index_from : ℕ → (ℕ → ℕ) → ℕ → ℕ → Option ℕ
index_from proc a zero i = none
index_from proc a (suc n) i = elim (a i == proc) [
  | true ↦ some i
  | false ↦ index_from proc a n (i + 1)
]

pub purge_found : Queue → Option ℕ → Queue × ℕ
unfolding remove_at
purge_found q none = (q, null)
purge_found q (some i) = (remove_at q i, q.proc i)

unfoldable pub purgequeue : Queue → ℕ → Queue × ℕ
unfolding empty purge_found index_from
purgequeue q proc =
    if empty q
    then (q, null)
    else if proc == null
    then (q, null)
    else purge_found q (index_from proc q.proc q.size 0)

-- The processes in the queue, in order.
abbrev pub contents : Queue → List ℕ
contents q = window q.proc 0 q.size

-- ===== src/Sched/Return.antt =====
-- Giving a process to the scheduler: `put_mlq_proc` and `add_mlq_proc`.
use os_assignment.Base.{
  ℕ, ◌≤◌, ◌<◌, ◌≡◌, ◌≢◌, refl, true, arith, leb, if◌then◌else◌, update, All, some,
}
use os_assignment.Queue.{null, max_queue_size, contents, enqueue, purgequeue}
use os_assignment.Queue.Laws.{
  size-enqueue, size-purgequeue-le, All-enqueue, contents-enqueue, contents-purgequeue, snoc, erase,
}
use os_assignment.Sched.{Sched, max_prio, put_mlq_proc, add_mlq_proc}
use os_assignment.Sched.Invariant.{IsValid, at_levels}

-- `t` is `s` with process `p` taken off the running list and appended to the queue of its level.
-- A level that holds 50 processes already drops it.
pub record IsReturned (prio : ℕ → ℕ) (s : Sched) (p : ℕ) (t : Sched) : Type 0 where
  pub running : contents t.running_list ≡ erase p (contents s.running_list)
  pub level : contents (t.mlq_ready_queue (prio p)) ≡ (
      if leb max_queue_size (s.mlq_ready_queue (prio p)).size
      then contents (s.mlq_ready_queue (prio p))
      else snoc (contents (s.mlq_ready_queue (prio p))) p)
  pub other_queues : (i : ℕ) → i ≢ prio p → t.mlq_ready_queue i ≡ s.mlq_ready_queue i
  pub slots : t.slot ≡ s.slot
  pub attached : t.attached p ≡ true

abbrev returned : (ℕ → ℕ) → Sched → ℕ → Sched
returned prio s p = record s {
  attached = update s.attached p true;
  running_list = (purgequeue s.running_list p).0;
  mlq_ready_queue = update s.mlq_ready_queue (prio p) (enqueue (s.mlq_ready_queue (prio p)) p);
}

returned-IsReturned :
    (prio : ℕ → ℕ) (s : Sched) (p : ℕ) → p ≢ null → IsReturned prio s p (returned prio s p)
returned-IsReturned prio s p h = record {
  running = contents-purgequeue s.running_list p h;
  level = ground (arith, contents-enqueue (s.mlq_ready_queue (prio p)) p);
  other_queues = λ i ne. ground arith;
  slots = refl;
  attached = ground arith;
}

other_level :
    (prio : ℕ → ℕ) (s : Sched) (p i : ℕ)
    → i ≢ prio p
    → (returned prio s p).mlq_ready_queue i ≡ s.mlq_ready_queue i
other_level prio s p i ne = ground arith

returned-IsValid :
    (prio : ℕ → ℕ) (s : Sched) (p : ℕ)
    → p ≢ null
    → prio p < max_prio
    → IsValid prio s
    → IsValid prio (returned prio s p)
returned-IsValid prio s p h l v =
    let q = s.mlq_ready_queue (prio p) in
    let here : (returned prio s p).mlq_ready_queue (prio p) ≡ enqueue q p = ground arith in
    record {
      inited = v.inited;
      budget = v.budget;
      fits =
          at_levels (λ i. ((returned prio s p).mlq_ready_queue i).size ≤ max_queue_size) (prio p)
            (rw here (size-enqueue q p (v.fits (prio p) l))) λ i m ne. ground (arith, v.fits i m);
      running_fits = omega (arith, size-purgequeue-le s.running_list p, v.running_fits);
      levels =
          at_levels
            (λ i.
              All (λ x. (prio x ≡ i) × (x ≢ null))
                (contents ((returned prio s p).mlq_ready_queue i)))
            (prio p) (rw here (All-enqueue _ q p (refl, h) (v.levels (prio p) l)))
            λ i m ne. rw (other_level prio s p i ne) (v.levels i m);
    }

-- `put_mlq_proc` returns for every process other than NULL of a priority below 140: it takes the process off the
-- running list, appends it to the queue of its level unless that is full, changes no other level
-- and no slot, and keeps a valid scheduler valid.
pub put_mlq_proc-IsReturned :
    (prio : ℕ → ℕ) (s : Sched) (p : ℕ)
    → p ≢ null
    → prio p < max_prio
    → (t : Sched) × (put_mlq_proc prio s p ≡ some t)
      × IsReturned prio s p t
      × (IsValid prio s → IsValid prio t)
unfolding put_mlq_proc
put_mlq_proc-IsReturned prio s p h l =
    (returned prio s p, ground arith, returned-IsReturned prio s p h, returned-IsValid prio s p h l)

-- `add_mlq_proc` does to a new process what `put_mlq_proc` does to a running one.
pub add_mlq_proc-eq-put_mlq_proc :
    (prio : ℕ → ℕ) (s : Sched) (p : ℕ) → add_mlq_proc prio s p ≡ put_mlq_proc prio s p
unfolding add_mlq_proc put_mlq_proc
add_mlq_proc-eq-put_mlq_proc prio s p = refl

-- ===== src/Sched/Invariant.antt =====
-- The invariant of the scheduler, and what one dispatch from a level does.
use native.Mathlib.Decide.{ℕ_discrete}
use os_assignment.Base.{
  ℕ, ◌+◌, ◌-◌, ◌≤◌, ◌<◌, ◌≡◌, ◌≢◌, refl, true, false, ◌∷◌, arith, ◌==◌, All, subst, sym, ◌∙◌, List,
  [],
}
use os_assignment.Queue.{Queue, null, max_queue_size, contents, enqueue, dequeue}
use os_assignment.Queue.Laws.{dequeue_fifo, size-dequeue, size-enqueue}
use os_assignment.Sched.{Sched, max_prio, init_scheduler, reset_slots, clear_from, dispatch}
use os_assignment.Sched.Levels.{reset_slots_lem, clear_lem}

-- Level `i` holds processes of priority `i`, no queue holds more than 50, and no level has more
-- than its `140 - i` slots.
pub record IsValid (prio : ℕ → ℕ) (s : Sched) : Type 0 where
  pub inited : s.mlq_inited ≡ true
  pub budget : (i : ℕ) → i < max_prio → s.slot i ≤ max_prio - i
  pub fits : (i : ℕ) → i < max_prio → (s.mlq_ready_queue i).size ≤ max_queue_size
  pub running_fits : s.running_list.size ≤ max_queue_size
  pub levels :
      (i : ℕ) → i < max_prio → All (λ x. (prio x ≡ i) × (x ≢ null)) (contents (s.mlq_ready_queue i))

-- `r` is what a dispatch from level `k` of `s` gives: the oldest process of the level, which is
-- now in the running list, and one slot less for the level.
pub record IsDispatched (s : Sched) (k : ℕ) (r : Sched × ℕ) : Type 0 where
  pub proc : r.1 ≢ null
  pub oldest : contents (s.mlq_ready_queue k) ≡ r.1 ∷ contents (r.0.mlq_ready_queue k)
  pub size : (r.0.mlq_ready_queue k).size + 1 ≡ (s.mlq_ready_queue k).size
  pub other_queues : (i : ℕ) → i ≢ k → r.0.mlq_ready_queue i ≡ s.mlq_ready_queue i
  pub charged : r.0.slot k + 1 ≡ s.slot k
  pub other_slots : (i : ℕ) → i ≢ k → r.0.slot i ≡ s.slot i
  pub running : r.0.running_list ≡ enqueue s.running_list r.1
  pub attached : r.0.attached r.1 ≡ true
  pub inited : r.0.mlq_inited ≡ s.mlq_inited

dispatch_some :
    (prio : ℕ → ℕ) (s : Sched) (k : ℕ)
    → (dequeue prio (s.mlq_ready_queue k)).1 ≢ null
    → 0 < s.slot k
    → contents (s.mlq_ready_queue k)
      ≡ (dequeue prio (s.mlq_ready_queue k)).1 ∷ contents (dequeue prio (s.mlq_ready_queue k)).0
    → (s.mlq_ready_queue k).size ≢ 0
    → IsDispatched s k (dispatch prio s k)
unfolding dispatch
dispatch_some prio s k h slots e ne =
    let there : ((dequeue prio (s.mlq_ready_queue k)).1 == null) ≡ false = ground arith in
    rw (there, dispatch)
      (record {
        proc = h;
        oldest = ground arith;
        size = ground (arith, size-dequeue prio (s.mlq_ready_queue k));
        other_queues = λ i ne'. ground arith;
        charged = ground arith;
        other_slots = λ i ne'. ground arith;
        running = refl;
        attached = ground arith;
        inited = refl;
      })

All-level :
    (prio : ℕ → ℕ) (k : ℕ) (xs : List ℕ)
    → All (λ x. (prio x ≡ k) × (x ≢ null)) xs
    → All (λ x. prio x ≡ k) xs
All-level prio k [] h = tt
All-level prio k (x ∷ xs) h = (h.0.0, All-level prio k xs h.1)

-- In a valid scheduler a level with a process and a slot left is dispatched from.
pub dispatch-IsDispatched :
    (prio : ℕ → ℕ) (s : Sched) (k : ℕ)
    → IsValid prio s
    → k < max_prio
    → (s.mlq_ready_queue k).size ≢ 0
    → 0 < s.slot k
    → IsDispatched s k (dispatch prio s k)
dispatch-IsDispatched prio s k v h ne slots =
    let e = dequeue_fifo prio k (s.mlq_ready_queue k) ne (All-level prio k _ (v.levels k h)) in
    dispatch_some prio s k (subst (All (λ x. (prio x ≡ k) × (x ≢ null))) e (v.levels k h)).0.1 slots
      e ne

-- A property of all levels, from level `k` and the others.
pub at_levels {κ} :
    (P : ℕ → Type κ) (k : ℕ)
    → P k
    → ((i : ℕ) → i < max_prio → i ≢ k → P i)
    → (i : ℕ) → i < max_prio
    → P i
at_levels P k here there i l = elim (ℕ_discrete i k) [
  | yes e ↦ subst P (sym e) here
  | no ne ↦ there i l ne
]

-- A dispatch keeps the scheduler valid.
pub IsDispatched-IsValid :
    (prio : ℕ → ℕ) (s : Sched) (k : ℕ) (r : Sched × ℕ)
    → IsValid prio s
    → k < max_prio
    → IsDispatched s k r
    → IsValid prio r.0
IsDispatched-IsValid prio s k r v h d = record {
  inited = d.inited ∙ v.inited;
  budget =
      at_levels (λ i. r.0.slot i ≤ max_prio - i) k (omega (arith, d.charged, v.budget k h))
        λ i l ne. rw (d.other_slots i ne) (v.budget i l);
  fits =
      at_levels (λ i. (r.0.mlq_ready_queue i).size ≤ max_queue_size) k
        (omega (arith, d.size, v.fits k h)) λ i l ne. rw (d.other_queues i ne) (v.fits i l);
  running_fits = rw d.running (size-enqueue s.running_list r.1 v.running_fits);
  levels =
      at_levels (λ i. All (λ x. (prio x ≡ i) × (x ≢ null)) (contents (r.0.mlq_ready_queue i))) k
        (subst (All (λ x. (prio x ≡ k) × (x ≢ null))) d.oldest (v.levels k h)).1
        λ i l ne. rw (d.other_queues i ne) (v.levels i l);
}

pub refresh-IsValid :
    (prio : ℕ → ℕ) (s : Sched)
    → IsValid prio s
    → IsValid prio (record s { slot = reset_slots s.slot })
refresh-IsValid prio s v = record {
  inited = v.inited;
  budget = λ i l. omega (arith, reset_slots_lem s.slot i l);
  fits = v.fits;
  running_fits = v.running_fits;
  levels = v.levels;
}

contents_of_empty : (q : Queue) → q.size ≡ 0 → contents q ≡ []
contents_of_empty q e = rw e

-- After `init_scheduler` the state is valid, and every level is empty and has all its slots.
pub init_scheduler-IsValid :
    (prio : ℕ → ℕ) (s : Sched)
    → IsValid prio (init_scheduler s)
      × ((i : ℕ)
          → i < max_prio
          → ((init_scheduler s).slot i ≡ max_prio - i)
            × (contents ((init_scheduler s).mlq_ready_queue i) ≡ []))
unfolding init_scheduler
init_scheduler-IsValid prio s = (
  record {
    inited = refl;
    budget = λ i l. omega (arith, reset_slots_lem s.slot i l);
    fits = λ i l. omega (arith, clear_lem s.mlq_ready_queue i l);
    running_fits = omega arith;
    levels = λ i l.
        rw
          (contents_of_empty (clear_from max_prio 0 s.mlq_ready_queue i)
            (clear_lem s.mlq_ready_queue i l))
          tt;
  },
  λ i l. (
    reset_slots_lem s.slot i l,
    contents_of_empty (clear_from max_prio 0 s.mlq_ready_queue i) (clear_lem s.mlq_ready_queue i l),
  ),
)

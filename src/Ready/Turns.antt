-- ===== src/Ready/Turns.antt =====
-- Which queue `get_proc` takes a process from.
use os_assignment.Base.{
  ℕ, ◌≤◌, ◌<◌, ◌≡◌, ◌≢◌, refl, sym, subst, ◌∙◌, true, false, not, some, List, [], ◌∷◌, ◌++◌, ◌==◌,
  All, inl, inr, update, arith, Bool-cases, if_eq_true, if_eq_false,
}
use os_assignment.Queue.{Queue, null, max_queue_size, contents, empty, enqueue, dequeue, purgequeue}
use os_assignment.Queue.Laws.{dequeue_lem, All-enqueue}
use os_assignment.Ready.{Ready, hand_out, get_ready_proc, put_ready_proc}

-- No queue holds NULL.
pub record IsReady (s : Ready) : Type 0 where
  pub ready : All (λ x. x ≢ null) (contents s.ready_queue)
  pub run : All (λ x. x ≢ null) (contents s.run_queue)

-- `p` is the first process of least priority value in the queue, and `r` the queue without it.
pub record IsTaken (prio : ℕ → ℕ) (q r : Queue) (p : ℕ) : Type 0 where
  pub front : List ℕ
  pub back : List ℕ
  pub before : contents q ≡ front ++ (p ∷ back)
  pub after : contents r ≡ front ++ back
  pub less : All (λ x. prio p < prio x) front
  pub least : All (λ x. prio p ≤ prio x) back

-- What `get_proc` does.
pub data Turn (prio : ℕ → ℕ) (s : Ready) (r : Ready × ℕ) : Type 0 where
  idle : s.run_queue.size ≡ 0 → s.ready_queue.size ≡ 0 → r ≡ (s, null) → Turn prio s r
  from_run :
      s.run_queue.size ≢ 0
      → r.1 ≢ null
      → IsTaken prio s.run_queue r.0.run_queue r.1
      → r.0.ready_queue ≡ s.ready_queue
      → r.0.running_list ≡ enqueue s.running_list r.1
      → Turn prio s r
  from_ready :
      s.run_queue.size ≡ 0
      → r.1 ≢ null
      → IsTaken prio s.ready_queue r.0.ready_queue r.1
      → r.0.run_queue ≡ s.run_queue
      → r.0.running_list ≡ enqueue s.running_list r.1
      → Turn prio s r

taken :
    (prio : ℕ → ℕ) (q : Queue) → q.size ≢ 0 → IsTaken prio q (dequeue prio q).0 (dequeue prio q).1
taken prio q h =
    let (xs, ys, e, f, less, least) = dequeue_lem prio q h in
    record { front = xs; back = ys; before = e; after = f; less = less; least = least }

middle : (P : ℕ → Type 0) (xs : List ℕ) (p : ℕ) (ys : List ℕ) → All P (xs ++ (p ∷ ys)) → P p
middle P [] p ys h = h.0
middle P (x ∷ xs) p ys h = middle P xs p ys h.1

taken-null :
    (prio : ℕ → ℕ) (q : Queue)
    → q.size ≢ 0
    → All (λ x. x ≢ null) (contents q)
    → (dequeue prio q).1 ≢ null
taken-null prio q h all =
    let t = taken prio q h in
    middle (λ x. x ≢ null) t.front (dequeue prio q).1 t.back
      (subst (All (λ x. x ≢ null)) t.before all)

hand_out_some :
    (s : Ready) (p : ℕ)
    → p ≢ null
    → hand_out s p ≡ (
      record s { attached = update s.attached p true; running_list = enqueue s.running_list p },
      p,
    )
hand_out_some s p h = let there : (p == null) ≡ false = ground arith in if_eq_false _ _ there

dequeue_empty : (prio : ℕ → ℕ) (q : Queue) → q.size ≡ 0 → dequeue prio q ≡ (q, null)
unfolding dequeue empty
dequeue_empty prio q h =
    let none_there : (q.size == 0) ≡ true = ground arith in if_eq_true _ _ none_there

-- On queues that do not hold NULL, `get_proc` returns NULL and changes nothing when both queues are
-- empty. Else it takes the first process of least priority value from the queue of the processes
-- that have run, and only if that is empty from the queue of the new ones; the other queue stays as
-- it is, and the process goes to the running list.
pub get_ready_proc-Turn :
    (prio : ℕ → ℕ) (s : Ready) → IsReady s → Turn prio s (get_ready_proc prio s)
unfolding get_ready_proc empty
get_ready_proc-Turn prio s h = elim (Bool-cases (not (s.run_queue.size == 0))) [
  | inl some_run ↦
      let ne : s.run_queue.size ≢ 0 = ground arith in
      let proc = taken-null prio s.run_queue ne h.run in
      subst (Turn prio s)
        (sym (
          if_eq_true _ _ some_run
          ∙ hand_out_some (record s { run_queue = (dequeue prio s.run_queue).0 })
              (dequeue prio s.run_queue).1 proc))
        (from_run ne proc (taken prio s.run_queue ne) refl refl)
  | inr none_run ↦
      let e : s.run_queue.size ≡ 0 = ground arith in
      subst (Turn prio s) (sym (if_eq_false _ _ none_run))
        (elim (Bool-cases (s.ready_queue.size == 0)) [
          | inl none_ready ↦
              let e' : s.ready_queue.size ≡ 0 = ground arith in
              let nothing = dequeue_empty prio s.ready_queue e' in
              subst (λ (r : Queue × ℕ). Turn prio s (hand_out (record s { ready_queue = r.0 }) r.1))
                (sym nothing) (idle e e' refl)
          | inr some_ready ↦
              let ne : s.ready_queue.size ≢ 0 = ground arith in
              let proc = taken-null prio s.ready_queue ne h.ready in
              subst (Turn prio s)
                (sym (
                  hand_out_some (record s { ready_queue = (dequeue prio s.ready_queue).0 })
                    (dequeue prio s.ready_queue).1 proc))
                (from_ready e proc (taken prio s.ready_queue ne) refl refl)
        ])
]

-- A result that comes from the queue of the processes that have run.
from_run_only :
    (prio : ℕ → ℕ) (s : Ready) (r : Ready × ℕ)
    → s.run_queue.size ≢ 0
    → Turn prio s r
    → (r.1 ≢ null) × (r.0.ready_queue ≡ s.ready_queue)
from_run_only prio s r h (idle e e' same) = absurd (h e)
from_run_only prio s r h (from_run ne proc t ready running) = (proc, ready)
from_run_only prio s r h (from_ready e proc t run running) = absurd (h e)

-- When a processor puts its process back and takes the next one, it gets none of the new processes,
-- however long those wait: with queues that do not hold NULL and room among the processes that
-- have run, `put_proc` succeeds, and `get_proc` then returns a process and leaves the queue of the
-- new ones as it was.
pub get_ready_proc-put_ready_proc :
    (prio : ℕ → ℕ) (s : Ready) (p : ℕ)
    → IsReady s
    → p ≢ null
    → s.run_queue.size < max_queue_size
    → (t : Ready) × (put_ready_proc s p ≡ some t)
      × ((get_ready_proc prio t).1 ≢ null)
      × ((get_ready_proc prio t).0.ready_queue ≡ s.ready_queue)
unfolding put_ready_proc enqueue
get_ready_proc-put_ready_proc prio s p h ne room =
    let t : Ready = record s {
      attached = update s.attached p true;
      running_list = (purgequeue s.running_list p).0;
      run_queue = enqueue s.run_queue p;
    } in
    let there : (p == null) ≡ false = ground arith in
    let not_empty : t.run_queue.size ≢ 0 = ground arith in
    let ready : IsReady t = record {
      ready = h.ready;
      run = All-enqueue (λ x. x ≢ null) s.run_queue p ne h.run;
    } in
    let (proc, kept) =
      from_run_only prio t (get_ready_proc prio t) not_empty (get_ready_proc-Turn prio t ready) in
    (t, if_eq_false _ _ there, proc, kept)

-- ===== src/Sched/Policy.antt =====
-- Which process `get_mlq_proc` picks.
use os_assignment.Base.{
  ℕ, ◌<◌, ◌≡◌, ◌≢◌, inl, inr, Bool, true, false, arith, if◌then◌else◌, ap, ◌↔◌, some, none,
}
use os_assignment.Queue.{null}
use os_assignment.Sched.{
  Sched, max_prio, queue_empty, levels_empty, choose, choose_from, reset_slots, dispatch,
  dispatch_chosen, get_from, get_mlq_proc, refill,
}
use os_assignment.Sched.Levels.{IsSkipped, levels_empty-cases, choose_from-cases, reset_slots_lem}
use os_assignment.Sched.Invariant.{
  IsValid, IsDispatched, dispatch-IsDispatched, IsDispatched-IsValid, refresh-IsValid,
}

-- The state with every level's slots filled again.
abbrev pub refilled : Sched → Sched
refilled s = record s { slot = reset_slots s.slot }

-- The three ways in which `get_mlq_proc` ends on a valid state `s`.
pub data Outcome (s : Sched) (r : Sched × ℕ) : Type 0 where
  idle : ((i : ℕ) → i < max_prio → (s.mlq_ready_queue i).size ≡ 0) → r ≡ (s, null) → Outcome s r
  within_slots :
      (k : ℕ)
      → k < max_prio
      → ((i : ℕ) → i < k → IsSkipped s.mlq_ready_queue s.slot i)
      → IsDispatched s k r
      → Outcome s r
  after_refill :
      (k : ℕ)
      → k < max_prio
      → ((i : ℕ) → i < max_prio → IsSkipped s.mlq_ready_queue s.slot i)
      → ((i : ℕ) → i < k → (s.mlq_ready_queue i).size ≡ 0)
      → IsDispatched (refilled s) k r
      → Outcome s r

get_inited :
    (prio : ℕ → ℕ) (s : Sched) → s.mlq_inited ≡ true → get_mlq_proc prio s ≡ get_from prio s
unfolding get_mlq_proc
get_inited prio s e = ap (λ (b : Bool). get_from prio (if b then s else refill s)) e

get_idle :
    (prio : ℕ → ℕ) (s : Sched)
    → levels_empty s.mlq_ready_queue max_prio 0 ≡ true
    → get_from prio s ≡ (s, null)
unfolding get_from queue_empty
get_idle prio s h = rw h

get_first :
    (prio : ℕ → ℕ) (s : Sched) (k : ℕ)
    → levels_empty s.mlq_ready_queue max_prio 0 ≡ false
    → choose_from s.mlq_ready_queue s.slot max_prio 0 ≡ some k
    → get_from prio s ≡ dispatch prio s k
unfolding get_from queue_empty choose
get_first prio s k h c = rw (h, c)

get_second :
    (prio : ℕ → ℕ) (s : Sched) (k : ℕ)
    → levels_empty s.mlq_ready_queue max_prio 0 ≡ false
    → choose_from s.mlq_ready_queue s.slot max_prio 0 ≡ none
    → choose_from s.mlq_ready_queue (reset_slots s.slot) max_prio 0 ≡ some k
    → get_from prio s ≡ dispatch prio (refilled s) k
unfolding get_from queue_empty choose dispatch_chosen
get_second prio s k h c d = rw (h, c, d)

-- With full slots only empty levels are skipped.
skipped_full :
    (s : Sched) (i : ℕ)
    → i < max_prio
    → IsSkipped s.mlq_ready_queue (reset_slots s.slot) i
    → (s.mlq_ready_queue i).size ≡ 0
skipped_full s i l (inl e) = e
skipped_full s i l (inr e) = absurd (omega (arith, reset_slots_lem s.slot i l))

refill_case :
    (prio : ℕ → ℕ) (s : Sched) (j : ℕ)
    → IsValid prio s
    → levels_empty s.mlq_ready_queue max_prio 0 ≡ false
    → j < max_prio
    → (s.mlq_ready_queue j).size ≢ 0
    → choose_from s.mlq_ready_queue s.slot max_prio 0 ≡ none
    → ((i : ℕ) → i < max_prio → IsSkipped s.mlq_ready_queue s.slot i)
    → Outcome s (get_from prio s)
refill_case prio s j v e l ne c skipped =
    elim (choose_from-cases s.mlq_ready_queue (reset_slots s.slot) max_prio 0) [
      | inl (d, all) ↦ absurd (ne (skipped_full s j l (all j (omega arith) l)))
      | inr (k, d, l', m', (ne', slots), before) ↦ rw (get_second prio s k e c d) (
          after_refill k (omega arith) skipped
            (λ i h. skipped_full s i (omega arith) (before i (omega arith) h))
            (dispatch-IsDispatched prio (refilled s) k (refresh-IsValid prio s v) (omega arith) ne'
              slots))
    ]

-- On a valid state `get_mlq_proc` returns NULL and changes nothing if every level is empty. Else it
-- dispatches from the first level that has a process and a slot, or, if there is none, fills all
-- slots and dispatches from the first level that has a process.
pub get_mlq_proc-Outcome :
    (prio : ℕ → ℕ) (s : Sched) → IsValid prio s → Outcome s (get_mlq_proc prio s)
get_mlq_proc-Outcome prio s v =
    rw (get_inited prio s v.inited) (elim (levels_empty-cases s.mlq_ready_queue max_prio 0) [
      | inl (e, h) ↦ idle (λ i l. h i (omega arith) (omega arith)) (get_idle prio s e)
      | inr (e, j, l, m, ne) ↦ elim (choose_from-cases s.mlq_ready_queue s.slot max_prio 0) [
        | inr (k, c, l', m', (ne', slots), skipped) ↦ rw (get_first prio s k e c) (
            within_slots k (omega arith) (λ i l. skipped i (omega arith) l)
              (dispatch-IsDispatched prio s k v (omega arith) ne' slots))
        | inl (c, skipped) ↦
            refill_case prio s j v e (omega arith) ne c
              (λ i l'. skipped i (omega arith) (omega arith))
      ]
    ])

-- `get_mlq_proc` makes a valid state from a valid state.
pub get_mlq_proc-IsValid :
    (prio : ℕ → ℕ) (s : Sched) → IsValid prio s → IsValid prio (get_mlq_proc prio s).0
get_mlq_proc-IsValid prio s v = elim (get_mlq_proc-Outcome prio s v) [
  | idle h e ↦ rw e v
  | within_slots k l h d ↦ IsDispatched-IsValid prio s k _ v l d
  | after_refill k l h g d ↦
      IsDispatched-IsValid prio (refilled s) k _ (refresh-IsValid prio s v) l d
]

-- On a valid state `get_mlq_proc` returns NULL exactly when every level is empty.
pub get_mlq_proc-null_iff :
    (prio : ℕ → ℕ) (s : Sched)
    → IsValid prio s
    → ((get_mlq_proc prio s).1 ≡ null) ↔ ((i : ℕ) → i < max_prio → (s.mlq_ready_queue i).size ≡ 0)
get_mlq_proc-null_iff prio s v = elim (get_mlq_proc-Outcome prio s v) [
  | idle h e ↦ (λ _. h, λ _. rw e)
  | within_slots k l h d ↦ (λ e. absurd (d.proc e), λ e. absurd (omega (arith, e k l, d.size)))
  | after_refill k l h g d ↦ (λ e. absurd (d.proc e), λ e. absurd (omega (arith, e k l, d.size)))
]

-- ===== src/Processor/Places.antt =====
-- How often a process is in a queue or on a processor, before and after a slot.
use os_assignment.Base.{
  ℕ, ◌+◌, ◌≤◌, ◌<◌, ◌≡◌, ◌≢◌, ap, sym, subst, ◌∙◌, Bool, Option, none, some, List, [], ◌∷◌, ◌==◌,
  leb, if◌then◌else◌, All, arith, inl, inr, Bool-cases, if_eq_true, if_eq_false,
}
use native.Mathlib.Decide.{ℕ_discrete}
use os_assignment.Queue.{Queue, null, max_queue_size, contents}
use os_assignment.Queue.Laws.{snoc}
use os_assignment.Sched.{Sched, max_prio, get_mlq_proc, put_mlq_proc}
use os_assignment.Sched.Invariant.{IsValid, IsDispatched}
use os_assignment.Sched.Return.{IsReturned, put_mlq_proc-IsReturned}
use os_assignment.Sched.Policy.{refilled, idle, within_slots, after_refill, get_mlq_proc-Outcome}
use os_assignment.Processor.{Cpu, System, Setup, get_proc, recheck, fetch, cpu_slot}
use os_assignment.Processor.Slots.{run-sched, slice_over}

-- How often `x` is in the list.
abbrev pub count : ℕ → List ℕ → ℕ
count x [] = 0
count x (y ∷ ys) = (if y == x then 1 else 0) + count x ys

-- How often a process is in the queue of its level, and on a processor.
abbrev pub queued : (ℕ → ℕ) → Sched → ℕ → ℕ
queued prio s p = count p (contents (s.mlq_ready_queue (prio p)))

abbrev pub is_it : ℕ → ℕ → ℕ
is_it p q = if q == p then 1 else 0

abbrev pub holds : Option Cpu → ℕ → ℕ
holds none p = 0
holds (some c) p = is_it p c.proc

count-snoc : (x : ℕ) (ys : List ℕ) (y : ℕ) → count x (snoc ys y) ≡ count x ys + is_it x y
count-snoc x [] y = omega arith
count-snoc x (z ∷ zs) y = omega (arith, count-snoc x zs y)

pub not_it : (p q : ℕ) → q ≢ p → is_it p q ≡ 0
not_it p q ne = ground arith

dispatched_count :
    (prio : ℕ → ℕ) (s : Sched) (k : ℕ) (r : Sched × ℕ) (p : ℕ)
    → All (λ x. (prio x ≡ k) × (x ≢ null)) (contents (s.mlq_ready_queue k))
    → IsDispatched s k r
    → queued prio r.0 p + is_it p r.1 ≤ queued prio s p
dispatched_count prio s k r p level d = elim (ℕ_discrete (prio p) k) [
  | yes here ↦
      let front =
        subst (λ (j : ℕ). contents (s.mlq_ready_queue j) ≡ r.1 ∷ contents (r.0.mlq_ready_queue j))
          (sym here) d.oldest in
      omega (arith, ap (count p) front)
  | no there ↦
      let all = subst (All (λ x. (prio x ≡ k) × (x ≢ null))) d.oldest level in
      omega (
        arith,
        ap (λ (q : Queue). count p (contents q)) (d.other_queues (prio p) there),
        not_it p r.1 (λ e. there (sym (ap prio e) ∙ all.0.0)),
      )
]

-- A process that `get_mlq_proc` hands out has left its queue.
get_count :
    (prio : ℕ → ℕ) (s : Sched) (p : ℕ)
    → IsValid prio s
    → p ≢ null
    → let r = get_mlq_proc prio s in queued prio r.0 p + is_it p r.1 ≤ queued prio s p
get_count prio s p v ne = elim (get_mlq_proc-Outcome prio s v) [
  | idle e r ↦
      subst (λ (t : Sched × ℕ). queued prio t.0 p + is_it p t.1 ≤ queued prio s p) (sym r)
        (omega (arith, not_it p null (λ e. ne (sym e))))
  | within_slots k l skipped d ↦ dispatched_count prio s k (get_mlq_proc prio s) p (v.levels k l) d
  | after_refill k l skipped before d ↦
      dispatched_count prio (refilled s) k (get_mlq_proc prio s) p (v.levels k l) d
]

-- A process that is put back is in its queue once more.
pub put_count :
    (prio : ℕ → ℕ) (s t : Sched) (q p : ℕ)
    → IsReturned prio s q t
    → queued prio t p ≤ queued prio s p + is_it p q
put_count prio s t q p d = elim (ℕ_discrete (prio p) (prio q)) [
  | yes here ↦
      let before = contents (s.mlq_ready_queue (prio q)) in
      let added : count p (contents (t.mlq_ready_queue (prio q))) ≤ count p before + is_it p q =
        elim (Bool-cases (leb max_queue_size (s.mlq_ready_queue (prio q)).size)) [
          | inl full ↦ omega (arith, ap (count p) (d.level ∙ if_eq_true _ _ full))
          | inr room ↦
              omega (arith, ap (count p) (d.level ∙ if_eq_false _ _ room), count-snoc p before q)
        ] in
      subst
        (λ (j : ℕ).
          count p (contents (t.mlq_ready_queue j))
          ≤ count p (contents (s.mlq_ready_queue j)) + is_it p q)
        (sym here) added
  | no there ↦
      omega (arith, ap (λ (q : Queue). count p (contents q)) (d.other_queues (prio p) there))
]

-- What a slot leaves of a process: the sum over its queue and the processor.
abbrev pub total : Setup → System × Option Cpu → ℕ → ℕ
total u r p = queued u.prio r.0.sched p + holds r.1 p

pub total-recheck :
    (u : Setup) (done : Bool) (r : System × ℕ) (time_left p : ℕ)
    → p ≢ null
    → total u (recheck u done r time_left) p ≤ queued u.prio r.0.sched p + is_it p r.1
unfolding recheck
total-recheck u done (s, proc) time_left p ne = elim (Bool-cases (proc == null)) [
  | inl e ↦
      subst (λ (t : System × Option Cpu). total u t p ≤ queued u.prio s.sched p + is_it p proc)
        (sym (if_eq_true _ _ e))
        (elim (Bool-cases done) [
          | inl d ↦
              subst
                (λ (c : Option Cpu).
                  queued u.prio s.sched p + holds c p ≤ queued u.prio s.sched p + is_it p proc)
                (sym (if_eq_true _ _ d)) (omega arith)
          | inr d ↦
              subst
                (λ (c : Option Cpu).
                  queued u.prio s.sched p + holds c p ≤ queued u.prio s.sched p + is_it p proc)
                (sym (if_eq_false _ _ d)) (omega arith)
        ])
  | inr e ↦
      subst (λ (t : System × Option Cpu). total u t p ≤ queued u.prio s.sched p + is_it p proc)
        (sym (if_eq_false _ _ e))
        (omega (arith, ap (λ (t : Sched). queued u.prio t p) (run-sched u s proc)))
]

total-fetch :
    (u : Setup) (done : Bool) (r : System × ℕ) (time_left p : ℕ)
    → p ≢ null
    → total u (fetch u done r time_left) p ≤ queued u.prio r.0.sched p + is_it p r.1
unfolding fetch
total-fetch u done (s, proc) time_left p ne =
    let P = λ (t : System × Option Cpu). total u t p ≤ queued u.prio s.sched p + is_it p proc in
    elim (Bool-cases (proc == null)) [
      | inl e ↦ subst P (sym (if_eq_true _ _ e)) (omega arith)
      | inr e ↦ subst P (sym (if_eq_false _ _ e)) (total-recheck u done (s, proc) time_left p ne)
    ]

pub got_count :
    (u : Setup) (s : System) (p : ℕ)
    → IsValid u.prio s.sched
    → p ≢ null
    → queued u.prio (get_proc u s).0.sched p + is_it p (get_proc u s).1 ≤ queued u.prio s.sched p
unfolding get_proc
got_count u s p v ne = get_count u.prio s.sched p v ne

-- A result of a slot that has at most `n` of a process in its queue and on the processor.
unfoldable pub AtMost : Setup → ℕ → ℕ → Option (System × Option Cpu) → Type 0
AtMost u n p none = Unit
AtMost u n p (some r) = total u r p ≤ n

put-AtMost :
    (u : Setup) (done : Bool) (s : System) (q p : ℕ)
    → q ≢ null
    → u.prio q < max_prio
    → IsValid u.prio s.sched
    → p ≢ null
    → AtMost u
        (queued u.prio s.sched p + is_it p q)
        p
        (slice_over u done s (put_mlq_proc u.prio s.sched q))
unfolding AtMost
put-AtMost u done s q p h l v ne =
    let (t, put, returned, valid) = put_mlq_proc-IsReturned u.prio s.sched q h l in
    let next : System = record s { sched = t } in
    subst
      (λ (o : Option Sched).
        AtMost u (queued u.prio s.sched p + is_it p q) p (slice_over u done s o))
      (sym put)
      (omega (
        arith,
        total-recheck u done (get_proc u next) 0 p ne,
        got_count u next p (valid v) ne,
        put_count u.prio s.sched t q p returned,
      ))

pub cpu_slot-AtMost :
    (u : Setup) (done : Bool) (s : System) (c : Cpu) (p : ℕ)
    → IsValid u.prio s.sched
    → (c.proc ≢ null → u.prio c.proc < max_prio)
    → p ≢ null
    → AtMost u (queued u.prio s.sched p + is_it p c.proc) p (cpu_slot u done s c)
unfolding cpu_slot AtMost
cpu_slot-AtMost u done s c p v l ne =
    let P = AtMost u (queued u.prio s.sched p + is_it p c.proc) p in
    let got = got_count u s p v ne in
    elim (Bool-cases (c.proc == null)) [
      | inl free ↦
          subst P (sym (if_eq_true _ _ free))
            (omega (arith, total-fetch u done (get_proc u s) c.time_left p ne, got))
      | inr held ↦
          subst P (sym (if_eq_false _ _ held))
            (elim (Bool-cases (s.pc c.proc == u.code_size c.proc)) [
              | inl finished ↦
                  subst P (sym (if_eq_true _ _ finished))
                    (omega (arith, total-recheck u done (get_proc u s) 0 p ne, got))
              | inr unfinished ↦
                  subst P (sym (if_eq_false _ _ unfinished)) (elim (Bool-cases (c.time_left == 0)) [
                    | inl over ↦
                        subst P (sym (if_eq_true _ _ over))
                          (put-AtMost u done s c.proc p (ground arith) (l (ground arith)) v ne)
                    | inr left ↦
                        subst P (sym (if_eq_false _ _ left))
                          (total-recheck u done (s, c.proc) c.time_left p ne)
                  ])
            ])
    ]

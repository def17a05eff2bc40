-- ===== src/Processor/Runs.antt =====
-- Runs of several processors and the loader, as sequences of steps.
use os_assignment.Base.{
  ℕ, ◌<◌, ◌≡◌, ◌≢◌, ap, sym, subst, ◌∙◌, Bool, Option, none, some, ◌∷◌, ◌==◌, All, arith, update,
  inl, inr, Bool-cases, if_eq_true, if_eq_false,
}
use os_assignment.Queue.{null, contents}
use os_assignment.Sched.{Sched, max_prio, get_mlq_proc, put_mlq_proc, add_mlq_proc}
use os_assignment.Sched.Invariant.{IsValid}
use os_assignment.Sched.Return.{put_mlq_proc-IsReturned, add_mlq_proc-eq-put_mlq_proc}
use os_assignment.Sched.Policy.{idle, within_slots, after_refill, get_mlq_proc-Outcome}
use os_assignment.Processor.{Cpu, System, Setup, get_proc, recheck, fetch, cpu_slot}
use os_assignment.Processor.Slots.{Ends, slice_over, cpu_slot-IsValid}

-- The processors by number, where one that has stopped is `none`, and what they share.
pub record Machine : Type 0 where
  pub system : System
  pub cpus : ℕ → Option Cpu

-- One step: a processor passes a time slot, whatever `done` is, or the loader adds a process of a
-- priority below 140.
pub data Step (u : Setup) : Machine → Machine → Type 0 where
  slot :
      (m : Machine) (i : ℕ) (done : Bool) (c : Cpu) (r : System × Option Cpu)
      → m.cpus i ≡ some c
      → cpu_slot u done m.system c ≡ some r
      → Step u m (record { system = r.0; cpus = update m.cpus i r.1 })
  load :
      (m : Machine) (p : ℕ) (t : Sched)
      → p ≢ null
      → u.prio p < max_prio
      → add_mlq_proc u.prio m.system.sched p ≡ some t
      → Step u m (record m { system = record (m.system) { sched = t } })

pub data Reach (u : Setup) (m : Machine) : Machine → Type 0 where
  start : Reach u m m
  then_step : {n k : Machine} → Reach u m n → Step u n k → Reach u m k

-- A processor that holds no process, or one of a priority below 140.
unfoldable pub IsServing : Setup → Option Cpu → Type 0
IsServing u none = Unit
IsServing u (some c) = c.proc ≢ null → u.prio c.proc < max_prio

dispatched_prio :
    (prio : ℕ → ℕ) (s : Sched) (k : ℕ) (r : Sched × ℕ)
    → IsValid prio s
    → k < max_prio
    → contents (s.mlq_ready_queue k) ≡ r.1 ∷ contents (r.0.mlq_ready_queue k)
    → prio r.1 < max_prio
dispatched_prio prio s k r v l oldest =
    let all = subst (All (λ x. (prio x ≡ k) × (x ≢ null))) oldest (v.levels k l) in
    omega (arith, all.0.0)

get_mlq_proc_prio :
    (prio : ℕ → ℕ) (s : Sched)
    → IsValid prio s
    → (get_mlq_proc prio s).1 ≢ null
    → prio (get_mlq_proc prio s).1 < max_prio
get_mlq_proc_prio prio s v h = elim (get_mlq_proc-Outcome prio s v) [
  | idle e r ↦ absurd (h (ap (λ (t : Sched × ℕ). t.1) r))
  | within_slots k l skipped d ↦ dispatched_prio prio s k (get_mlq_proc prio s) v l d.oldest
  | after_refill k l skipped before d ↦ dispatched_prio prio s k (get_mlq_proc prio s) v l d.oldest
]

recheck-IsServing :
    (u : Setup) (done : Bool) (r : System × ℕ) (time_left : ℕ)
    → (r.1 ≢ null → u.prio r.1 < max_prio)
    → IsServing u (recheck u done r time_left).1
unfolding recheck IsServing
recheck-IsServing u done (s, proc) time_left h = elim (Bool-cases (proc == null)) [
  | inl e ↦
      subst (λ (t : System × Option Cpu). IsServing u t.1) (sym (if_eq_true _ _ e))
        (elim (Bool-cases done) [
          | inl d ↦ subst (IsServing u) (sym (if_eq_true _ _ d)) tt
          | inr d ↦ subst (IsServing u) (sym (if_eq_false _ _ d)) h
        ])
  | inr e ↦ subst (λ (t : System × Option Cpu). IsServing u t.1) (sym (if_eq_false _ _ e)) h
]

fetch-IsServing :
    (u : Setup) (done : Bool) (r : System × ℕ) (time_left : ℕ)
    → (r.1 ≢ null → u.prio r.1 < max_prio)
    → IsServing u (fetch u done r time_left).1
unfolding fetch IsServing
fetch-IsServing u done (s, proc) time_left h = elim (Bool-cases (proc == null)) [
  | inl e ↦ subst (λ (t : System × Option Cpu). IsServing u t.1) (sym (if_eq_true _ _ e)) h
  | inr e ↦
      subst (λ (t : System × Option Cpu). IsServing u t.1) (sym (if_eq_false _ _ e))
        (recheck-IsServing u done (s, proc) time_left h)
]

-- The processor after a slot is as `IsServing` says, if the slot has a result.
Serves : Setup → Option (System × Option Cpu) → Type 0
Serves u none = Unit
Serves u (some r) = IsServing u r.1

got_prio :
    (u : Setup) (s : System)
    → IsValid u.prio s.sched
    → (get_proc u s).1 ≢ null
    → u.prio (get_proc u s).1 < max_prio
unfolding get_proc
got_prio u s v h = get_mlq_proc_prio u.prio s.sched v h

put-Serves :
    (u : Setup) (done : Bool) (s : System) (p : ℕ)
    → p ≢ null
    → u.prio p < max_prio
    → IsValid u.prio s.sched
    → Serves u (slice_over u done s (put_mlq_proc u.prio s.sched p))
unfolding Serves
put-Serves u done s p h l v =
    let (t, put, returned, valid) = put_mlq_proc-IsReturned u.prio s.sched p h l in
    let next : System = record s { sched = t } in
    subst (λ (o : Option Sched). Serves u (slice_over u done s o)) (sym put)
      (recheck-IsServing u done (get_proc u next) 0 (got_prio u next (valid v)))

cpu_slot-Serves :
    (u : Setup) (done : Bool) (s : System) (c : Cpu)
    → IsValid u.prio s.sched
    → (c.proc ≢ null → u.prio c.proc < max_prio)
    → Serves u (cpu_slot u done s c)
unfolding cpu_slot Serves
cpu_slot-Serves u done s c v l =
    let after = get_proc u s in
    elim (Bool-cases (c.proc == null)) [
      | inl free ↦
          subst (Serves u) (sym (if_eq_true _ _ free))
            (fetch-IsServing u done after c.time_left (got_prio u s v))
      | inr held ↦
          subst (Serves u) (sym (if_eq_false _ _ held))
            (elim (Bool-cases (s.pc c.proc == u.code_size c.proc)) [
              | inl finished ↦
                  subst (Serves u) (sym (if_eq_true _ _ finished))
                    (recheck-IsServing u done after 0 (got_prio u s v))
              | inr unfinished ↦
                  subst (Serves u) (sym (if_eq_false _ _ unfinished))
                    (elim (Bool-cases (c.time_left == 0)) [
                      | inl over ↦
                          subst (Serves u) (sym (if_eq_true _ _ over))
                            (put-Serves u done s c.proc (ground arith) (l (ground arith)) v)
                      | inr left ↦
                          subst (Serves u) (sym (if_eq_false _ _ left))
                            (recheck-IsServing u done (s, c.proc) c.time_left l)
                    ])
            ])
    ]

-- The machine's scheduler is valid, and every processor is as `IsServing` says.
pub record IsSound (u : Setup) (m : Machine) : Type 0 where
  pub valid : IsValid u.prio m.system.sched
  pub serving : (i : ℕ) → IsServing u (m.cpus i)

-- The scheduler of a result, and one that is there, are valid.
EndsSome : Setup → Option (System × Option Cpu) → Type 0
EndsSome u none = Unit
EndsSome u (some r) = IsValid u.prio r.0.sched

ValidSome : Setup → Option Sched → Type 0
ValidSome u none = Unit
ValidSome u (some t) = IsValid u.prio t

Ends-IsValid :
    (u : Setup) (o : Option (System × Option Cpu)) (r : System × Option Cpu)
    → Ends u o
    → o ≡ some r
    → IsValid u.prio r.0.sched
unfolding EndsSome
Ends-IsValid u o r (r', e, v) e' = subst (EndsSome u) (sym e ∙ e') v

pub Step-IsSound : {m n : Machine} (u : Setup) → IsSound u m → Step u m n → IsSound u n
unfolding Serves IsServing ValidSome
Step-IsSound u sound (slot m i done c r running ran) =
    let serves = subst (IsServing u) running (sound.serving i) in
    record {
      valid =
          Ends-IsValid u (cpu_slot u done m.system c) r
            (cpu_slot-IsValid u done m.system c sound.valid serves) ran;
      serving = λ j. elim (Bool-cases (j == i)) [
        | inl here ↦
            subst (IsServing u) (sym (if_eq_true _ _ here))
              (subst (Serves u) ran (cpu_slot-Serves u done m.system c sound.valid serves))
        | inr other ↦ subst (IsServing u) (sym (if_eq_false _ _ other)) (sound.serving j)
      ];
    }
Step-IsSound u sound (load m p t h l added) =
    let (t', put, returned, valid) = put_mlq_proc-IsReturned u.prio m.system.sched p h l in
    let same : some t' ≡ some t =
      sym put ∙ sym (add_mlq_proc-eq-put_mlq_proc u.prio m.system.sched p) ∙ added in
    record { valid = subst (ValidSome u) same (valid sound.valid); serving = sound.serving }

Reach-IsSound : (u : Setup) {m n : Machine} → IsSound u m → Reach u m n → IsSound u n
Reach-IsSound u sound start = sound
Reach-IsSound u sound (then_step run step) = Step-IsSound u (Reach-IsSound u sound run) step

-- From a valid scheduler and processors that each hold no process, or one of a priority below 140,
-- every run of the processors and the loader keeps the scheduler valid, and the next slot of any
-- processor that still runs has a result.
pub Reach-cpu_slot :
    (u : Setup) (m n : Machine)
    → IsSound u m
    → Reach u m n
    → IsSound u n
      × ((i : ℕ) (c : Cpu) (done : Bool) → n.cpus i ≡ some c → Ends u (cpu_slot u done n.system c))
unfolding IsServing
Reach-cpu_slot u m n sound run =
    let there = Reach-IsSound u sound run in
    (
      there,
      λ i c done running.
          cpu_slot-IsValid u done n.system c there.valid
            (subst (IsServing u) running (there.serving i)),
    )

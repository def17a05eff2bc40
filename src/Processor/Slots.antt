-- ===== src/Processor/Slots.antt =====
-- Time slots on a valid scheduler.
use os_assignment.Base.{
  ℕ, ◌<◌, ◌≡◌, ◌≢◌, ap, sym, subst, refl, Bool, Option, none, some, arith, inl, inr, ◌==◌,
  if_eq_true, if_eq_false, Bool-cases,
}
use os_assignment.Queue.{null}
use os_assignment.Sched.{Sched, max_prio, get_mlq_proc, put_mlq_proc}
use os_assignment.Sched.Invariant.{IsValid}
use os_assignment.Sched.Return.{put_mlq_proc-IsReturned}
use os_assignment.Sched.Policy.{
  idle, within_slots, after_refill, get_mlq_proc-Outcome, get_mlq_proc-IsValid,
}
use os_assignment.Processor.{Cpu, System, Setup, run, get_proc, recheck, fetch, cpu_slot}

get_mlq_proc_empty :
    (prio : ℕ → ℕ) (s : Sched)
    → IsValid prio s
    → ((i : ℕ) → i < max_prio → (s.mlq_ready_queue i).size ≡ 0)
    → get_mlq_proc prio s ≡ (s, null)
get_mlq_proc_empty prio s v empty = elim (get_mlq_proc-Outcome prio s v) [
  | idle e r ↦ r
  | within_slots k l skipped d ↦ absurd (omega (arith, d.size, empty k l))
  | after_refill k l skipped before d ↦ absurd (omega (arith, d.size, empty k l))
]

-- A processor without a process goes on without one, and nothing changes, as long as every level
-- of a valid scheduler is empty: it does not stop, even when the loader is done.
pub cpu_slot_idle :
    (u : Setup) (done : Bool) (s : System) (time_left : ℕ)
    → IsValid u.prio s.sched
    → ((i : ℕ) → i < max_prio → (s.sched.mlq_ready_queue i).size ≡ 0)
    → let c : Cpu = record { proc = null; time_left = time_left } in
      cpu_slot u done s c ≡ some (s, some c)
unfolding cpu_slot fetch get_proc
cpu_slot_idle u done s time_left v empty =
    ap (λ (r : Sched × ℕ). some (fetch u done (record s { sched = r.0 }, r.1) time_left))
      (get_mlq_proc_empty u.prio s.sched v empty)

-- What a slot promises: it ends in a valid scheduler.
abbrev EndsValid : Setup → System × Option Cpu → Type 0
EndsValid u r = IsValid u.prio r.0.sched

pub run-sched : (u : Setup) (s : System) (proc : ℕ) → (run u s proc).sched ≡ s.sched
unfolding run
run-sched u s proc = ground arith

recheck-EndsValid :
    (u : Setup) (done : Bool) (r : System × ℕ) (time_left : ℕ)
    → IsValid u.prio r.0.sched
    → EndsValid u (recheck u done r time_left)
unfolding recheck
recheck-EndsValid u done (s, proc) time_left v = elim (Bool-cases (proc == null)) [
  | inl e ↦ subst (EndsValid u) (sym (if_eq_true _ _ e)) v
  | inr e ↦
      subst (EndsValid u) (sym (if_eq_false _ _ e))
        (subst (IsValid u.prio) (sym (run-sched u s proc)) v)
]

fetch-EndsValid :
    (u : Setup) (done : Bool) (r : System × ℕ) (time_left : ℕ)
    → IsValid u.prio r.0.sched
    → EndsValid u (fetch u done r time_left)
unfolding fetch
fetch-EndsValid u done (s, proc) time_left v = elim (Bool-cases (proc == null)) [
  | inl e ↦ subst (EndsValid u) (sym (if_eq_true _ _ e)) v
  | inr e ↦
      subst (EndsValid u) (sym (if_eq_false _ _ e)) (recheck-EndsValid u done (s, proc) time_left v)
]

get_proc-IsValid :
    (u : Setup) (s : System) → IsValid u.prio s.sched → IsValid u.prio (get_proc u s).0.sched
unfolding get_proc
get_proc-IsValid u s v = get_mlq_proc-IsValid u.prio s.sched v

-- What a slot promises as a whole: it has a result, whose scheduler is valid.
abbrev pub Ends : Setup → Option (System × Option Cpu) → Type 0
Ends u o = (r : System × Option Cpu) × (o ≡ some r) × IsValid u.prio r.0.sched

-- The branch of a slot whose time slice is over.
abbrev pub slice_over : Setup → Bool → System → Option Sched → Option (System × Option Cpu)
slice_over u done s none = none
slice_over u done s (some sched) = some (recheck u done (get_proc u (record s { sched = sched })) 0)

slice_over-Ends :
    (u : Setup) (done : Bool) (s : System) (p : ℕ)
    → p ≢ null
    → u.prio p < max_prio
    → IsValid u.prio s.sched
    → Ends u (slice_over u done s (put_mlq_proc u.prio s.sched p))
slice_over-Ends u done s p h l v =
    let (t, put, returned, valid) = put_mlq_proc-IsReturned u.prio s.sched p h l in
    let next : System = record s { sched = t } in
    (
      recheck u done (get_proc u next) 0,
      ap (slice_over u done s) put,
      recheck-EndsValid u done (get_proc u next) 0 (get_proc-IsValid u next (valid v)),
    )

-- A slot of a processor that has no process, or one of a priority below 140, has a result on a
-- valid scheduler, and leaves a valid scheduler.
pub cpu_slot-IsValid :
    (u : Setup) (done : Bool) (s : System) (c : Cpu)
    → IsValid u.prio s.sched
    → (c.proc ≢ null → u.prio c.proc < max_prio)
    → Ends u (cpu_slot u done s c)
unfolding cpu_slot
cpu_slot-IsValid u done s c v l =
    let after = get_proc u s in
    let got = get_proc-IsValid u s v in
    elim (Bool-cases (c.proc == null)) [
      | inl free ↦
          subst (Ends u) (sym (if_eq_true _ _ free))
            (fetch u done after c.time_left, refl, fetch-EndsValid u done after c.time_left got)
      | inr held ↦
          subst (Ends u) (sym (if_eq_false _ _ held))
            (elim (Bool-cases (s.pc c.proc == u.code_size c.proc)) [
              | inl finished ↦
                  subst (Ends u) (sym (if_eq_true _ _ finished))
                    (recheck u done after 0, refl, recheck-EndsValid u done after 0 got)
              | inr unfinished ↦
                  subst (Ends u) (sym (if_eq_false _ _ unfinished))
                    (elim (Bool-cases (c.time_left == 0)) [
                      | inl over ↦
                          subst (Ends u) (sym (if_eq_true _ _ over))
                            (slice_over-Ends u done s c.proc (ground arith) (l (ground arith)) v)
                      | inr left ↦ subst (Ends u) (sym (if_eq_false _ _ left)) (
                        recheck u done (s, c.proc) c.time_left,
                        refl,
                        recheck-EndsValid u done (s, c.proc) c.time_left v,
                      )
                    ])
            ])
    ]

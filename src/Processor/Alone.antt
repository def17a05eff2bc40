-- ===== src/Processor/Alone.antt =====
-- No process is in two places: on two processors, twice in a queue, or on both.
use os_assignment.Base.{
  ℕ, ◌+◌, ◌≤◌, ◌<◌, ◌≡◌, ◌≢◌, ap, sym, subst, ◌∙◌, true, false, Option, none, some, ◌==◌, arith,
  update, if_eq_true, if_eq_false,
}
use native.Mathlib.Decide.{ℕ_discrete}
use os_assignment.Queue.{null}
use os_assignment.Sched.{Sched, max_prio}
use os_assignment.Sched.Return.{put_mlq_proc-IsReturned, add_mlq_proc-eq-put_mlq_proc}
use os_assignment.Processor.{Cpu, System, Setup, run, cpu_slot}
use os_assignment.Processor.Runs.{
  Machine, Step, slot, load, Reach, start, then_step, IsServing, IsSound, Step-IsSound,
}
use os_assignment.Processor.Places.{
  queued, is_it, holds, not_it, put_count, AtMost, cpu_slot-AtMost,
}

-- A process other than NULL, of a priority below 140.
abbrev pub IsProc : Setup → ℕ → Type 0
IsProc u p = (p ≢ null) × (u.prio p < max_prio)

-- Every process is at most once in its queue or on a processor, and on one processor only.
pub record IsAlone (u : Setup) (m : Machine) : Type 0 where
  pub one : (i p : ℕ) → IsProc u p → queued u.prio m.system.sched p + holds (m.cpus i) p ≤ 1
  pub apart : (i j p : ℕ) → IsProc u p → i ≢ j → holds (m.cpus i) p + holds (m.cpus j) p ≤ 1

-- A process that arrives is not there yet: `load` gets new memory for it.
abbrev pub IsNew : {u : Setup} {m n : Machine} → Step u m n → Type 0
IsNew (slot m i done c r running ran) = Unit
IsNew {u} (load m p t h l added) =
    (queued u.prio m.system.sched p ≡ 0) × ((i : ℕ) → holds (m.cpus i) p ≡ 0)

abbrev pub AllNew : {u : Setup} {m n : Machine} → Reach u m n → Type 0
AllNew start = Unit
AllNew (then_step run step) = AllNew run × IsNew step

holds_le : (c : Option Cpu) (p : ℕ) → holds c p ≤ 1
holds_le none p = omega arith
holds_le (some c) p = ground arith

-- The processor `i` goes on as `c`, with no more of `p` than before.
slot-IsAlone :
    (u : Setup) (m : Machine) (i : ℕ) (r : System × Option Cpu)
    → IsAlone u m
    → ((p : ℕ)
        → IsProc u p
        → queued u.prio r.0.sched p + holds r.1 p
          ≤ queued u.prio m.system.sched p + holds (m.cpus i) p)
    → IsAlone u (record { system = r.0; cpus = update m.cpus i r.1 })
slot-IsAlone u m i r alone less =
    let here : (p : ℕ) → holds (update m.cpus i r.1 i) p ≡ holds r.1 p = λ p.
      let same : (i == i) ≡ true = ground arith in
      ap (λ (c : Option Cpu). holds c p) (if_eq_true _ _ same) in
    let there : (j p : ℕ) → j ≢ i → holds (update m.cpus i r.1 j) p ≡ holds (m.cpus j) p = λ j p ne.
      let other : (j == i) ≡ false = ground arith in
      ap (λ (c : Option Cpu). holds c p) (if_eq_false _ _ other) in
    let beside : (k p : ℕ) → IsProc u p → k ≢ i → holds r.1 p + holds (m.cpus k) p ≤ 1 =
      λ k p ne ne'. omega (
        arith,
        less p ne,
        alone.one i p ne,
        alone.one k p ne,
        alone.apart k i p ne ne',
        holds_le r.1 p,
        holds_le (m.cpus k) p,
      ) in
    record {
      one = λ j p ne. elim (ℕ_discrete j i) [
        | yes e ↦
            subst (λ (k : ℕ). queued u.prio r.0.sched p + holds (update m.cpus i r.1 k) p ≤ 1)
              (sym e) (omega (arith, here p, less p ne, alone.one i p ne))
        | no e ↦ omega (
          arith,
          there j p e,
          less p ne,
          alone.one i p ne,
          alone.one j p ne,
          alone.apart j i p ne e,
          holds_le (m.cpus j) p,
        )
      ];
      apart = λ j k p ne ne'. elim (ℕ_discrete j i) [
        | yes e ↦
            let k_other : k ≢ i = λ e'. ne' (e ∙ sym e') in
            subst (λ (l : ℕ). holds (update m.cpus i r.1 l) p + holds (update m.cpus i r.1 k) p ≤ 1)
              (sym e) (omega (arith, here p, there k p k_other, beside k p ne k_other))
        | no e ↦ elim (ℕ_discrete k i) [
          | yes e' ↦
              subst
                (λ (l : ℕ). holds (update m.cpus i r.1 j) p + holds (update m.cpus i r.1 l) p ≤ 1)
                (sym e') (omega (arith, here p, there j p e, beside j p ne e))
          | no e' ↦ omega (arith, there j p e, there k p e', alone.apart j k p ne ne')
        ]
      ];
    }

-- The bound of a slot's result, once the result is known.
pub bounded :
    (u : Setup) (n p : ℕ) (o : Option (System × Option Cpu)) (r : System × Option Cpu)
    → o ≡ some r
    → AtMost u n p o
    → queued u.prio r.0.sched p + holds r.1 p ≤ n
unfolding AtMost
bounded u n p o r e h = subst (AtMost u n p) e h

pub same_some :
    (prio : ℕ → ℕ) (s t t' : Sched) (p q : ℕ)
    → some t ≡ some t'
    → queued prio t q ≤ queued prio s q + is_it q p
    → queued prio t' q ≤ queued prio s q + is_it q p
same_some prio s t t' p q e h =
    let same : t ≡ t' = cc in
    subst (λ (x : Sched). queued prio x q ≤ queued prio s q + is_it q p) same h

pub Step-IsAlone :
    {m n : Machine} (u : Setup)
    → IsSound u m
    → IsAlone u m
    → (step : Step u m n) → IsNew step
    → IsAlone u n
unfolding IsServing
Step-IsAlone u sound alone (slot m i done c r running ran) new =
    let serves = subst (IsServing u) running (sound.serving i) in
    slot-IsAlone u m i r alone (λ p ne. omega (
      arith,
      bounded u (queued u.prio m.system.sched p + is_it p c.proc) p (cpu_slot u done m.system c) r
          ran (cpu_slot-AtMost u done m.system c p sound.valid serves ne.0),
      ap (λ (o : Option Cpu). holds o p) running,
    ))
Step-IsAlone u sound alone (load m p t h l added) new =
    let (t', put, returned, valid) = put_mlq_proc-IsReturned u.prio m.system.sched p h l in
    let same : some t' ≡ some t =
      sym put ∙ sym (add_mlq_proc-eq-put_mlq_proc u.prio m.system.sched p) ∙ added in
    let grows : (q : ℕ) → queued u.prio t q ≤ queued u.prio m.system.sched q + is_it q p = λ q.
      same_some u.prio m.system.sched t' t p q same
        (put_count u.prio m.system.sched t' p q returned) in
    record {
      one = λ i q ne. elim (ℕ_discrete p q) [
        | yes e ↦
            subst (λ (x : ℕ). queued u.prio t x + holds (m.cpus i) x ≤ 1) e
              (omega (
                arith,
                grows p,
                new.0,
                new.1 i,
                holds_le (some (record { proc = p; time_left = 0 })) p,
              ))
        | no e ↦ omega (arith, grows q, not_it q p e, alone.one i q ne)
      ];
      apart = alone.apart;
    }

pub Reach-IsAlone :
    (u : Setup) {m n : Machine}
    → IsSound u m
    → IsAlone u m
    → (run : Reach u m n) → AllNew run
    → IsSound u n × IsAlone u n
Reach-IsAlone u sound alone start new = (sound, alone)
Reach-IsAlone u sound alone (then_step run step) new =
    let before = Reach-IsAlone u sound alone run new.0 in
    (Step-IsSound u before.0 step, Step-IsAlone u before.0 before.1 step new.1)

-- In every run of the processors and the loader, from a valid scheduler in which no process is in
-- two places, and with arrivals that are not in the system yet: no process other than NULL is ever
-- on two processors, and one that is on a processor is in no queue.
pub Reach-exclusive :
    (u : Setup) (m n : Machine) (run : Reach u m n)
    → IsSound u m
    → IsAlone u m
    → AllNew run
    → (i : ℕ) (c : Cpu) → n.cpus i ≡ some c
    → c.proc ≢ null
    → (queued u.prio n.system.sched c.proc ≡ 0)
      × ((j : ℕ) (d : Cpu) → j ≢ i → n.cpus j ≡ some d → d.proc ≢ c.proc)
unfolding IsServing
Reach-exclusive u m n run sound alone new i c running ne =
    let end = Reach-IsAlone u sound alone run new in
    let there = end.1 in
    let is_proc : IsProc u c.proc = (ne, subst (IsServing u) running (end.0.serving i) ne) in
    let mine : holds (n.cpus i) c.proc ≡ 1 =
      ap (λ (o : Option Cpu). holds o c.proc) running ∙ ground arith in
    (
      omega (arith, mine, there.one i c.proc is_proc),
      λ j d ne' running' e.
          let his : holds (n.cpus j) c.proc ≡ 1 =
            ap (λ (o : Option Cpu). holds o c.proc) running' ∙ ground arith in
          omega (arith, mine, his, there.apart j i c.proc is_proc ne'),
    )

-- ===== src/Simulation/Blocks.antt =====
-- Where a process is, against which blocks of `load` are allocated.
use os_assignment.Base.{
  ℕ, ◌+◌, ◌≤◌, ◌<◌, ◌≡◌, ◌≢◌, ◌⊎◌, ap, sym, subst, ◌∙◌, Bool, true, false, Option, some, ◌==◌, inl,
  inr, update, arith, Bool-cases, if_eq_true, if_eq_false,
}
use os_assignment.Queue.{null}
use os_assignment.Sched.{max_prio}
use os_assignment.Sched.Invariant.{IsValid}
use os_assignment.Processor.{Cpu, System, Setup, get_proc, cpu_slot}
use os_assignment.Processor.Runs.{Machine, Step, slot, IsServing, IsSound, Step-IsSound}
use os_assignment.Processor.Places.{
  queued, is_it, holds, AtMost, cpu_slot-AtMost, total-recheck, got_count,
}
use os_assignment.Processor.Alone.{IsProc, IsAlone, bounded, Step-IsAlone}

-- In no queue and on no processor.
pub record IsAbsent (u : Setup) (m : Machine) (p : ℕ) : Type 0 where
  pub unqueued : queued u.prio m.system.sched p ≡ 0
  pub unheld : (i : ℕ) → holds (m.cpus i) p ≡ 0

-- The process that the loader has and not added yet.
pub record IsPending (u : Setup) (m : Machine) (f : ℕ → Bool) (p : ℕ) : Type 0 where
  pub not_null : p ≢ null
  pub allocated : f p ≡ true
  pub absent : IsProc u p → IsAbsent u m p

-- The machine is sound, no process is in two places, one whose block is not allocated is in none,
-- and neither is one that is pending.
pub record IsSafe (u : Setup) (m : Machine) (f : ℕ → Bool) (loading : Option ℕ) : Type 0 where
  pub sound : IsSound u m
  pub alone : IsAlone u m
  pub freed : (p : ℕ) → IsProc u p → f p ≡ false → IsAbsent u m p
  pub pending : (p : ℕ) → loading ≡ some p → IsPending u m f p

-- The process at its end is gone from the processor after the slot.
finished-AtMost :
    (u : Setup) (done : Bool) (s : System) (c : Cpu) (p : ℕ)
    → IsValid u.prio s.sched
    → c.proc ≢ null
    → s.pc c.proc ≡ u.code_size c.proc
    → p ≢ null
    → AtMost u (queued u.prio s.sched p) p (cpu_slot u done s c)
unfolding AtMost cpu_slot
finished-AtMost u done s c p v held finished ne =
    let h : (c.proc == null) ≡ false = ground arith in
    let e : (s.pc c.proc == u.code_size c.proc) ≡ true = ground arith in
    let P = AtMost u (queued u.prio s.sched p) p in
    subst P (sym (if_eq_false _ _ h)) (
      subst P (sym (if_eq_true _ _ e))
        (omega (arith, total-recheck u done (get_proc u s) 0 p ne, got_count u s p v ne)))

-- The machine after the processor `i` has passed a slot.
abbrev pub moved_on : Machine → ℕ → System × Option Cpu → Machine
moved_on m i r = record { system = r.0; cpus = update m.cpus i r.1 }

IsAbsent-moved_on :
    (u : Setup) (m : Machine) (i : ℕ) (r : System × Option Cpu) (p : ℕ)
    → queued u.prio r.0.sched p + holds r.1 p ≤ 0
    → ((j : ℕ) → j ≢ i → holds (m.cpus j) p ≡ 0)
    → IsAbsent u (moved_on m i r) p
IsAbsent-moved_on u m i r p here there = record {
  unqueued = omega (arith, here);
  unheld = λ j. elim (Bool-cases (j == i)) [
    | inl same ↦ ap (λ (c : Option Cpu). holds c p) (if_eq_true _ _ same) ∙ omega (arith, here)
    | inr other ↦
        ap (λ (c : Option Cpu). holds c p) (if_eq_false _ _ other) ∙ there j (ground arith)
  ];
}

-- A slot of the processor `i`, which runs as `c`.
module _ (u : Setup) (m : Machine) (i : ℕ) (done : Bool) (c : Cpu) (r : System × Option Cpu)
    (running : m.cpus i ≡ some c) (ran : cpu_slot u done m.system c ≡ some r) where
  holds-running : (p : ℕ) → holds (m.cpus i) p ≡ is_it p c.proc
  holds-running p = ap (λ (o : Option Cpu). holds o p) running

  serves : IsSound u m → c.proc ≢ null → u.prio c.proc < max_prio
  unfolding IsServing
  serves sound = subst (IsServing u) running (sound.serving i)

  slot-IsAbsent : (p : ℕ) → IsSound u m → p ≢ null → IsAbsent u m p → IsAbsent u (moved_on m i r) p
  slot-IsAbsent p sound ne absent =
      let bound =
        bounded u (queued u.prio m.system.sched p + is_it p c.proc) p (cpu_slot u done m.system c) r
          ran (cpu_slot-AtMost u done m.system c p sound.valid (serves sound) ne) in
      IsAbsent-moved_on u m i r p
        (omega (arith, bound, absent.unqueued, absent.unheld i, holds-running p))
        (λ j ne. absent.unheld j)

  finished-IsAbsent :
      IsSound u m
      → IsAlone u m
      → c.proc ≢ null
      → m.system.pc c.proc ≡ u.code_size c.proc
      → IsAbsent u (moved_on m i r) c.proc
  finished-IsAbsent sound alone held finished =
      let p = c.proc in
      let is_proc : IsProc u p = (held, serves sound held) in
      let mine : holds (m.cpus i) p ≡ 1 = holds-running p ∙ ground arith in
      let bound =
        bounded u (queued u.prio m.system.sched p) p (cpu_slot u done m.system c) r ran
          (finished-AtMost u done m.system c p sound.valid held finished held) in
      IsAbsent-moved_on u m i r p (omega (arith, bound, mine, alone.one i p is_proc))
        (λ j ne. omega (arith, mine, alone.apart j i p is_proc ne))

  -- A slot in which nothing is freed, or the process that has come to its end.
  pub slot-IsSafe :
      (f g : ℕ → Bool) (loading : Option ℕ)
      → IsSafe u m f loading
      → ((p : ℕ)
          → (g p ≡ f p)
            ⊎ ((p ≡ c.proc) × (c.proc ≢ null) × (m.system.pc c.proc ≡ u.code_size c.proc)))
      → IsSafe u (moved_on m i r) g loading
  slot-IsSafe f g loading safe same =
      let step : Step u m (moved_on m i r) = slot m i done c r running ran in
      record {
        sound = Step-IsSound u safe.sound step;
        alone = Step-IsAlone u safe.sound safe.alone step tt;
        freed = λ p is_proc not_there. elim (same p) [
          | inl e ↦ slot-IsAbsent p safe.sound is_proc.0 (safe.freed p is_proc (sym e ∙ not_there))
          | inr (e, held, finished) ↦
              subst (IsAbsent u (moved_on m i r)) (sym e)
                (finished-IsAbsent safe.sound safe.alone held finished)
        ];
        pending = λ p e.
            let before = safe.pending p e in
            record {
              not_null = before.not_null;
              allocated = elim (same p) [
                | inl e ↦ e ∙ before.allocated
                | inr (e, held, finished) ↦
                    let is_proc : IsProc u c.proc = (held, serves safe.sound held) in
                    let unheld =
                      (subst (λ (q : ℕ). IsProc u q → IsAbsent u m q) e before.absent
                          is_proc).unheld
                        i in
                    let mine : holds (m.cpus i) c.proc ≡ 1 = holds-running c.proc ∙ ground arith in
                    absurd (omega (arith, mine, unheld))
              ];
              absent = λ is_proc. slot-IsAbsent p safe.sound is_proc.0 (before.absent is_proc);
            };
      }

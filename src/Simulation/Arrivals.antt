-- ===== src/Simulation/Arrivals.antt =====
-- A process that the loader gets from `malloc`, with its priority, and then adds.
use os_assignment.Base.{
  ℕ, ◌+◌, ◌≤◌, ◌<◌, ◌≡◌, ◌≢◌, refl, ap, sym, subst, ◌∙◌, Bool, true, false, Option, none, some,
  List, [], ◌∷◌, ◌==◌, All, update, arith, if_eq_true, if_eq_false, Bool-cases, inl, inr,
}
use native.Mathlib.Decide.{ℕ_discrete}
use os_assignment.Queue.{null, contents}
use os_assignment.Sched.{Sched, max_prio, add_mlq_proc}
use os_assignment.Sched.Return.{put_mlq_proc-IsReturned, add_mlq_proc-eq-put_mlq_proc}
use os_assignment.Processor.{Cpu, Setup}
use os_assignment.Processor.Runs.{Machine, load, IsServing, IsSound, Step-IsSound}
use os_assignment.Processor.Places.{count, queued, holds, not_it, put_count}
use os_assignment.Processor.Alone.{IsProc, IsAlone, same_some, Step-IsAlone}
use os_assignment.Simulation.Blocks.{IsAbsent, IsPending, IsSafe}

true-false : true ≡ false → ⊥
true-false e = cc

none-some : {A : Type 0} {x : A} → none ≡ some x → ⊥
none-some e = cc

-- `add_proc` has a result only for a priority below 140.
add_mlq_proc-prio :
    (prio : ℕ → ℕ) (s t : Sched) (p : ℕ) → add_mlq_proc prio s p ≡ some t → prio p < max_prio
unfolding add_mlq_proc
add_mlq_proc-prio prio s t p e = ground arith

-- A queue of another level does not hold a process.
count-other_level :
    (prio : ℕ → ℕ) (p k : ℕ) (xs : List ℕ)
    → All (λ x. (prio x ≡ k) × (x ≢ null)) xs
    → prio p ≢ k
    → count p xs ≡ 0
count-other_level prio p k [] h ne = refl
count-other_level prio p k (x ∷ xs) (h, hs) ne =
    omega (arith, count-other_level prio p k xs hs ne, not_it p x (λ e. ne (sym (ap prio e) ∙ h.0)))

-- A level that does not hold `p` is as before when the priority of `p` changes.
level-update :
    (prio : ℕ → ℕ) (p q k : ℕ) (xs : List ℕ)
    → All (λ x. (prio x ≡ k) × (x ≢ null)) xs
    → count p xs ≡ 0
    → All (λ x. (update prio p q x ≡ k) × (x ≢ null)) xs
level-update prio p q k [] h e = tt
level-update prio p q k (x ∷ xs) (h, hs) e =
    let other : (x == p) ≡ false = ground arith in
    ((if_eq_false _ _ other ∙ h.0, h.1), level-update prio p q k xs hs (omega (arith, e)))

unheld-IsServing :
    (u : Setup) (p : ℕ) (c : Option Cpu)
    → p ≢ null
    → IsServing u c
    → (u.prio p < max_prio → holds c p ≡ 0)
    → holds c p ≡ 0
unfolding IsServing
unheld-IsServing u p none ne serves h = refl
unheld-IsServing u p (some c) ne serves h = elim (ℕ_discrete c.proc p) [
  | yes e ↦ h (subst (λ (q : ℕ). u.prio q < max_prio) e (serves (λ e'. ne (sym e ∙ e'))))
  | no other ↦ not_it p c.proc other
]

update-IsServing :
    (u v : Setup) (p q : ℕ) (c : Option Cpu)
    → v.prio ≡ update u.prio p q
    → IsServing u c
    → holds c p ≡ 0
    → IsServing v c
unfolding IsServing
update-IsServing u v p q none e serves h = tt
update-IsServing u v p q (some c) e serves h = λ ne.
    let other : (c.proc == p) ≡ false = ground arith in
    subst (λ (x : ℕ). x < max_prio) (sym (ap (λ (f : ℕ → ℕ). f c.proc) e ∙ if_eq_false _ _ other))
      (serves ne)

-- The machine with other program counters.
abbrev pub renewed : Machine → (ℕ → ℕ) → Machine
renewed m pc = record m { system = record (m.system) { pc = pc } }

-- The block `p`, which was not allocated, gets a priority and a program; no process was pending.
module _ (u v : Setup) (m : Machine) (pc : ℕ → ℕ) (f : ℕ → Bool) (p q : ℕ)
    (changed : v.prio ≡ update u.prio p q) (safe : IsSafe u m f none) (ne : p ≢ null)
    (is_free : f p ≡ false) where
  unheld : (i : ℕ) → holds (m.cpus i) p ≡ 0
  unheld i =
      unheld-IsServing u p (m.cpus i) ne (safe.sound.serving i)
        (λ l. (safe.freed p (ne, l) is_free).unheld i)

  unlisted : (k : ℕ) → k < max_prio → count p (contents (m.system.sched.mlq_ready_queue k)) ≡ 0
  unlisted k l = elim (ℕ_discrete (u.prio p) k) [
    | yes e ↦
        subst (λ (j : ℕ). count p (contents (m.system.sched.mlq_ready_queue j)) ≡ 0) e
          (safe.freed p (ne, omega (arith, e)) is_free).unqueued
    | no other ↦ count-other_level u.prio p k _ (safe.sound.valid.levels k l) other
  ]

  new_prio : v.prio p ≡ q
  new_prio =
      let here : (p == p) ≡ true = ground arith in
      ap (λ (g : ℕ → ℕ). g p) changed ∙ if_eq_true _ _ here

  old_prio : (x : ℕ) → x ≢ p → v.prio x ≡ u.prio x
  old_prio x other =
      let there : (x == p) ≡ false = ground arith in
      ap (λ (g : ℕ → ℕ). g x) changed ∙ if_eq_false _ _ there

  old_queue : (x : ℕ) → x ≢ p → queued v.prio m.system.sched x ≡ queued u.prio m.system.sched x
  old_queue x other =
      ap (λ (k : ℕ). count x (contents (m.system.sched.mlq_ready_queue k))) (old_prio x other)

  old-IsProc : (x : ℕ) → x ≢ p → IsProc v x → IsProc u x
  old-IsProc x other (h, l) = (h, omega (arith, l, old_prio x other))

  p-IsAbsent : IsProc v p → IsAbsent v (renewed m pc) p
  p-IsAbsent (h, l) = record { unqueued = unlisted (v.prio p) l; unheld = unheld }

  renewed-IsSound : IsSound v (renewed m pc)
  renewed-IsSound = record {
    valid = record {
      inited = safe.sound.valid.inited;
      budget = safe.sound.valid.budget;
      fits = safe.sound.valid.fits;
      running_fits = safe.sound.valid.running_fits;
      levels = λ k l.
          subst
            (λ (g : ℕ → ℕ).
              All (λ x. (g x ≡ k) × (x ≢ null)) (contents (m.system.sched.mlq_ready_queue k)))
            (sym changed)
            (level-update u.prio p q k _ (safe.sound.valid.levels k l) (unlisted k l));
    };
    serving = λ i. update-IsServing u v p q (m.cpus i) changed (safe.sound.serving i) (unheld i);
  }

  renewed-IsAlone : IsAlone v (renewed m pc)
  renewed-IsAlone = record {
    one = λ i x is_proc. elim (ℕ_discrete x p) [
      | yes e ↦
          subst (λ (y : ℕ). queued v.prio m.system.sched y + holds (m.cpus i) y ≤ 1) (sym e)
            (omega (arith, unheld i, unlisted (v.prio p) (subst (IsProc v) e is_proc).1))
      | no other ↦ omega (arith, old_queue x other, safe.alone.one i x (old-IsProc x other is_proc))
    ];
    apart = λ i j x is_proc ne'. elim (ℕ_discrete x p) [
      | yes e ↦
          subst (λ (y : ℕ). holds (m.cpus i) y + holds (m.cpus j) y ≤ 1) (sym e)
            (omega (arith, unheld i, unheld j))
      | no other ↦ safe.alone.apart i j x (old-IsProc x other is_proc) ne'
    ];
  }

  pub renewed-IsSafe : IsSafe v (renewed m pc) (update f p true) (some p)
  renewed-IsSafe = record {
    sound = renewed-IsSound;
    alone = renewed-IsAlone;
    freed = λ x is_proc is_free'. elim (Bool-cases (x == p)) [
      | inl same ↦ absurd (true-false (sym (if_eq_true _ _ same) ∙ is_free'))
      | inr other ↦
          let ne' : x ≢ p = ground arith in
          let absent =
            safe.freed x (old-IsProc x ne' is_proc) (sym (if_eq_false _ _ other) ∙ is_free') in
          record { unqueued = old_queue x ne' ∙ absent.unqueued; unheld = absent.unheld }
    ];
    pending = λ x e.
        let same : p ≡ x = cc in
        let here : (p == p) ≡ true = ground arith in
        subst (IsPending v (renewed m pc) (update f p true)) same
          (record { not_null = ne; allocated = if_eq_true _ _ here; absent = p-IsAbsent });
  }

-- The loader adds the process that was pending.
pub add-IsSafe :
    (u : Setup) (m : Machine) (f : ℕ → Bool) (p : ℕ) (t : Sched)
    → IsSafe u m f (some p)
    → add_mlq_proc u.prio m.system.sched p ≡ some t
    → IsSafe u (record m { system = record (m.system) { sched = t } }) f none
add-IsSafe u m f p t safe added =
    let pending = safe.pending p refl in
    let l = add_mlq_proc-prio u.prio m.system.sched t p added in
    let is_proc : IsProc u p = (pending.not_null, l) in
    let absent = pending.absent is_proc in
    let step = load m p t pending.not_null l added in
    let (t', put, returned, valid) =
      put_mlq_proc-IsReturned u.prio m.system.sched p pending.not_null l in
    let same : some t' ≡ some t =
      sym put ∙ sym (add_mlq_proc-eq-put_mlq_proc u.prio m.system.sched p) ∙ added in
    record {
      sound = Step-IsSound u safe.sound step;
      alone = Step-IsAlone u safe.sound safe.alone step (absent.unqueued, absent.unheld);
      freed = λ x is_proc' is_free.
          let before = safe.freed x is_proc' is_free in
          let other : p ≢ x = λ e. true-false (sym pending.allocated ∙ ap f e ∙ is_free) in
          record {
            unqueued = omega (
              arith,
              same_some u.prio m.system.sched t' t p x same
                  (put_count u.prio m.system.sched t' p x returned),
              before.unqueued,
              not_it x p other,
            );
            unheld = before.unheld;
          };
      pending = λ x e. absurd (none-some e);
    }

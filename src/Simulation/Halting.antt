-- ===== src/Simulation/Halting.antt =====
-- What keeps the simulation going: a processor behind its loop has made its step, or is gone.
use os_assignment.Base.{
  ℕ, ◌<◌, ◌≡◌, ◌≢◌, ◌⊎◌, refl, ap, sym, subst, ◌∙◌, Bool, true, false, none, List, ◌==◌, ltb, inl,
  inr, arith, Bool-cases, if_eq_true, if_eq_false,
}
use os_assignment.Config.{Job}
use os_assignment.Timer.{Device, System, working, waiting, gone}
use os_assignment.Simulation.{Shared}
use os_assignment.Simulation.Threads.{
  Fixed, World, first_world, has_stopped, is_over, IsTurn, passed, called, Step, time, slot, load,
  wait, add, finish, next_slot, wake, detach_event, stop, Run, start, then_step,
}
use os_assignment.Simulation.Keeping.{timer_place}

-- A processor behind its loop has made its step, or is gone.
abbrev pub IsHalted : World → ℕ → Type 0
IsHalted w i = w.cpus i ≡ none → IsTurn w i true ⊎ ((w.timer.device i).place ≡ gone)

pub working-gone : (w : World) (i : ℕ) → IsTurn w i false → (w.timer.device i).place ≡ gone → ⊥
working-gone w i h e = let same : working ≡ gone = sym h.at_work ∙ e in cc

true-false : true ≡ false → ⊥
true-false e = cc

waiting-IsHalted :
    (w : World) (i : ℕ) → (w.timer.device i).place ≡ waiting → IsHalted w i → w.cpus i ≢ none
waiting-IsHalted w i e h behind = elim (h behind) [
  | inl at ↦ let same : working ≡ waiting = sym at.at_work ∙ e in absurd (cc)
  | inr left ↦ let same : gone ≡ waiting = sym left ∙ e in absurd (cc)
]

-- Another thread calls the timer, or passes its step.
called-IsHalted :
    (w : World) (i j : ℕ) (d : Device)
    → IsHalted w i
    → (i ≡ j → w.cpus i ≡ none → d.place ≡ gone)
    → IsHalted (called w j d) i
called-IsHalted w i j d h here behind = elim (Bool-cases (i == j)) [
  | inl same ↦ inr (ap (λ (e : Device). e.place) (if_eq_true _ _ same) ∙ here (ground arith) behind)
  | inr other ↦
      let device = if_eq_false d (w.timer.device i) other in
      elim (h behind) [
        | inl at ↦ inl (record {
          at_work = ap (λ (e : Device). e.place) device ∙ at.at_work;
          step = if_eq_false _ _ other ∙ at.step;
        })
        | inr left ↦ inr (ap (λ (e : Device). e.place) device ∙ left)
      ]
]

-- The thread `j` makes its step, and the thread `i` has stopped before, or with it.
passed-IsHalted :
    (w z : World) (i j : ℕ)
    → z.timer ≡ w.timer
    → z.acted ≡ w.acted
    → IsTurn w j false
    → (i ≢ j → IsTurn w i true ⊎ ((w.timer.device i).place ≡ gone))
    → IsTurn (passed z j) i true ⊎ ((z.timer.device i).place ≡ gone)
passed-IsHalted w z i j t a h there =
    let place = λ (k : ℕ). ap (λ (s : System). (s.device k).place) t in
    elim (Bool-cases (i == j)) [
      | inl same ↦
          let j_is_i : j ≡ i = ground arith in
          inl (record {
            at_work =
                place i ∙ subst (λ (k : ℕ). (w.timer.device k).place ≡ working) j_is_i h.at_work;
            step = if_eq_true _ _ same;
          })
      | inr other ↦ elim (there (ground arith)) [
        | inl at ↦ inl (record {
          at_work = place i ∙ at.at_work;
          step = if_eq_false _ _ other ∙ ap (λ (f : ℕ → Bool). f i) a ∙ at.step;
        })
        | inr left ↦ inr (place i ∙ left)
      ]
    ]

timer-IsHalted :
    (w : World) (i : ℕ) (t : System)
    → (t.device i).place ≡ (w.timer.device i).place
    → IsHalted w i
    → IsHalted (record w { timer = t }) i
timer-IsHalted w i t e h behind = elim (h behind) [
  | inl at ↦ inl (record { at_work = e ∙ at.at_work; step = at.step })
  | inr left ↦ inr (e ∙ left)
]

not_over :
    (x : Fixed) (w : World) (i : ℕ) → i < x.num_cpus → is_over x w i ≡ false → w.cpus i ≢ none
not_over x w i l over behind =
    let processor : (i == x.num_cpus) ≡ false = ground arith in
    true-false (sym (ap has_stopped behind) ∙ sym (if_eq_false _ _ processor) ∙ over)

Step-IsHalted :
    (x : Fixed) {w z : World} (i : ℕ) → i < x.num_cpus → IsHalted w i → Step x w z → IsHalted z i
Step-IsHalted x {w} i l h (time {t} step) = timer-IsHalted w i t (timer_place i step).0 h
Step-IsHalted x {w} i l h (slot j junk c r l' at running ran) = λ behind.
    passed-IsHalted w _ i j refl refl at (λ ne.
      let other : (i == j) ≡ false = ground arith in h (sym (if_eq_false _ _ other) ∙ behind))
Step-IsHalted x {w} i l h (load proc junk job rest s at js e ne is_free ran) = λ behind.
    elim (h behind) [
      | inl still ↦ inl (record { at_work = still.at_work; step = still.step })
      | inr left ↦ inr left
    ]
Step-IsHalted x {w} i l h (wait proc job rest at js e early) =
    λ behind. passed-IsHalted w _ i x.num_cpus refl refl at (λ ne. h behind)
Step-IsHalted x {w} i l h (add proc junk left job rest s at js e due ran) =
    λ behind. passed-IsHalted w _ i x.num_cpus refl refl at (λ ne. h behind)
Step-IsHalted x {w} i l h (finish at js) =
    λ behind. passed-IsHalted w _ i x.num_cpus refl refl at (λ ne. h behind)
Step-IsHalted x {w} i l h (next_slot j l' at over) = called-IsHalted w i j _ h (λ e behind.
    absurd (not_over x w i l (subst (λ (k : ℕ). is_over x w k ≡ false) (sym e) over) behind))
Step-IsHalted x {w} i l h (wake j l' e done) = called-IsHalted w i j _ h (λ same behind. absurd (
    waiting-IsHalted w i (subst (λ (k : ℕ). (w.timer.device k).place ≡ waiting) (sym same) e) h
      behind))
Step-IsHalted x {w} i l h (detach_event j l' at over) =
    called-IsHalted w i j _ h (λ same behind. refl)
Step-IsHalted x {w} i l h (stop all_gone) = timer-IsHalted w i _ refl h

pub Run-IsHalted :
    (x : Fixed) (s : Shared) (jobs : List Job) {w : World} (i : ℕ)
    → i < x.num_cpus
    → Run x (first_world x s jobs) w
    → IsHalted w i
Run-IsHalted x s jobs i l start = λ behind.
    let there : ltb i x.num_cpus ≡ true = ground arith in
    let impossible = sym (if_eq_true _ _ there) ∙ behind in absurd (cc)
Run-IsHalted x s jobs i l (then_step run step) =
    Step-IsHalted x i l (Run-IsHalted x s jobs i l run) step

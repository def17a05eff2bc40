-- ===== src/Simulation/Going.antt =====
-- os.c: what a thread that the timer waits for does next.
use os_assignment.Base.{
  ℕ, ◌+◌, ◌<◌, ◌≡◌, ◌≢◌, ◌⊎◌, refl, ap, sym, subst, ◌∙◌, true, false, none, some, List, [], ◌∷◌,
  ltb, inl, inr, arith, Bool-cases, Option-cases,
}
use native.Mathlib.Decide.{ℕ_discrete}
use os_assignment.Queue.{null}
use os_assignment.Processor.{Cpu}
use os_assignment.Config.{Job}
use os_assignment.Timer
use os_assignment.Timer.{
  Device, System, working, waiting, gone, stopped, collect, current_time, DeviceStep,
}
use os_assignment.Region.{Mm}
use os_assignment.Instruction.{Inst}
use os_assignment.Simulation.{Shared, cpu_routine, load_job, add_job}
use os_assignment.Simulation.Threads.{
  Fixed, World, is_over, IsTurn, Step, slot, load, wait, add, finish, next_slot, wake, detach_event,
}
use os_assignment.Simulation.Halting.{working-gone}

-- What the next step of a thread at work lacks.
pub data Fault (x : Fixed) (p : ℕ) (text : ℕ → Inst) (left : Mm) (w : World) : Type 0 where
  undefined_slot :
      (i : ℕ) (c : Cpu)
      → i < x.num_cpus
      → IsTurn w i false
      → w.cpus i ≡ some c
      → cpu_routine x.time_slot 0 w.done w.shared c ≡ none
      → Fault x p text left w
  cannot_load :
      (job : Job) (rest : List Job)
      → IsTurn w x.num_cpus false
      → w.jobs ≡ job ∷ rest
      → w.loading ≡ none
      → ((s : Shared) → load_job x.files text w.shared p job ≢ some (some s))
      → Fault x p text left w
  cannot_add :
      (q : ℕ) (job : Job) (rest : List Job)
      → IsTurn w x.num_cpus false
      → w.jobs ≡ job ∷ rest
      → w.loading ≡ some q
      → ltb (current_time w.timer) job.start_time ≡ false
      → add_job [] left w.shared q ≡ none
      → Fault x p text left w

true-false : true ≡ false → ⊥
true-false e = cc

none-some : {A : Type 0} {a : A} → none ≡ some a → ⊥
none-some e = cc

some-same : {A : Type 0} {a b : A} → some a ≡ some b → a ≡ b
some-same e = cc

-- A step of the simulation, or what is lacking.
abbrev pub Going : Fixed → ℕ → (ℕ → Inst) → Mm → World → Type 0
Going x p text left w = ((z : World) × Step x w z) ⊎ Fault x p text left w

loader-Going :
    (x : Fixed) (p : ℕ) (text : ℕ → Inst) (left : Mm) (w : World) (js : List Job)
    → p ≢ null
    → w.shared.allocated p ≡ false
    → IsTurn w x.num_cpus false
    → w.jobs ≡ js
    → Going x p text left w
loader-Going x p text left w [] ne is_free h e = inl (_, finish h e)
loader-Going x p text left w (job ∷ rest) ne is_free h e = elim (Option-cases w.loading) [
  | inl idle ↦ elim (Option-cases (load_job x.files text w.shared p job)) [
    | inl undefined ↦ inr (cannot_load job rest h e idle (λ s ran. none-some (sym undefined ∙ ran)))
    | inr (o, made) ↦ elim (Option-cases o) [
      | inl exits ↦ inr (
          cannot_load job rest h e idle
            (λ s ran. none-some (sym exits ∙ some-same (sym made ∙ ran))))
      | inr (s, there) ↦ inl (_, load p text job rest s h e idle ne is_free (made ∙ ap some there))
    ]
  ]
  | inr (q, holding) ↦ elim (Bool-cases (ltb (current_time w.timer) job.start_time)) [
    | inl soon ↦ inl (_, wait q job rest h e holding soon)
    | inr due ↦ elim (Option-cases (add_job [] left w.shared q)) [
      | inl undefined ↦ inr (cannot_add q job rest h e holding due undefined)
      | inr (s, ran) ↦ inl (_, add q [] left job rest s h e holding due ran)
    ]
  ]
]

at_work-Going :
    (x : Fixed) (p : ℕ) (text : ℕ → Inst) (left : Mm) (w : World) (i : ℕ)
    → p ≢ null
    → w.shared.allocated p ≡ false
    → i < x.num_cpus + 1
    → (i < x.num_cpus → w.cpus i ≡ none → IsTurn w i true ⊎ ((w.timer.device i).place ≡ gone))
    → (w.timer.device i).place ≡ working
    → Going x p text left w
at_work-Going x p text left w i ne is_free l halted e = elim (Bool-cases (w.acted i)) [
  | inl acted ↦
      let h : IsTurn w i true = record { at_work = e; step = acted } in
      elim (Bool-cases (is_over x w i)) [
        | inl over ↦ inl (_, detach_event i l h over)
        | inr more ↦ inl (_, next_slot i l h more)
      ]
  | inr not_yet ↦
      let h : IsTurn w i false = record { at_work = e; step = not_yet } in
      elim (ℕ_discrete i x.num_cpus) [
        | yes loader ↦
            loader-Going x p text left w w.jobs ne is_free
              (subst (λ (k : ℕ). IsTurn w k false) loader h) refl
        | no processor ↦
            let l' : i < x.num_cpus = omega (arith, l, processor) in
            elim (Option-cases (w.cpus i)) [
              | inl behind ↦ elim (halted l' behind) [
                | inl at ↦ absurd (true-false (sym at.step ∙ not_yet))
                | inr left_it ↦ absurd (working-gone w i h left_it)
              ]
              | inr (c, running) ↦
                  elim (Option-cases (cpu_routine x.time_slot 0 w.done w.shared c)) [
                    | inl undefined ↦ inr (undefined_slot i c l' h running undefined)
                    | inr (r, ran) ↦ inl (_, slot i 0 c r l' h running ran)
                  ]
            ]
      ]
]

pub device-Going :
    (x : Fixed) (p : ℕ) (text : ℕ → Inst) (left : Mm) (w : World) (i : ℕ) {d : Device}
    → p ≢ null
    → w.shared.allocated p ≡ false
    → i < x.num_cpus + 1
    → (i < x.num_cpus → w.cpus i ≡ none → IsTurn w i true ⊎ ((w.timer.device i).place ≡ gone))
    → DeviceStep (w.timer.device i) d
    → Going x p text left w
device-Going x p text left w i ne is_free l halted (Timer.next_slot e) =
    at_work-Going x p text left w i ne is_free l halted e
device-Going x p text left w i ne is_free l halted (Timer.wake e q) = inl (_, wake i l e q)
device-Going x p text left w i ne is_free l halted (Timer.detach_event e) =
    at_work-Going x p text left w i ne is_free l halted e

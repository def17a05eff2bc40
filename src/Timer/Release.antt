-- ===== src/Timer/Release.antt =====
-- How far the timer's thread comes alone: it lets a device go, or waits for another one.
use os_assignment.Base.{
  ℕ, zero, suc, ◌+◌, ◌-◌, ◌≤◌, ◌<◌, ◌≡◌, ◌≢◌, ◌⊎◌, inl, inr, refl, ap, sym, subst, ◌∙◌, true, false,
  ◌==◌, arith, update, if_eq_true, if_eq_false, if◌then◌else◌,
}
use native.Mathlib.Decide.{dec_lt}
use os_assignment.Timer.{
  Device, Phase, System, waiting, gone, head, stopped, collect, release, TimerStep, begin, see,
  tick, let_go, again, DeviceStep, next_slot, wake, timer, Reach,
}
use os_assignment.Timer.Invariant.{
  free, IsLocal, at_work, called, woken, left, Inv, IsLocal-at, IsCounted-at,
}
use os_assignment.Timer.Moves.{Reach-Inv, Step-Inv, restage, unseen}

-- Steps of the timer's thread alone lead to `last`.
pub data RunsTo (n : ℕ) (last : System) : System → Type 0 where
  stay : RunsTo n last last
  onward : {s t : System} → TimerStep n s t → RunsTo n last t → RunsTo n last s

-- The timer lets the device `i` go, and has changed nothing else of it.
abbrev pub LetsGo : ℕ → ℕ → System → Type 0
LetsGo n i s = (t : System) × RunsTo n t s × (t.device i ≡ record (s.device i) { done = false })

-- The timer comes to a device `k` that has neither called `next_slot` nor detached, and waits for
-- it; and that device has a step.
abbrev pub WaitsFor : ℕ → System → ℕ → System → Type 0
WaitsFor n s k t =
    RunsTo n t s
    × (k < n)
    × ((fsh : ℕ) × (t.phase ≡ collect k fsh))
    × ((t.device k).done ≡ false)
    × ((t.device k).fsh ≡ false)
    × ((d : Device) × DeviceStep (t.device k) d)

abbrev pub Comes : ℕ → ℕ → System → Type 0
Comes n i s = LetsGo n i s ⊎ ((k : ℕ) × (t : System) × WaitsFor n s k t)

update_other : (f : ℕ → Device) (j i : ℕ) (d : Device) → i ≢ j → update f j d i ≡ f i
update_other f j i d ne = let there : (i == j) ≡ false = ground arith in if_eq_false _ _ there

update_at : (f : ℕ → Device) (i : ℕ) (d : Device) → update f i d i ≡ d
update_at f i d = let here : (i == i) ≡ true = ground arith in if_eq_true _ _ here

LetsGo-after :
    (n i : ℕ) (s t : System)
    → TimerStep n s t
    → t.device i ≡ s.device i
    → LetsGo n i t
    → LetsGo n i s
LetsGo-after n i s t step same (u, run, e) =
    (u, onward step run, e ∙ ap (λ (d : Device). record d { done = false }) same)

Comes-after :
    (n i : ℕ) (s t : System) → TimerStep n s t → t.device i ≡ s.device i → Comes n i t → Comes n i s
Comes-after n i s t step same (inl goes) = inl (LetsGo-after n i s t step same goes)
Comes-after n i s t step same (inr (k, u, (run, inside, at, p, q, move))) =
    inr (k, u, (onward step run, inside, at, p, q, move))

module _ {n i : ℕ} (l : i < n) where
  -- In the second loop, up to the device `i`.
  lets_go :
      (m : ℕ) (s : System) (j fsh event : ℕ)
      → s.phase ≡ release j fsh event
      → j + m ≡ i
      → LetsGo n i s
  lets_go zero s j fsh event e h =
      let d : Device = record (s.device j) { done = false } in
      let same : j ≡ i = omega arith in
      (
        record s { phase = release (j + 1) fsh event; device = update s.device j d },
        onward (let_go j fsh event e (omega arith)) stay,
        subst (λ (k : ℕ). update s.device j d k ≡ record (s.device k) { done = false }) same
            (update_at s.device j d),
      )
  lets_go (suc m) s j fsh event e h =
      let d : Device = record (s.device j) { done = false } in
      let next : System = record s {
        phase = release (j + 1) fsh event;
        device = update s.device j d;
      } in
      LetsGo-after n i s next (let_go j fsh event e (omega arith))
        (update_other s.device j i d (omega arith))
        (lets_go m next (j + 1) fsh event refl (omega arith))

  -- At a device of the first loop: the timer passes it, or waits for it.
  at_device-Comes :
      (s : System) (j fsh : ℕ)
      → s.phase ≡ collect j fsh
      → j < n
      → IsLocal s.ticks (s.device j) free
      → (let next : System = record s {
        phase = collect (j + 1) (if (s.device j).fsh then fsh + 1 else fsh);
      } in
          TimerStep n s next → Comes n i next)
      → Comes n i s
  at_device-Comes s j fsh e l' (at_work p q r h) on =
      inr (j, s, (stay, l', (fsh, e), q, r, (_, next_slot p)))
  at_device-Comes s j fsh e l' (woken p q r h) on =
      inr (j, s, (stay, l', (fsh, e), q, r, (_, wake p q)))
  at_device-Comes s j fsh e l' (called p q r h) on =
      let step = see j fsh e l' (inl q) in Comes-after n i s _ step refl (on step)
  at_device-Comes s j fsh e l' (left p q) on =
      let step = see j fsh e l' (inr q) in Comes-after n i s _ step refl (on step)

  -- From a place in the first loop on, with at most `m` devices left.
  collects :
      (m : ℕ) (s : System) (j fsh : ℕ) → Inv n s → s.phase ≡ collect j fsh → n ≤ j + m → Comes n i s
  collects zero s j fsh inv e h =
      let next : System = record s { ticks = s.ticks + 1; phase = release 0 fsh j } in
      inl (
        LetsGo-after n i s next (tick j fsh e (omega arith)) refl
          (lets_go i next 0 fsh j refl (omega arith)))
  collects (suc m) s j fsh inv e h = elim (dec_lt j n) [
    | yes l' ↦
        at_device-Comes s j fsh e l'
          (restage (unseen j fsh j (omega arith)) (IsLocal-at s (collect j fsh) inv e j l'))
          (λ step. collects m _ (j + 1) _ (Step-Inv inv (timer step)) refl (omega arith))
    | no past ↦ collects m s j fsh inv e (omega arith)
  ]

  begins : (s : System) → Inv n s → s.phase ≡ head → s.timer_stop ≡ false → Comes n i s
  begins s inv e runs =
      let step = begin e runs in
      Comes-after n i s (record s { phase = collect 0 0 }) step refl
        (collects n _ 0 0 (Step-Inv inv (timer step)) refl (omega arith))

  -- From a place in the second loop behind `i`: the next round.
  goes_round :
      (m : ℕ) (s : System) (j fsh event : ℕ)
      → Inv n s
      → s.phase ≡ release j fsh event
      → n ≤ j + m
      → i < j
      → (s.device i).place ≢ gone
      → s.timer_stop ≡ false
      → Comes n i s
  goes_round zero s j fsh event inv e h behind there runs =
      let counts = IsCounted-at s (release j fsh event) inv e in
      let step =
        again j fsh event e (omega arith)
          (λ all. there (counts.1 all i (omega (arith, counts.0)))) in
      Comes-after n i s (record s { phase = head }) step refl
        (begins _ (Step-Inv inv (timer step)) refl runs)
  goes_round (suc m) s j fsh event inv e h behind there runs = elim (dec_lt j n) [
    | yes l' ↦
        let d : Device = record (s.device j) { done = false } in
        let other : update s.device j d i ≡ s.device i =
          update_other s.device j i d (omega arith) in
        let step = let_go j fsh event e l' in
        Comes-after n i s
          (record s { phase = release (j + 1) fsh event; device = update s.device j d }) step other
          (goes_round m _ (j + 1) fsh event (Step-Inv inv (timer step)) refl (omega arith)
            (omega arith) (λ g. there (ap (λ (x : Device). x.place) (sym other) ∙ g)) runs)
    | no past ↦ goes_round m s j fsh event inv e (omega arith) behind there runs
  ]

  phase-Comes :
      (s : System) (p : Phase)
      → Inv n s
      → s.phase ≡ p
      → p ≢ stopped
      → (s.device i).place ≢ gone
      → s.timer_stop ≡ false
      → Comes n i s
  phase-Comes s head inv e h there runs = begins s inv e runs
  phase-Comes s stopped inv e h there runs = absurd (h refl)
  phase-Comes s (collect j fsh) inv e h there runs = collects n s j fsh inv e (omega arith)
  phase-Comes s (release j fsh event) inv e h there runs = elim (dec_lt i j) [
    | yes behind ↦ goes_round n s j fsh event inv e (omega arith) behind there runs
    | no before ↦ inl (lets_go (i - j) s j fsh event e (omega arith))
  ]

-- In every reachable state in which the timer has not ended and is not to stop, for a device that
-- waits in `next_slot`: the steps of the timer alone lead to a state where it is let go, its
-- `done` being reset and nothing else of it changed, so that it can wake; or they lead to a
-- device that has neither called `next_slot` in this slot nor detached, which is the one that the
-- timer waits for, and that device's thread has a step.
pub wakes_or_waits :
    {n : ℕ} {s : System}
    → Reach n s
    → s.phase ≢ stopped
    → s.timer_stop ≡ false
    → (i : ℕ) → i < n
    → (s.device i).place ≡ waiting
    → Comes n i s
wakes_or_waits {s} r h runs i l e = phase-Comes l s s.phase (Reach-Inv r) refl h (λ g. cc) runs

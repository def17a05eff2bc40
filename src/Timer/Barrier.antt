-- ===== src/Timer/Barrier.antt =====
-- What the timer promises of the threads that it keeps in step.
use os_assignment.Base.{ℕ, ◌+◌, ◌≤◌, ◌<◌, ◌≡◌, ◌≢◌, ◌⊎◌, inl, inr, refl, true, arith, Bool-cases}
use native.Mathlib.Decide.{dec_lt, ℕ_discrete}
use os_assignment.Timer.{
  Device, Phase, System, working, gone, head, stopped, collect, release, TimerStep, begin, halt,
  see, tick, let_go, again, finish, DeviceStep, next_slot, wake, Reach,
}
use os_assignment.Timer.Invariant.{
  Stage, free, held, due, stage, IsLocal, at_work, called, woken, stopped_at, overdue, left, Inv,
  IsLocal-at, IsCounted-at,
}
use os_assignment.Timer.Moves.{Reach-Inv, restage, unseen}

-- A device that has not gone is in the current slot, or in the one before if it waits.
abbrev pub IsInStep : ℕ → Device → Type 0
IsInStep ticks d = (d.slots ≤ ticks) × (ticks ≤ d.slots + 1) × (d.place ≡ working → d.slots ≡ ticks)

in_step :
    (ticks : ℕ) (d : Device) (g : Stage) → d.place ≢ gone → IsLocal ticks d g → IsInStep ticks d
in_step ticks d free h (at_work p q r e) = (omega arith, omega arith, λ w. e)
in_step ticks d free h (called p q r e) = (omega arith, omega arith, λ w. e)
in_step ticks d free h (woken p q r e) = (omega arith, omega arith, λ w. cc)
in_step ticks d held h (stopped_at p q r e) = (omega arith, omega arith, λ w. cc)
in_step ticks d due h (overdue p q r e) = (omega arith, omega arith, λ w. cc)
in_step ticks d g h (left p q) = absurd (h p)

-- In every reachable state, of two devices that have not detached neither is more than one time
-- slot ahead of the other, and one that is at work is in the slot that the timer counts.
pub lockstep :
    {n : ℕ} {s : System}
    → Reach n s
    → (i j : ℕ) → i < n
    → j < n
    → (s.device i).place ≢ gone
    → (s.device j).place ≢ gone
    → ((s.device i).slots ≤ (s.device j).slots + 1)
      × ((s.device i).place ≡ working → (s.device i).slots ≡ s.ticks)
lockstep {n} {s} r i j l l' h h' =
    let inv = Reach-Inv r in
    let a = in_step s.ticks (s.device i) (stage s.phase i) h (inv.local i l) in
    let b = in_step s.ticks (s.device j) (stage s.phase j) h' (inv.local j l') in
    (omega (arith, a.0, b.1), a.2)

-- What can happen next at the place where the timer is: a step of the timer, or of a device that
-- it waits for.
abbrev pub Next : ℕ → System → Type 0
Next n s =
    ((t : System) × TimerStep n s t)
    ⊎ ((i : ℕ) × (d : Device) × (i < n) × DeviceStep (s.device i) d)

collect-Next :
    (n : ℕ) (s : System) (j fsh : ℕ)
    → s.phase ≡ collect j fsh
    → j < n
    → IsLocal s.ticks (s.device j) free
    → Next n s
collect-Next n s j fsh e l (at_work p q r h) = inr (j, _, l, next_slot p)
collect-Next n s j fsh e l (called p q r h) = inl (_, see j fsh e l (inl q))
collect-Next n s j fsh e l (woken p q r h) = inr (j, _, l, wake p q)
collect-Next n s j fsh e l (left p q) = inl (_, see j fsh e l (inr q))

phase-Next : {n : ℕ} {s : System} (p : Phase) → Inv n s → s.phase ≡ p → p ≢ stopped → Next n s
phase-Next {n} {s} head inv e h = elim (Bool-cases s.timer_stop) [
  | inl ended ↦ inl (_, halt e ended)
  | inr runs ↦ inl (_, begin e runs)
]
phase-Next stopped inv e h = absurd (h refl)
phase-Next {n} {s} (collect j fsh) inv e h = elim (dec_lt j n) [
  | yes l ↦
      collect-Next n s j fsh e l
        (restage (unseen j fsh j (omega arith)) (IsLocal-at s (collect j fsh) inv e j l))
  | no l ↦ inl (_, tick j fsh e (omega arith))
]
phase-Next {n} {s} (release j fsh event) inv e h = elim (dec_lt j n) [
  | yes l ↦ inl (_, let_go j fsh event e l)
  | no l ↦ elim (ℕ_discrete fsh event) [
    | yes all ↦ inl (_, finish j fsh event e (omega arith) all)
    | no some_left ↦ inl (_, again j fsh event e (omega arith) some_left)
  ]
]

-- No deadlock: in every reachable state where the timer has not ended, the timer can step, or a
-- device that it waits for can.
pub no_deadlock : {n : ℕ} {s : System} → Reach n s → s.phase ≢ stopped → Next n s
no_deadlock {s} r h = phase-Next s.phase (Reach-Inv r) refl h

-- The timer ends only when every device has detached, or after `stop_timer` has set its flag.
pub timer_ends :
    {n : ℕ} {s : System}
    → Reach n s
    → s.phase ≡ stopped
    → (s.timer_stop ≡ true) ⊎ ((i : ℕ) → i < n → (s.device i).place ≡ gone)
timer_ends {s} r e = IsCounted-at s stopped (Reach-Inv r) e

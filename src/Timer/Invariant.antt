-- ===== src/Timer/Invariant.antt =====
-- What every reachable state of the timer satisfies: where the timer is bounds where each device
-- is.
use os_assignment.Base.{
  ℕ, ◌+◌, ◌≤◌, ◌<◌, ◌≡◌, ◌⊎◌, inl, inr, refl, sym, subst, ◌∙◌, Bool, true, false, ltb,
  if◌then◌else◌, arith,
}
use os_assignment.Timer.{
  Device, Phase, System, working, waiting, gone, head, stopped, collect, release, start_timer,
}

pub true-false : true ≡ false → ⊥
true-false e = cc

-- What the timer has done about a device in this round.
pub data Stage : Type 0 where
  free held due : Stage

-- In the first loop the devices passed are held until they are let go in the second.
abbrev pub stage : Phase → ℕ → Stage
stage head i = free
stage stopped i = free
stage (collect j fsh) i = if ltb i j then held else free
stage (release j fsh event) i = if ltb i j then free else due

-- A device, by its stage, after `ticks` rounds.
pub data IsLocal (ticks : ℕ) (d : Device) : Stage → Type 0 where
  at_work :
      d.place ≡ working → d.done ≡ false → d.fsh ≡ false → d.slots ≡ ticks → IsLocal ticks d free
  called :
      d.place ≡ waiting → d.done ≡ true → d.fsh ≡ false → d.slots ≡ ticks → IsLocal ticks d free
  woken :
      d.place ≡ waiting
      → d.done ≡ false
      → d.fsh ≡ false
      → d.slots + 1 ≡ ticks
      → IsLocal ticks d free
  stopped_at :
      d.place ≡ waiting → d.done ≡ true → d.fsh ≡ false → d.slots ≡ ticks → IsLocal ticks d held
  overdue :
      d.place ≡ waiting → d.done ≡ true → d.fsh ≡ false → d.slots + 1 ≡ ticks → IsLocal ticks d due
  left : {g : Stage} → d.place ≡ gone → d.fsh ≡ true → IsLocal ticks d g

-- The counts of the round: if they agree, every device passed has gone. The timer ends only then,
-- or after `stop_timer`.
abbrev pub IsCounted : ℕ → Bool → (ℕ → Device) → Phase → Type 0
IsCounted n timer_stop device head = Unit
IsCounted n timer_stop device stopped =
    (timer_stop ≡ true) ⊎ ((i : ℕ) → i < n → (device i).place ≡ gone)
IsCounted n timer_stop device (collect j fsh) =
    (fsh ≤ j) × (fsh ≡ j → (i : ℕ) → i < j → (device i).place ≡ gone)
IsCounted n timer_stop device (release j fsh event) =
    (n ≤ event) × (fsh ≡ event → (i : ℕ) → i < event → (device i).place ≡ gone)

pub record Inv (n : ℕ) (s : System) : Type 0 where
  pub local : (i : ℕ) → i < n → IsLocal s.ticks (s.device i) (stage s.phase i)
  pub counted : IsCounted n s.timer_stop s.device s.phase

-- The invariant at a phase that is known.
pub IsLocal-at :
    {n : ℕ} (s : System) (p : Phase)
    → Inv n s
    → s.phase ≡ p
    → (i : ℕ) → i < n
    → IsLocal s.ticks (s.device i) (stage p i)
IsLocal-at s p inv e i l =
    subst (λ (q : Phase). IsLocal s.ticks (s.device i) (stage q i)) e (inv.local i l)

pub IsCounted-at :
    {n : ℕ} (s : System) (p : Phase) → Inv n s → s.phase ≡ p → IsCounted n s.timer_stop s.device p
IsCounted-at {n} s p inv e = subst (IsCounted n s.timer_stop s.device) e inv.counted

pub start-Inv : (n : ℕ) → Inv n start_timer
start-Inv n = record { local = λ i l. at_work refl refl refl refl; counted = tt }

-- A device changes its stage when the timer passes it.
pub free-held :
    (ticks : ℕ) (d : Device)
    → (d.done ≡ true) ⊎ (d.fsh ≡ true)
    → IsLocal ticks d free
    → IsLocal ticks d held
free-held ticks d (inl h) (at_work p q r e) = absurd (true-false (sym h ∙ q))
free-held ticks d (inr h) (at_work p q r e) = absurd (true-false (sym h ∙ r))
free-held ticks d h (called p q r e) = stopped_at p q r e
free-held ticks d (inl h) (woken p q r e) = absurd (true-false (sym h ∙ q))
free-held ticks d (inr h) (woken p q r e) = absurd (true-false (sym h ∙ r))
free-held ticks d h (left p q) = left p q

pub held-due : (ticks : ℕ) (d : Device) → IsLocal ticks d held → IsLocal (ticks + 1) d due
held-due ticks d (stopped_at p q r e) = overdue p q r (omega arith)
held-due ticks d (left p q) = left p q

pub due-free :
    (ticks : ℕ) (d : Device) → IsLocal ticks d due → IsLocal ticks (record d { done = false }) free
due-free ticks d (overdue p q r e) = woken p refl r e
due-free ticks d (left p q) = left p q

-- A device that the timer has counted as finished has gone.
pub fsh-gone :
    (ticks : ℕ) (d : Device) (g : Stage) → IsLocal ticks d g → d.fsh ≡ true → d.place ≡ gone
fsh-gone ticks d free (at_work p q r e) h = absurd (true-false (sym h ∙ r))
fsh-gone ticks d free (called p q r e) h = absurd (true-false (sym h ∙ r))
fsh-gone ticks d free (woken p q r e) h = absurd (true-false (sym h ∙ r))
fsh-gone ticks d held (stopped_at p q r e) h = absurd (true-false (sym h ∙ r))
fsh-gone ticks d due (overdue p q r e) h = absurd (true-false (sym h ∙ r))
fsh-gone ticks d g (left p q) h = p

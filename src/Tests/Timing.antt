-- ===== src/Tests/Timing.antt =====
-- timer.c with two devices, where the first is one slot ahead of the second.
use os_assignment.Base.{ℕ, ◌+◌, ◌≤◌, ◌<◌, ◌≡◌, ◌⊎◌, true, inl, inr, refl, arith}
use os_assignment.Timer.{
  System, working, begin, see, tick, let_go, finish, next_slot, wake, detach_event, gone, timer,
  device_step, Reach, start, later,
}
use os_assignment.Timer.Barrier.{lockstep, timer_ends}
use os_assignment.Timer.Release.{Comes, wakes_or_waits}

-- Both devices call `next_slot`, the timer counts the round and lets the first go, and that wakes.
abbrev first_round : (s : System) × Reach 2 s
first_round = (
  _,
  later
      (later
        (later
          (later
            (later
              (later
                (later (later start (timer (begin refl refl)))
                  (device_step 0 (omega arith) (next_slot refl)))
                (device_step 1 (omega arith) (next_slot refl)))
              (timer (see 0 0 refl (omega arith) (inl refl))))
            (timer (see 1 0 refl (omega arith) (inl refl))))
          (timer (tick 2 0 refl (omega arith))))
        (timer (let_go 0 0 2 refl (omega arith))))
      (device_step 0 (omega arith) (wake refl refl)),
)

abbrev half : System
half = first_round.0

lockstep_example :
    ((half.device 0).slots ≤ (half.device 1).slots + 1)
    × ((half.device 0).place ≡ working → (half.device 0).slots ≡ half.ticks)
lockstep_example = lockstep first_round.1 0 1 (omega arith) (omega arith) (λ e. cc) (λ e. cc)

-- The second device still waits to be let go.
wakes_or_waits_example : Comes 2 1 half
wakes_or_waits_example = wakes_or_waits first_round.1 (λ e. cc) refl 1 (omega arith) refl

-- The only device detaches, and the timer counts it and ends.
abbrev all_left : (s : System) × Reach 1 s
all_left = (
  _,
  later
      (later
        (later
          (later
            (later (later start (device_step 0 (omega arith) (detach_event refl)))
              (timer (begin refl refl)))
            (timer (see 0 0 refl (omega arith) (inr refl))))
          (timer (tick 1 1 refl (omega arith))))
        (timer (let_go 0 1 1 refl (omega arith))))
      (timer (finish 1 1 1 refl (omega arith) refl)),
)

timer_ends_example :
    (all_left.0.timer_stop ≡ true) ⊎ ((i : ℕ) → i < 1 → (all_left.0.device i).place ≡ gone)
timer_ends_example = timer_ends all_left.1 refl

-- ===== src/Timer.antt =====
-- timer.c: the barrier between the timer's thread and the threads of the devices, which are the
-- processors and the loader. Each critical section under `event_lock` or `timer_lock` is one
-- step, and the steps of all threads interleave in any order. A device is its place in
-- `dev_list`, which `attach_event` fills before `start_timer`, so there are `n` of them.
pub mod Invariant
pub mod Moves
pub mod Barrier
pub mod Release
pub mod Attach
use os_assignment.Base.{
  ℕ, ◌+◌, ◌%◌, ◌^◌, ◌≤◌, ◌<◌, ◌≡◌, ◌≢◌, ◌⊎◌, Bool, true, false, if◌then◌else◌, update, Option, none,
  some, List, ◌∷◌, length,
}

-- Where a device's thread is: at work between two calls, in the second half of `next_slot`, or
-- behind `detach_event`.
pub data Place : Type 0 where
  working waiting gone : Place

-- `struct timer_id_t` without the locks, with the place of the thread and the number of calls of
-- `next_slot` that have returned. The code keeps no such number.
pub record Device : Type 0 where
  pub done : Bool
  pub fsh : Bool
  pub place : Place
  pub slots : ℕ

-- Where `timer_routine` is: at the test of the loop, at device `j` of the first or the second
-- inner loop with its counts, or at the end.
pub data Phase : Type 0 where
  head stopped : Phase
  collect : (j fsh : ℕ) → Phase
  release : (j fsh event : ℕ) → Phase

-- All threads, with the number of increments of `_time`.
pub record System : Type 0 where
  pub ticks : ℕ
  pub timer_stop : Bool
  pub phase : Phase
  pub device : ℕ → Device

-- `current_time`
abbrev pub current_time : System → ℕ
current_time s = s.ticks % 2 ^ 64

-- The device that `attach_event` makes.
abbrev pub attached : Device
attached = record { done = false; fsh = false; place = working; slots = 0 }

-- `timer_started`, and `dev_list` with the device attached last in front.
pub record DevList : Type 0 where
  pub timer_started : Bool
  pub dev_list : List Device

-- `attach_event`, which returns NULL or the device, as its place from the end of the list.
unfoldable pub attach_event : DevList → DevList × Option ℕ
attach_event d =
    if d.timer_started
    then (d, none)
    else (record d { dev_list = attached ∷ d.dev_list }, some (length d.dev_list))

-- The state at `start_timer`.
abbrev pub start_timer : System
start_timer = record { ticks = 0; timer_stop = false; phase = head; device = λ i. attached }

abbrev pub set_device : System → ℕ → Device → System
set_device s i d = record s { device = update s.device i d }

-- A step of the timer's thread.
pub data TimerStep (n : ℕ) (s : System) : System → Type 0 where
  begin : s.phase ≡ head → s.timer_stop ≡ false → TimerStep n s (record s { phase = collect 0 0 })
  halt : s.phase ≡ head → s.timer_stop ≡ true → TimerStep n s (record s { phase = stopped })
  see :
      (j fsh : ℕ)
      → s.phase ≡ collect j fsh
      → j < n
      → ((s.device j).done ≡ true) ⊎ ((s.device j).fsh ≡ true)
      → TimerStep n s
          (record s { phase = collect (j + 1) (if (s.device j).fsh then fsh + 1 else fsh) })
  tick :
      (j fsh : ℕ)
      → s.phase ≡ collect j fsh
      → n ≤ j
      → TimerStep n s (record s { ticks = s.ticks + 1; phase = release 0 fsh j })
  let_go :
      (j fsh event : ℕ)
      → s.phase ≡ release j fsh event
      → j < n
      → TimerStep n s (record s {
        phase = release (j + 1) fsh event;
        device = update s.device j (record (s.device j) { done = false });
      })
  again :
      (j fsh event : ℕ)
      → s.phase ≡ release j fsh event
      → n ≤ j
      → fsh ≢ event
      → TimerStep n s (record s { phase = head })
  finish :
      (j fsh event : ℕ)
      → s.phase ≡ release j fsh event
      → n ≤ j
      → fsh ≡ event
      → TimerStep n s (record s { phase = stopped })

-- A step of the thread of a device, with what it does to the device.
pub data DeviceStep (d : Device) : Device → Type 0 where
  next_slot : d.place ≡ working → DeviceStep d (record d { done = true; place = waiting })
  wake :
      d.place ≡ waiting
      → d.done ≡ false
      → DeviceStep d (record d { place = working; slots = d.slots + 1 })
  detach_event : d.place ≡ working → DeviceStep d (record d { fsh = true; place = gone })

-- A step of some thread; `stop` is the assignment of `stop_timer`.
pub data Step (n : ℕ) (s : System) : System → Type 0 where
  timer : {t : System} → TimerStep n s t → Step n s t
  device_step :
      (i : ℕ) {d : Device} → i < n → DeviceStep (s.device i) d → Step n s (set_device s i d)
  stop : Step n s (record s { timer_stop = true })

pub data Reach (n : ℕ) : System → Type 0 where
  start : Reach n start_timer
  later : {s t : System} → Reach n s → Step n s t → Reach n t

-- ===== src/Timer/Moves.antt =====
-- Every step of the timer and of the devices keeps the invariant.
use os_assignment.Base.{
  ℕ, ◌+◌, ◌≤◌, ◌<◌, ◌≡◌, ◌≢◌, ◌⊎◌, inl, inr, refl, sym, subst, Bool, true, false, ltb, ◌==◌,
  if◌then◌else◌, arith, update, Bool-cases, if_eq_true, if_eq_false,
}
use os_assignment.Timer.{
  Device, Phase, System, gone, head, stopped, collect, release, TimerStep, begin, halt, see, tick,
  let_go, again, finish, DeviceStep, next_slot, wake, detach_event, Step, timer, device_step, stop,
  Reach, start, later,
}
use os_assignment.Timer.Invariant.{
  Stage, free, held, due, stage, IsLocal, at_work, called, woken, stopped_at, overdue, left,
  IsCounted, Inv, IsLocal-at, IsCounted-at, start-Inv, free-held, held-due, due-free, fsh-gone,
}

before : (i j : ℕ) → i < j → ltb i j ≡ true
before i j h = ground arith

behind : (i j : ℕ) → j ≤ i → ltb i j ≡ false
behind i j h = ground arith

-- Where `i` lies from `j`.
order : (i j : ℕ) → (i < j) ⊎ ((i ≡ j) ⊎ (j < i))
order i j = ground arith

-- The stage of a device that an inner loop has passed, or not yet.
seen : (j fsh i : ℕ) → i < j → stage (collect j fsh) i ≡ held
seen j fsh i h = if_eq_true _ _ (before i j h)

pub unseen : (j fsh i : ℕ) → j ≤ i → stage (collect j fsh) i ≡ free
unseen j fsh i h = if_eq_false _ _ (behind i j h)

let_gone : (j fsh event i : ℕ) → i < j → stage (release j fsh event) i ≡ free
let_gone j fsh event i h = if_eq_true _ _ (before i j h)

kept : (j fsh event i : ℕ) → j ≤ i → stage (release j fsh event) i ≡ due
kept j fsh event i h = if_eq_false _ _ (behind i j h)

-- A property of every device, after one has changed.
pub at_device :
    (P : ℕ → Device → Type 0) (device : ℕ → Device) (j : ℕ) (d : Device) (i : ℕ)
    → P j d
    → (i ≢ j → P i (device i))
    → P i (update device j d i)
at_device P device j d i here there = elim (Bool-cases (i == j)) [
  | inl same ↦
      subst (P i) (sym (if_eq_true {b = i == j} d (device i) same))
        (subst (λ (k : ℕ). P k d) (ground arith) here)
  | inr other ↦
      subst (P i) (sym (if_eq_false {b = i == j} d (device i) other)) (there (ground arith))
]

pub restage : {ticks : ℕ} {d : Device} {g h : Stage} → g ≡ h → IsLocal ticks d g → IsLocal ticks d h
restage {ticks} {d} e = subst (IsLocal ticks d) e

module _ {n : ℕ} (s : System) (inv : Inv n s) where
  begin-Inv : s.phase ≡ head → Inv n (record s { phase = collect 0 0 })
  begin-Inv e = record {
    local = λ i l. restage (sym (unseen 0 0 i (omega arith))) (IsLocal-at s head inv e i l);
    counted = (omega arith, λ e' i l. absurd (omega arith));
  }

  see-Inv :
      (j fsh : ℕ)
      → s.phase ≡ collect j fsh
      → j < n
      → ((s.device j).done ≡ true) ⊎ ((s.device j).fsh ≡ true)
      → Inv n (record s { phase = collect (j + 1) (if (s.device j).fsh then fsh + 1 else fsh) })
  see-Inv j fsh e l h =
      let p : Phase = collect j fsh in
      let old = IsLocal-at s p inv e in
      let counts = IsCounted-at s p inv e in
      let now = restage (unseen j fsh j (omega arith)) (old j l) in
      record {
        local = λ i l'. elim (order i j) [
          | inl below ↦
              restage (sym (seen (j + 1) fsh i (omega arith)))
                (restage (seen j fsh i below) (old i l'))
          | inr (inl same) ↦ restage (sym (seen (j + 1) fsh i (omega arith))) (
              subst (λ (k : ℕ). IsLocal s.ticks (s.device k) held) (sym same)
                (free-held s.ticks (s.device j) h now))
          | inr (inr above) ↦
              restage (sym (unseen (j + 1) fsh i (omega arith)))
                (restage (unseen j fsh i (omega arith)) (old i l'))
        ];
        counted = elim (Bool-cases (s.device j).fsh) [
          | inl finished ↦
              subst (λ (f : ℕ). IsCounted n s.timer_stop s.device (collect (j + 1) f))
                (sym (if_eq_true (fsh + 1) fsh finished))
                (
                  omega (arith, counts.0),
                  λ all i below. elim (order i j) [
                    | inl lower ↦ counts.1 (omega arith) i lower
                    | inr (inl same) ↦
                        subst (λ (k : ℕ). (s.device k).place ≡ gone) (sym same)
                          (fsh-gone s.ticks (s.device j) free now finished)
                    | inr (inr above) ↦ absurd (omega arith)
                  ],
                )
          | inr unfinished ↦
              subst (λ (f : ℕ). IsCounted n s.timer_stop s.device (collect (j + 1) f))
                (sym (if_eq_false (fsh + 1) fsh unfinished))
                (omega (arith, counts.0), λ all. absurd (omega (arith, counts.0)))
        ];
      }

  tick-Inv :
      (j fsh : ℕ)
      → s.phase ≡ collect j fsh
      → n ≤ j
      → Inv n (record s { ticks = s.ticks + 1; phase = release 0 fsh j })
  tick-Inv j fsh e l =
      let p : Phase = collect j fsh in
      let old = IsLocal-at s p inv e in
      record {
        local = λ i l'.
            restage (sym (kept 0 fsh j i (omega arith)))
              (held-due s.ticks (s.device i) (restage (seen j fsh i (omega arith)) (old i l')));
        counted = (l, (IsCounted-at s p inv e).1);
      }

  let_go-Inv :
      (j fsh event : ℕ)
      → s.phase ≡ release j fsh event
      → j < n
      → Inv n (record s {
        phase = release (j + 1) fsh event;
        device = update s.device j (record (s.device j) { done = false });
      })
  let_go-Inv j fsh event e l =
      let p : Phase = release j fsh event in
      let old = IsLocal-at s p inv e in
      let counts = IsCounted-at s p inv e in
      let d : Device = record (s.device j) { done = false } in
      let now =
        due-free s.ticks (s.device j) (restage (kept j fsh event j (omega arith)) (old j l)) in
      record {
        local = λ i l'.
            at_device (λ k x. IsLocal s.ticks x (stage (release (j + 1) fsh event) k)) s.device j d
              i (restage (sym (let_gone (j + 1) fsh event j (omega arith))) now)
              λ other. elim (order i j) [
                | inl below ↦
                    restage (sym (let_gone (j + 1) fsh event i (omega arith)))
                      (restage (let_gone j fsh event i below) (old i l'))
                | inr (inl same) ↦ absurd (other same)
                | inr (inr above) ↦
                    restage (sym (kept (j + 1) fsh event i (omega arith)))
                      (restage (kept j fsh event i (omega arith)) (old i l'))
              ];
        counted = (
          counts.0,
          λ all i below.
              at_device (λ k x. k < event → x.place ≡ gone) s.device j d i (counts.1 all j)
                (λ other. counts.1 all i) below,
        );
      }

  -- Behind the second loop every device is free.
  released :
      (j fsh event : ℕ)
      → s.phase ≡ release j fsh event
      → n ≤ j
      → (i : ℕ) → i < n
      → IsLocal s.ticks (s.device i) free
  released j fsh event e l i l' =
      restage (let_gone j fsh event i (omega arith)) (IsLocal-at s (release j fsh event) inv e i l')

TimerStep-Inv : {n : ℕ} {s t : System} → Inv n s → TimerStep n s t → Inv n t
TimerStep-Inv {s} inv (begin e h) = begin-Inv s inv e
TimerStep-Inv {s} inv (halt e h) = record { local = IsLocal-at s head inv e; counted = inl h }
TimerStep-Inv {s} inv (see j fsh e l h) = see-Inv s inv j fsh e l h
TimerStep-Inv {s} inv (tick j fsh e l) = tick-Inv s inv j fsh e l
TimerStep-Inv {s} inv (let_go j fsh event e l) = let_go-Inv s inv j fsh event e l
TimerStep-Inv {s} inv (again j fsh event e l h) = record {
  local = released s inv j fsh event e l;
  counted = tt;
}
TimerStep-Inv {s} inv (finish j fsh event e l h) =
    let counts = IsCounted-at s (release j fsh event) inv e in
    record {
      local = released s inv j fsh event e l;
      counted = inr (λ i l'. counts.1 h i (omega (arith, counts.0)));
    }

DeviceStep-IsLocal :
    (ticks : ℕ) (d d' : Device) (g : Stage)
    → DeviceStep d d'
    → IsLocal ticks d g
    → IsLocal ticks d' g
DeviceStep-IsLocal ticks d d' free (next_slot w) (at_work p q r e) = called refl refl r e
DeviceStep-IsLocal ticks d d' free (detach_event w) (at_work p q r e) = left refl refl
DeviceStep-IsLocal ticks d d' free (wake w h) (at_work p q r e) = cc
DeviceStep-IsLocal ticks d d' free (next_slot w) (called p q r e) = cc
DeviceStep-IsLocal ticks d d' free (detach_event w) (called p q r e) = cc
DeviceStep-IsLocal ticks d d' free (wake w h) (called p q r e) = cc
DeviceStep-IsLocal ticks d d' free (next_slot w) (woken p q r e) = cc
DeviceStep-IsLocal ticks d d' free (detach_event w) (woken p q r e) = cc
DeviceStep-IsLocal ticks d d' free (wake w h) (woken p q r e) = at_work refl q r e
DeviceStep-IsLocal ticks d d' held (next_slot w) (stopped_at p q r e) = cc
DeviceStep-IsLocal ticks d d' held (detach_event w) (stopped_at p q r e) = cc
DeviceStep-IsLocal ticks d d' held (wake w h) (stopped_at p q r e) = cc
DeviceStep-IsLocal ticks d d' due (next_slot w) (overdue p q r e) = cc
DeviceStep-IsLocal ticks d d' due (detach_event w) (overdue p q r e) = cc
DeviceStep-IsLocal ticks d d' due (wake w h) (overdue p q r e) = cc
DeviceStep-IsLocal ticks d d' g (next_slot w) (left p q) = cc
DeviceStep-IsLocal ticks d d' g (detach_event w) (left p q) = cc
DeviceStep-IsLocal ticks d d' g (wake w h) (left p q) = cc

-- Who has gone stays gone.
DeviceStep-gone : (d d' : Device) → DeviceStep d d' → d.place ≡ gone → d'.place ≡ gone
DeviceStep-gone d d' (next_slot w) h = cc
DeviceStep-gone d d' (wake w f) h = cc
DeviceStep-gone d d' (detach_event w) h = refl

IsCounted-mono :
    (n : ℕ) (b : Bool) (device device' : ℕ → Device) (p : Phase)
    → ((i : ℕ) → (device i).place ≡ gone → (device' i).place ≡ gone)
    → IsCounted n b device p
    → IsCounted n b device' p
IsCounted-mono n b device device' head h c = tt
IsCounted-mono n b device device' stopped h (inl e) = inl e
IsCounted-mono n b device device' stopped h (inr all) = inr (λ i l. h i (all i l))
IsCounted-mono n b device device' (collect j fsh) h c = (c.0, λ e i l. h i (c.1 e i l))
IsCounted-mono n b device device' (release j fsh event) h c = (c.0, λ e i l. h i (c.1 e i l))

IsCounted-stop :
    (n : ℕ) (b : Bool) (device : ℕ → Device) (p : Phase)
    → IsCounted n b device p
    → IsCounted n true device p
IsCounted-stop n b device head c = tt
IsCounted-stop n b device stopped c = inl refl
IsCounted-stop n b device (collect j fsh) c = c
IsCounted-stop n b device (release j fsh event) c = c

pub Step-Inv : {n : ℕ} {s t : System} → Inv n s → Step n s t → Inv n t
Step-Inv inv (timer st) = TimerStep-Inv inv st
Step-Inv {n} {s} inv (device_step i {d} l st) = record {
  local = λ k l'.
      at_device (λ m x. m < n → IsLocal s.ticks x (stage s.phase m)) s.device i d k
        (λ h. DeviceStep-IsLocal s.ticks (s.device i) d (stage s.phase i) st (inv.local i l))
        (λ other. inv.local k) l';
  counted =
      IsCounted-mono n s.timer_stop s.device (update s.device i d) s.phase
        (λ k.
          at_device (λ m x. (s.device m).place ≡ gone → x.place ≡ gone) s.device i d k
            (DeviceStep-gone (s.device i) d st) (λ other h. h))
        inv.counted;
}
Step-Inv {n} {s} inv stop = record {
  local = inv.local;
  counted = IsCounted-stop n s.timer_stop s.device s.phase inv.counted;
}

pub Reach-Inv : {n : ℕ} {s : System} → Reach n s → Inv n s
Reach-Inv {n} start = start-Inv n
Reach-Inv (later r st) = Step-Inv (Reach-Inv r) st

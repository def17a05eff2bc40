-- ===== src/Simulation/Turns.antt =====
-- The slots in which the loader makes its steps.
use os_assignment.Base.{
  ℕ, ◌+◌, ◌%◌, ◌^◌, ◌≤◌, ◌<◌, ◌≡◌, ◌≢◌, ◌⊎◌, ap, ap₂, sym, subst, ◌∙◌, Bool, true, false, List, [],
  ◌∷◌, ◌==◌, inl, inr, update, arith, Bool-cases, if_eq_true, if_eq_false,
}
use os_assignment.Config.{Job}
use os_assignment.Timer.{Place, Device, working, waiting, gone}
use os_assignment.Simulation.Threads.{Fixed, Arrival, World, called}

-- The jobs of the arrivals, the last one in front, and then others.
abbrev pub onto : List Arrival → List Job → List Job
onto [] jobs = jobs
onto (a ∷ before) jobs = onto before (a.job ∷ jobs)

-- The slot behind the last arrival, or the first.
abbrev pub next_free : List Arrival → ℕ
next_free [] = 0
next_free (a ∷ before) = a.at + 1

-- Each process comes in the slot of its start time, or in the slot behind the arrival before it, if
-- the start time has passed by then; so there is at most one in a slot.
abbrev pub IsPrompt : List Arrival → Type 0
IsPrompt [] = Unit
IsPrompt (a ∷ before) =
    (next_free before ≤ a.at)
    × ((a.at % 2 ^ 64 ≡ a.job.start_time)
        ⊎ ((a.at ≡ next_free before) × (a.job.start_time ≤ a.at % 2 ^ 64)))
    × IsPrompt before

-- It is too early for the next job in the slot `m`.
abbrev pub IsEarly : List Job → ℕ → Type 0
IsEarly [] m = Unit
IsEarly (job ∷ rest) m = m % 2 ^ 64 < job.start_time

-- `n` is the next slot in which the loader looks at the time: that behind the last arrival, or one
-- behind a slot that was too early.
abbrev pub IsTimed : List Arrival → List Job → ℕ → Type 0
IsTimed before jobs n =
    (next_free before ≤ n) × ((n ≡ next_free before) ⊎ ((m : ℕ) × (n ≡ m + 1) × IsEarly jobs m))

-- The slot of the next step of a thread at this place, which has made its step or not.
abbrev pub turn : Place → Bool → ℕ → ℕ
turn working false k = k
turn working true k = k + 1
turn waiting acted k = k + 1
turn gone acted k = k + 1

pub turn-at : (p : Place) (b : Bool) (k : ℕ) → p ≡ working → b ≡ false → turn p b k ≡ k
turn-at p b k e h = ap₂ (λ (q : Place) (c : Bool). turn q c k) e h

pub turn-passed : (p : Place) (b : Bool) (k : ℕ) → p ≡ working → b ≡ true → turn p b k ≡ k + 1
turn-passed p b k e h = ap₂ (λ (q : Place) (c : Bool). turn q c k) e h

pub turn-waiting : (p : Place) (b : Bool) (k : ℕ) → p ≡ waiting → turn p b k ≡ k + 1
turn-waiting p b k e = ap (λ (q : Place). turn q b k) e

abbrev pub turn_at : Device → Bool → ℕ
turn_at d b = turn d.place b d.slots

-- The loader in a world.
abbrev pub turn_of : Fixed → World → ℕ
turn_of x w = turn_at (w.timer.device x.num_cpus) (w.acted x.num_cpus)

pub record IsOrdered (x : Fixed) (all : List Job) (w : World) : Type 0 where
  pub prompt : IsPrompt w.arrivals
  pub timed : IsTimed w.arrivals w.jobs (turn_of x w)
  pub order : onto w.arrivals w.jobs ≡ all
  pub ended : w.done ≡ true → w.jobs ≡ []

-- The loader is where it was, in a world with the same jobs.
pub same_turn :
    (x : Fixed) (all : List Job) (w z : World)
    → IsOrdered x all w
    → z.arrivals ≡ w.arrivals
    → z.jobs ≡ w.jobs
    → z.done ≡ w.done
    → turn_of x z ≡ turn_of x w
    → IsOrdered x all z
same_turn x all w z o a j d t = record {
  prompt = subst IsPrompt (sym a) o.prompt;
  timed =
      subst (λ (k : ℕ). IsTimed z.arrivals z.jobs k) (sym t)
        (subst (λ (js : List Job). IsTimed z.arrivals js (turn_of x w)) (sym j)
          (subst (λ (before : List Arrival). IsTimed before w.jobs (turn_of x w)) (sym a) o.timed));
  order = ap₂ onto a j ∙ o.order;
  ended = λ e. j ∙ o.ended (sym d ∙ e);
}

-- A slot that was too early is followed by the slot of the start time, at the latest.
pub just_due : (m n t : ℕ) → n ≡ m + 1 → m % 2 ^ 64 < t → t ≤ n % 2 ^ 64 → n % 2 ^ 64 ≡ t
just_due m n t e h l = omega (arith, e, h, l)

-- The device of another thread, and what another thread has done, do not move the loader.
pub acted_other : (f : ℕ → Bool) (i n : ℕ) (b : Bool) → n ≢ i → update f i b n ≡ f n
acted_other f i n b ne = let other : (n == i) ≡ false = ground arith in if_eq_false _ _ other

pub acted_here : (f : ℕ → Bool) (n : ℕ) (b : Bool) → update f n b n ≡ b
acted_here f n b = let here : (n == n) ≡ true = ground arith in if_eq_true _ _ here

-- A call of a thread to the timer, after which the turn of the thread is the same.
pub called-turn :
    (x : Fixed) (w : World) (i : ℕ) (d : Device)
    → turn d.place false d.slots
      ≡ turn (w.timer.device i).place (w.acted i) (w.timer.device i).slots
    → turn_of x (called w i d) ≡ turn_of x w
called-turn x w i d e = elim (Bool-cases (x.num_cpus == i)) [
  | inl same ↦
      let i_is_n : i ≡ x.num_cpus = ground arith in
      ap₂ turn_at (if_eq_true _ _ same) (if_eq_true _ _ same)
      ∙ e
      ∙ ap (λ (k : ℕ). turn_at (w.timer.device k) (w.acted k)) i_is_n
  | inr other ↦ ap₂ turn_at (if_eq_false _ _ other) (if_eq_false _ _ other)
]

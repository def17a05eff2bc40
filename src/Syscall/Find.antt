-- ===== src/Syscall/Find.antt =====
-- find_pcb_by_pid: which process an id stands for.
use os_assignment.Base.{
  ℕ, zero, suc, ◌+◌, ◌<◌, ◌≤◌, ◌≡◌, ◌≢◌, ◌⊎◌, inl, inr, refl, ap, ◌∙◌, not, ◌&&◌, Option, none,
  some, arith, Bool-cases, if_eq_true, if_eq_false, ◌==◌,
}
use os_assignment.Queue.{Queue, null}
use os_assignment.Syscall.{Kernel, pid_from, find_pcb_by_pid}

-- The process `proc` is not NULL and has the id `pid`.
abbrev pub HasPid : (ℕ → ℕ) → ℕ → ℕ → Type 0
HasPid pid_of pid proc = (proc ≢ null) × (pid_of proc ≡ pid)

-- What one of the loops gives on the cells from `i` to `last`.
abbrev pub Found : (ℕ → ℕ) → ℕ → (ℕ → ℕ) → ℕ → ℕ → Option ℕ → Type 0
Found pid_of pid proc i last r =
    ((r ≡ none) × ((j : ℕ) → i ≤ j → j < last → HasPid pid_of pid (proc j) → ⊥))
    ⊎ ((j : ℕ) × (r ≡ some (proc j))
        × (i ≤ j)
        × (j < last)
        × HasPid pid_of pid (proc j)
        × ((l : ℕ) → i ≤ l → l < j → HasPid pid_of pid (proc l) → ⊥))

pid_from-Found :
    (pid_of : ℕ → ℕ) (pid : ℕ) (proc : ℕ → ℕ) (n i : ℕ)
    → Found pid_of pid proc i (i + n) (pid_from pid_of pid proc n i)
unfolding pid_from
pid_from-Found pid_of pid proc zero i = inl (refl, λ j l m h. omega arith)
pid_from-Found pid_of pid proc (suc n) i =
    elim (Bool-cases (not (proc i == null) && pid_of (proc i) == pid)) [
      | inl hit ↦
          inr
            (i, if_eq_true _ _ hit, omega arith, omega arith, ground arith, λ l m m' h. omega arith)
      | inr miss ↦
          let not_here : HasPid pid_of pid (proc i) → ⊥ = λ h. ground arith in
          elim (pid_from-Found pid_of pid proc n (i + 1)) [
            | inl (r, none_there) ↦ inl (
              if_eq_false _ _ miss ∙ r,
              λ j l m h. absurd (ground (arith, none_there j, not_here)),
            )
            | inr (j, r, l, m, h, first) ↦ inr (
              j,
              if_eq_false _ _ miss ∙ r,
              omega arith,
              omega arith,
              h,
              λ l' a b h'. absurd (ground (arith, first l', not_here)),
            )
          ]
    ]

-- No cell of the queue below `n` has a process with the id `pid`.
abbrev pub NoneHas : (ℕ → ℕ) → ℕ → Queue → ℕ → Type 0
NoneHas pid_of pid q n = (j : ℕ) → j < n → HasPid pid_of pid (q.proc j) → ⊥

-- `r` is the first process of the queue that has the id `pid`.
abbrev pub IsFirst : (ℕ → ℕ) → ℕ → Queue → Option ℕ → Type 0
IsFirst pid_of pid q r =
    (j : ℕ) × (j < q.size)
    × (r ≡ some (q.proc j))
    × HasPid pid_of pid (q.proc j)
    × NoneHas pid_of pid q j

-- One of the loops on a whole queue.
abbrev scan : (ℕ → ℕ) → ℕ → Queue → Option ℕ
scan pid_of pid q = pid_from pid_of pid q.proc q.size 0

scan-IsFirst :
    (pid_of : ℕ → ℕ) (pid : ℕ) (q : Queue)
    → ((scan pid_of pid q ≡ none) × NoneHas pid_of pid q q.size)
      ⊎ IsFirst pid_of pid q (scan pid_of pid q)
scan-IsFirst pid_of pid q = elim (pid_from-Found pid_of pid q.proc q.size 0) [
  | inl (r, nowhere) ↦ inl (r, λ j l h. nowhere j (omega arith) (omega arith) h)
  | inr (j, r, l, m, h, first) ↦
      inr (j, omega arith, r, h, λ i below h'. first i (omega arith) below h')
]

-- What the second loop makes of the outcome of the first.
abbrev or_else : Option ℕ → Option ℕ → Option ℕ
or_else first later = elim first [ some proc ↦ some proc | none ↦ later ]

-- `find_pcb_by_pid` returns the first process of the running list that has the id. If the running
-- list has none, it returns the first of the ready queue, and NULL when that has none either.
pub find_pcb_by_pid-IsFirst :
    (k : Kernel) (pid : ℕ)
    → IsFirst k.pid pid k.running_list (find_pcb_by_pid k pid)
      ⊎ (NoneHas k.pid pid k.running_list k.running_list.size
          × (IsFirst k.pid pid k.ready_queue (find_pcb_by_pid k pid)
              ⊎ ((find_pcb_by_pid k pid ≡ none)
                  × NoneHas k.pid pid k.ready_queue k.ready_queue.size)))
unfolding find_pcb_by_pid
find_pcb_by_pid-IsFirst k pid =
    let later = scan k.pid pid k.ready_queue in
    elim (scan-IsFirst k.pid pid k.running_list) [
      | inr (j, l, r, h, first) ↦ inl (j, l, ap (λ (o : Option ℕ). or_else o later) r, h, first)
      | inl (r, nowhere) ↦
          let there = ap (λ (o : Option ℕ). or_else o later) r in
          inr (
            nowhere,
            elim (scan-IsFirst k.pid pid k.ready_queue) [
              | inr (j, l, r', h, first) ↦ inl (j, l, there ∙ r', h, first)
              | inl (r', nowhere') ↦ inr (there ∙ r', nowhere')
            ],
          )
    ]

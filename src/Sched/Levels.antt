-- ===== src/Sched/Levels.antt =====
-- The loops of sched.c over the 140 levels.
use os_assignment.Base.{
  ℕ, zero, suc, ◌+◌, ◌-◌, ◌≤◌, ◌<◌, ◌≡◌, ◌≢◌, ◌⊎◌, inl, inr, refl, ◌∙◌, true, false, not, ◌&&◌,
  none, some, arith, ltb, leb, if◌then◌else◌, range_cons, update,
}
use os_assignment.Queue.{Queue, empty}
use os_assignment.Sched.{max_prio, levels_empty, reset_from, reset_slots, clear_from, choose_from}

empty_iff : (q : Queue) → ((empty q ≡ true) × (q.size ≡ 0)) ⊎ ((empty q ≡ false) × (q.size ≢ 0))
unfolding empty
empty_iff q = ground arith

-- Either every level of the range is empty, or one is not.
pub levels_empty-cases :
    (ready : ℕ → Queue) (n p : ℕ)
    → ((levels_empty ready n p ≡ true) × ((i : ℕ) → p ≤ i → i < p + n → (ready i).size ≡ 0))
      ⊎ ((levels_empty ready n p ≡ false) × (i : ℕ) × (p ≤ i) × (i < p + n) × ((ready i).size ≢ 0))
unfolding levels_empty
levels_empty-cases ready zero p = inl (refl, λ i l m. absurd (omega arith))
levels_empty-cases ready (suc n) p = elim (empty_iff (ready p)) [
  | inr (e, h) ↦ inr (ground arith, p, omega arith, omega arith, h)
  | inl (e, h) ↦ elim (levels_empty-cases ready n (p + 1)) [
    | inl (r, k) ↦ inl (ground arith, λ i l m. ground (arith, k i))
    | inr (r, i, l, m, k) ↦ inr (ground arith, i, omega arith, omega arith, k)
  ]
]

-- A level with a process in its queue and a slot left.
abbrev pub IsEligible : (ℕ → Queue) → (ℕ → ℕ) → ℕ → Type 0
IsEligible ready slot i = ((ready i).size ≢ 0) × (0 < slot i)

-- A level that the search passes over.
abbrev pub IsSkipped : (ℕ → Queue) → (ℕ → ℕ) → ℕ → Type 0
IsSkipped ready slot i = ((ready i).size ≡ 0) ⊎ (slot i ≡ 0)

IsEligible-iff :
    (ready : ℕ → Queue) (slot : ℕ → ℕ) (i : ℕ)
    → (((not (empty (ready i)) && ltb 0 (slot i)) ≡ true) × IsEligible ready slot i)
      ⊎ (((not (empty (ready i)) && ltb 0 (slot i)) ≡ false) × IsSkipped ready slot i)
unfolding empty
IsEligible-iff ready slot i = ground arith

-- The search finds the first eligible level of the range, if there is one.
pub choose_from-cases :
    (ready : ℕ → Queue) (slot : ℕ → ℕ) (n p : ℕ)
    → ((choose_from ready slot n p ≡ none) × ((i : ℕ) → p ≤ i → i < p + n → IsSkipped ready slot i))
      ⊎ ((k : ℕ) × (choose_from ready slot n p ≡ some k)
          × (p ≤ k)
          × (k < p + n)
          × IsEligible ready slot k
          × ((i : ℕ) → p ≤ i → i < k → IsSkipped ready slot i))
unfolding choose_from
choose_from-cases ready slot zero p = inl (refl, λ i l m. absurd (omega arith))
choose_from-cases ready slot (suc n) p = elim (IsEligible-iff ready slot p) [
  | inl (e, h) ↦ inr (p, ground arith, omega arith, omega arith, h, λ i l m. absurd (omega arith))
  | inr (e, h) ↦ elim (choose_from-cases ready slot n (p + 1)) [
    | inl (r, g) ↦ inl (
      ground arith,
      range_cons (IsSkipped ready slot) p (p + suc n) h λ i l m. g i l (omega arith),
    )
    | inr (k, r, l, m, f, g) ↦
        inr
          (k, ground arith, omega arith, omega arith, f, range_cons (IsSkipped ready slot) p k h g)
  ]
]

reset_from_lem :
    (n p : ℕ) (slot : ℕ → ℕ) (i : ℕ)
    → reset_from n p slot i ≡ (if leb p i && ltb i (p + n) then max_prio - i else slot i)
unfolding reset_from
reset_from_lem zero p slot i = ground arith
reset_from_lem (suc n) p slot i =
    rw (reset_from_lem n (p + 1) (update slot p (max_prio - p)) i) (ground arith)

-- Each of the 140 levels gets `140 - i` slots.
pub reset_slots_lem : (slot : ℕ → ℕ) (i : ℕ) → i < max_prio → reset_slots slot i ≡ max_prio - i
unfolding reset_slots
reset_slots_lem slot i h = reset_from_lem 140 0 slot i ∙ ground arith

clear_from_lem :
    (n p : ℕ) (ready : ℕ → Queue) (i : ℕ)
    → (clear_from n p ready i).size ≡ (if leb p i && ltb i (p + n) then 0 else (ready i).size)
unfolding clear_from
clear_from_lem zero p ready i = ground arith
clear_from_lem (suc n) p ready i =
    rw (clear_from_lem n (p + 1) (update ready p (record (ready p) { size = 0 })) i) (ground arith)

pub clear_lem :
    (ready : ℕ → Queue) (i : ℕ) → i < max_prio → (clear_from max_prio 0 ready i).size ≡ 0
clear_lem ready i h = clear_from_lem 140 0 ready i ∙ ground arith

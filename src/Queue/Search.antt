-- ===== src/Queue/Search.antt =====
-- The two searches of queue.c: for the block of least `prio`, and for a given pointer.
use os_assignment.Base.{
  ℕ, zero, suc, ◌+◌, ◌≤◌, ◌<◌, ◌≡◌, ◌≢◌, ◌⊎◌, inl, inr, refl, none, some, arith, ltb, ◌==◌,
  if◌then◌else◌, Bool-cases,
}
use os_assignment.Queue.{best_from, index_from}

-- `b` designates the first of the least values among the cells below `i`.
pub record IsBest (prio : ℕ → ℕ) (a : ℕ → ℕ) (i b : ℕ) : Type 0 where
  pub inside : b < i
  pub before : (k : ℕ) → k < b → prio (a b) < prio (a k)
  pub behind : (k : ℕ) → k < i → prio (a b) ≤ prio (a k)

module _ (prio : ℕ → ℕ) (a : ℕ → ℕ) where
  IsBest-suc :
      (i b : ℕ)
      → IsBest prio a i b
      → IsBest prio a (i + 1) (if ltb (prio (a i)) (prio (a b)) then i else b)
  IsBest-suc i b h = elim (Bool-cases (ltb (prio (a i)) (prio (a b)))) [
    | inl less ↦ rw less (record {
      inside = omega arith;
      before = λ k p. ground (arith, h.behind k p);
      behind = λ k p. ground (arith, h.behind k);
    })
    | inr more ↦ rw more (record {
      inside = ground arith;
      before = h.before;
      behind = λ k p. ground (arith, h.behind k);
    })
  ]

  pub best_from-IsBest :
      (n i j b : ℕ) → i + n ≡ j → IsBest prio a i b → IsBest prio a j (best_from prio a n i b)
  unfolding best_from
  best_from-IsBest zero i j b e h = let e' : i ≡ j = omega arith in rw (← e') h
  best_from-IsBest (suc n) i j b e h =
      best_from-IsBest n (i + 1) j _ (omega arith) (IsBest-suc i b h)

-- The first cell that holds `p`, if one does.
pub index_from-cases :
    (p : ℕ) (a : ℕ → ℕ) (n i : ℕ)
    → ((index_from p a n i ≡ none) × ((k : ℕ) → i ≤ k → k < i + n → a k ≢ p))
      ⊎ ((j : ℕ) × (index_from p a n i ≡ some j)
          × (i ≤ j)
          × (j < i + n)
          × (a j ≡ p)
          × ((k : ℕ) → i ≤ k → k < j → a k ≢ p))
unfolding index_from
index_from-cases p a zero i = inl (refl, λ k h h'. absurd (omega arith))
index_from-cases p a (suc n) i = elim (Bool-cases (a i == p)) [
  | inl e ↦
      inr (i, ground arith, omega arith, omega arith, ground arith, λ k l m. absurd (omega arith))
  | inr e ↦ elim (index_from-cases p a n (i + 1)) [
    | inl (r, h) ↦ inl (ground arith, λ k l m. ground (arith, h k))
    | inr (j, r, l, m, f, h) ↦
        inr (j, ground arith, omega arith, omega arith, f, λ k l' m'. ground (arith, h k))
  ]
]

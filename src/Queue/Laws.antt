-- ===== src/Queue/Laws.antt =====
-- What queue.c promises of the list of processes in a queue.
use os_assignment.Base.{
  ℕ, ◌+◌, ◌-◌, ◌≤◌, ◌<◌, ◌≡◌, ◌≢◌, ◌∙◌, ap, ap₂, inl, inr, refl, List, [], ◌∷◌, none, some, Option,
  sym, subst, ◌⊎◌, All-append, All-back, ◌++◌, arith, leb, ◌==◌, if◌then◌else◌, All, window,
  window_ext, window_split, All-window, update,
}
use os_assignment.Queue.{
  Queue, max_queue_size, null, enqueue, dequeue, purgequeue, purge_found, remove_at, best_from,
  index_from, contents,
}
use os_assignment.Queue.Shift.{contents-remove_at, contents_around}
use os_assignment.Queue.Search.{IsBest, best_from-IsBest, index_from-cases}

abbrev pub snoc : List ℕ → ℕ → List ℕ
snoc xs p = xs ++ (p ∷ [])

contents_push : (a : ℕ → ℕ) (n p : ℕ) → window (update a n p) 0 (n + 1) ≡ snoc (window a 0 n) p
contents_push a n p =
    window_split (update a n p) 0 n 1 (n + 1) n (omega arith) (omega arith)
    ∙ ap₂ ◌++◌ (window_ext _ _ 0 0 n λ k h. ground arith) (ground arith)

-- `enqueue` appends the process at the end of the list, unless it is NULL or the queue holds 50
-- processes or more: then the list stays as it is.
pub contents-enqueue :
    (q : Queue) (p : ℕ)
    → contents (enqueue q p) ≡ (
        if p == null
        then contents q
        else if leb max_queue_size q.size
        then contents q
        else snoc (contents q) p)
unfolding enqueue
contents-enqueue q p = ground (arith, contents_push q.proc q.size p)

dequeue_some :
    (prio : ℕ → ℕ) (q : Queue)
    → q.size ≢ 0
    → let b = best_from prio q.proc (q.size - 1) 1 0 in dequeue prio q ≡ (remove_at q b, q.proc b)
unfolding dequeue
dequeue_some prio q h = ground arith

dequeue-IsBest :
    (prio : ℕ → ℕ) (q : Queue)
    → q.size ≢ 0
    → IsBest prio q.proc q.size (best_from prio q.proc (q.size - 1) 1 0)
dequeue-IsBest prio q h =
    best_from-IsBest prio q.proc (q.size - 1) 1 q.size 0 (omega arith) (record {
      inside = omega arith;
      before = λ k p. absurd (omega arith);
      behind = λ k p. ground arith;
    })

-- On a queue that is not empty `dequeue` takes out the first of the processes of least `prio` and
-- keeps the others in order.
pub dequeue_lem :
    (prio : ℕ → ℕ) (q : Queue)
    → q.size ≢ 0
    → let (q', p) = dequeue prio q in
      (xs : List ℕ) × (ys : List ℕ) × (contents q ≡ xs ++ (p ∷ ys))
      × (contents q' ≡ xs ++ ys)
      × All (λ x. prio p < prio x) xs
      × All (λ y. prio p ≤ prio y) ys
dequeue_lem prio q h =
    let b = best_from prio q.proc (q.size - 1) 1 0 in
    let best : IsBest prio q.proc q.size b = dequeue-IsBest prio q h in
    rw (dequeue_some prio q h) (
      window q.proc 0 b,
      window q.proc (b + 1) (q.size - 1 - b),
      contents_around q b best.inside,
      contents-remove_at q b best.inside,
      All-window _ q.proc 0 b λ k l m. best.before k (omega arith),
      All-window _ q.proc (b + 1) (q.size - 1 - b)
          λ k l m. best.behind k (omega (arith, best.inside)),
    )

purgequeue_absent :
    (q : Queue) (p : ℕ) → index_from p q.proc q.size 0 ≡ none → purgequeue q p ≡ (q, null)
unfolding purgequeue
purgequeue_absent q p r = ground arith

purgequeue_found :
    (q : Queue) (p : ℕ) (j : ℕ)
    → p ≢ null
    → j < q.size
    → index_from p q.proc q.size 0 ≡ some j
    → purgequeue q p ≡ (remove_at q j, q.proc j)
unfolding purgequeue
purgequeue_found q p j h m r = ground arith

abbrev pub Without : ℕ → List ℕ → Type 0
Without p = All (λ x. x ≢ p)

-- What `purgequeue` does to the list `xs` of a queue, with its result.
pub data Purged (p : ℕ) (xs : List ℕ) (r : Queue × ℕ) : Type 0 where
  absent : Without p xs → contents r.0 ≡ xs → r.1 ≡ null → Purged p xs r
  found :
      (front back : List ℕ)
      → xs ≡ front ++ (p ∷ back)
      → Without p front
      → contents r.0 ≡ front ++ back
      → r.1 ≡ p
      → Purged p xs r

-- For a process other than NULL: `purgequeue` takes its first occurrence out of the queue, keeps
-- the others in order and returns it, or, if the queue does not hold it, keeps the list of
-- processes and returns NULL.
pub purgequeue-Purged : (q : Queue) (p : ℕ) → p ≢ null → Purged p (contents q) (purgequeue q p)
purgequeue-Purged q p h = elim (index_from-cases p q.proc q.size 0) [
  | inl (r, none_there) ↦
      rw (purgequeue_absent q p r)
        (absent (All-window _ q.proc 0 q.size λ k l m. none_there k l m) refl refl)
  | inr (j, r, l, m, e, none_before) ↦
      let inside : j < q.size = omega arith in
      rw (purgequeue_found q p j h inside r) (
        found (window q.proc 0 j) (window q.proc (j + 1) (q.size - 1 - j))
          (contents_around q j inside ∙ ap₂ ◌++◌ refl (ap₂ ◌∷◌ e refl))
          (All-window _ q.proc 0 j λ k l' m'. none_before k l' (omega arith))
          (contents-remove_at q j inside) e)
]

abbrev pub erase : ℕ → List ℕ → List ℕ
erase p [] = []
erase p (x ∷ xs) = if x == p then xs else x ∷ erase p xs

erase_absent : (p : ℕ) (xs : List ℕ) → Without p xs → erase p xs ≡ xs
erase_absent p [] h = refl
erase_absent p (x ∷ xs) h = ground (arith, erase_absent p xs)

erase_middle : (p : ℕ) (xs ys : List ℕ) → Without p xs → erase p (xs ++ (p ∷ ys)) ≡ xs ++ ys
erase_middle p [] ys h = ground arith
erase_middle p (z ∷ xs) ys h = ground (arith, erase_middle p xs ys)

erase-Purged : (p : ℕ) (xs : List ℕ) (r : Queue × ℕ) → Purged p xs r → contents r.0 ≡ erase p xs
erase-Purged p xs r (absent h e f) = e ∙ sym (erase_absent p xs h)
erase-Purged p xs r (found front back e h f g) = rw (e, erase_middle p front back h) f

pub contents-purgequeue :
    (q : Queue) (p : ℕ) → p ≢ null → contents (purgequeue q p).0 ≡ erase p (contents q)
contents-purgequeue q p h = erase-Purged p (contents q) (purgequeue q p) (purgequeue-Purged q p h)

no_front :
    (prio : ℕ → ℕ) (level p : ℕ) (xs ys : List ℕ)
    → All (λ x. prio x ≡ level) (xs ++ (p ∷ ys))
    → All (λ x. prio p < prio x) xs
    → xs ≡ []
no_front prio level p [] ys h l = refl
no_front prio level p (x ∷ xs) ys h l =
    let same = (All-back (λ x. prio x ≡ level) xs (p ∷ ys) h.1).0 in absurd (omega arith)

-- On a queue that is not empty and whose processes all have one priority, as in a ready queue of
-- sched.c, `dequeue` takes out the first process and keeps the others in order.
pub dequeue_fifo :
    (prio : ℕ → ℕ) (level : ℕ) (q : Queue)
    → q.size ≢ 0
    → All (λ x. prio x ≡ level) (contents q)
    → contents q ≡ (dequeue prio q).1 ∷ contents (dequeue prio q).0
dequeue_fifo prio level q h same =
    let (xs, ys, e, f, less, more) = dequeue_lem prio q h in
    let p = (dequeue prio q).1 in
    let first : xs ≡ [] =
      no_front prio level p xs ys (subst (All (λ x. prio x ≡ level)) e same) less in
    e
    ∙ ap₂ {A = List ℕ} (λ l m. l ++ (p ∷ m)) first refl
    ∙ ap₂ ◌∷◌ refl (sym (f ∙ ap (λ (l : List ℕ). l ++ ys) first))

pub size-dequeue : (prio : ℕ → ℕ) (q : Queue) → (dequeue prio q).0.size ≡ q.size - 1
unfolding dequeue remove_at
size-dequeue prio q = ground arith

pub size-enqueue :
    (q : Queue) (p : ℕ) → q.size ≤ max_queue_size → (enqueue q p).size ≤ max_queue_size
unfolding enqueue
size-enqueue q p h = ground arith

purge_found-le : (q : Queue) (o : Option ℕ) → (purge_found q o).0.size ≤ q.size
unfolding purge_found remove_at
purge_found-le q none = omega arith
purge_found-le q (some i) = omega arith

pub size-purgequeue-le : (q : Queue) (p : ℕ) → (purgequeue q p).0.size ≤ q.size
unfolding purgequeue
size-purgequeue-le q p = ground (arith, purge_found-le q (index_from p q.proc q.size 0))

enqueue-cases :
    (q : Queue) (p : ℕ)
    → (contents (enqueue q p) ≡ contents q) ⊎ (contents (enqueue q p) ≡ snoc (contents q) p)
enqueue-cases q p = ground (arith, contents-enqueue q p)

pub All-enqueue {κ} :
    (P : ℕ → Type κ) (q : Queue) (p : ℕ) → P p → All P (contents q) → All P (contents (enqueue q p))
All-enqueue P q p h hs = elim (enqueue-cases q p) [
  | inl e ↦ subst (All P) (sym e) hs
  | inr e ↦ subst (All P) (sym e) (All-append P (contents q) (p ∷ []) hs (h, tt))
]

-- ===== src/Queue/Shift.antt =====
-- The shifting loop that closes the gap in the array of queue.c.
use os_assignment.Base.{
  ℕ, zero, suc, ◌+◌, ◌-◌, ◌<◌, ◌≡◌, ap₂, ◌∙◌, ◌++◌, arith, ltb, if◌then◌else◌, update, window,
  window_ext, window_split,
}
use os_assignment.Queue.{Queue, shift, remove_at, contents}

shift_lem :
    (n j : ℕ) (a : ℕ → ℕ) (k : ℕ)
    → shift n j a k ≡ (if ltb k j then a k else if ltb k (j + n) then a (k + 1) else a k)
unfolding shift
shift_lem zero j a k = ground arith
shift_lem (suc n) j a k = rw (shift_lem n (j + 1) (update a j (a (j + 1))) k) (ground arith)

-- Removing cell `i` leaves the cells before it and those behind it, in order.
pub contents-remove_at :
    (q : Queue) (i : ℕ)
    → i < q.size
    → contents (remove_at q i) ≡ window q.proc 0 i ++ window q.proc (i + 1) (q.size - 1 - i)
unfolding remove_at
contents-remove_at q i h =
    window_split _ 0 i (q.size - 1 - i) (q.size - 1) i (omega arith) (omega arith)
    ∙ ap₂ ◌++◌ (window_ext _ _ 0 0 i λ k p. ground (arith, shift_lem (q.size - 1 - i) i q.proc k)) (
        window_ext _ _ i (i + 1) (q.size - 1 - i)
          λ k p. ground (arith, shift_lem (q.size - 1 - i) i q.proc (i + k)))

-- The whole queue around cell `i`.
pub contents_around :
    (q : Queue) (i : ℕ)
    → i < q.size
    → contents q ≡ window q.proc 0 i ++ window q.proc i (suc (q.size - 1 - i))
contents_around q i h =
    window_split q.proc 0 i (suc (q.size - 1 - i)) q.size i (omega arith) (omega arith)

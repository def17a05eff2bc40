-- ===== src/Timer/Attach.antt =====
-- timer.c, os.c: the devices that are there when the timer starts.
use os_assignment.Base.{
  ℕ, zero, suc, ◌+◌, ◌≡◌, refl, sym, subst, false, Option, some, List, ◌∷◌, length, arith, All,
}
use os_assignment.Timer.{attached, DevList, attach_event}

-- The calls of `attach_event` in `main`, a loop and one more call, with `n` calls left, and what they
-- return, the last one in front.
pub attach_from : ℕ → DevList → List (Option ℕ) → DevList × List (Option ℕ)
unfolding attach_event
attach_from zero d ids = (d, ids)
attach_from (suc n) d ids = let r = attach_event d in attach_from n r.0 (r.1 ∷ ids)

attach_event_lem :
    (d : DevList)
    → d.timer_started ≡ false
    → attach_event d ≡ (record d { dev_list = attached ∷ d.dev_list }, some (length d.dev_list))
unfolding attach_event
attach_event_lem d e = rw e

-- Before the timer has started, `n` calls of `attach_event` make `n` devices, each a new one, and
-- return none of them as NULL.
pub attach_from_lem :
    (n : ℕ) (d : DevList) (ids : List (Option ℕ))
    → d.timer_started ≡ false
    → All (λ e. e ≡ attached) d.dev_list
    → All (λ o. (i : ℕ) × (o ≡ some i)) ids
    → let r = attach_from n d ids in
      (length r.0.dev_list ≡ n + length d.dev_list)
      × All (λ e. e ≡ attached) r.0.dev_list
      × All (λ o. (i : ℕ) × (o ≡ some i)) r.1
unfolding attach_from
attach_from_lem zero d ids e new there = (omega arith, new, there)
attach_from_lem (suc n) d ids e new there =
    let next : DevList = record d { dev_list = attached ∷ d.dev_list } in
    let (size, all_new, all_there) =
      attach_from_lem n next (some (length d.dev_list) ∷ ids) e (refl, new)
        ((length d.dev_list, refl), there) in
    subst
      (λ (r : DevList × Option ℕ).
        (length (attach_from n r.0 (r.1 ∷ ids)).0.dev_list ≡ suc n + length d.dev_list)
        × All (λ e. e ≡ attached) (attach_from n r.0 (r.1 ∷ ids)).0.dev_list
        × All (λ o. (i : ℕ) × (o ≡ some i)) (attach_from n r.0 (r.1 ∷ ids)).1)
      (sym (attach_event_lem d e)) (omega (arith, size), all_new, all_there)

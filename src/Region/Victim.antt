-- ===== src/Region/Victim.antt =====
-- The pages of a process in the order in which they were mapped: the victim is the oldest.
use os_assignment.Base.{ℕ, ◌≡◌, refl, ap, ◌∙◌, sym, some, List, [], ◌∷◌, ◌++◌}
use os_assignment.Map.{enlist_pgn_node}
use os_assignment.Region.{last_from, find_victim_page}

last_from_lem :
    (pg victim : ℕ) (pages : List ℕ) → last_from pg (pages ++ victim ∷ []) ≡ (victim, pg ∷ pages)
unfolding last_from
last_from_lem pg victim [] = refl
last_from_lem pg victim (next ∷ rest) =
    ap (λ (t : ℕ × List ℕ). (t.0, pg ∷ t.1)) (last_from_lem next victim rest)

-- The pages enlisted one after the other.
abbrev pub enlist_all : List ℕ → List ℕ → List ℕ
enlist_all fifo [] = fifo
enlist_all fifo (pgn ∷ rest) = enlist_all (enlist_pgn_node fifo pgn) rest

pub find_victim_page_last :
    (pg victim : ℕ) (pages : List ℕ)
    → find_victim_page (pg ∷ pages ++ victim ∷ []) ≡ some (some victim, pg ∷ pages)
unfolding find_victim_page
find_victim_page_last pg victim [] = unfold last_from in refl
find_victim_page_last pg victim (next ∷ rest) =
    ap (λ (t : ℕ × List ℕ). some (some t.0, pg ∷ t.1)) (last_from_lem next victim rest)

-- What is enlisted goes in front of the list as a whole.
enlist_all_front :
    (new fifo : List ℕ) (pg : ℕ)
    → (front : List ℕ) × (first : ℕ) × (enlist_all (pg ∷ fifo) new ≡ first ∷ front)
      × ((tail : List ℕ) → enlist_all (pg ∷ fifo ++ tail) new ≡ first ∷ front ++ tail)
enlist_all_front [] fifo pg = (fifo, pg, refl, λ tail. refl)
enlist_all_front (next ∷ new) fifo pg = enlist_all_front new (pg ∷ fifo) next

-- When at least one page has been enlisted behind a first one, the victim is that first page,
-- whatever came later, and the later pages stay listed: the list without it is the list that
-- they make.
pub find_victim_page-enlist_all :
    (victim pg : ℕ) (later : List ℕ)
    → find_victim_page (enlist_all (enlist_pgn_node [] victim) (pg ∷ later))
      ≡ some (some victim, enlist_all [] (pg ∷ later))
find_victim_page-enlist_all victim pg later =
    let (front, first, alone, at) = enlist_all_front later [] pg in
    ap find_victim_page (at (victim ∷ []))
    ∙ find_victim_page_last first victim front
    ∙ ap (λ (t : List ℕ). some (some victim, t)) (sym alone)

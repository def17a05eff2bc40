-- ===== src/Region/Free.antt =====
-- get_free_vmrg_area: taking a region out of the free regions of an area.
use os_assignment.Base.{
  ℕ, ◌+◌, ◌-◌, ◌^◌, ◌<◌, ◌≤◌, ◌≡◌, ◌⊎◌, inl, inr, refl, ap, ◌∙◌, sym, true, false, ◌&&◌, Option,
  none, some, List, [], ◌∷◌, arith, ltb, leb, ◌==◌, if◌then◌else◌, All, Bool-cases, subst,
  if_eq_true, if_eq_false,
}
use os_assignment.Table.{add64}
use os_assignment.Map.{Region}
use os_assignment.Region.{int_of, take_fit, get_free_vmrg_area}

-- 1 for an address inside the region, else 0.
abbrev pub inside : ℕ → Region → ℕ
inside a rg = if leb rg.rg_start a && ltb a rg.rg_end then 1 else 0

-- How many regions of a list an address lies in.
abbrev pub uses : ℕ → List Region → ℕ
uses a [] = 0
uses a (rg ∷ rest) = inside a rg + uses a rest

-- A region whose ends are in order and below 2 ^ 63.
abbrev pub IsRegion : Region → Type 0
IsRegion rg = (rg.rg_start ≤ rg.rg_end) × (rg.rg_end < 2 ^ 63)

-- The region `rg` of `size` bytes has been taken out of `rgs`, which leaves `left`.
pub record Taken (size : ℕ) (rgs : List Region) (rg : Region) (left : List Region) : Type 0 where
  pub fits : rg.rg_end ≡ rg.rg_start + size
  pub bound : rg.rg_end < 2 ^ 63
  pub conserved : (a : ℕ) → uses a rgs ≡ inside a rg + uses a left
  pub rest : All IsRegion left

-- No region has `size` bytes.
abbrev pub IsFull : ℕ → List Region → Type 0
IsFull size = All (λ rg. rg.rg_end < rg.rg_start + size)

-- What the search gives on `rgs`.
abbrev Search : ℕ → List Region → Region × List Region → Type 0
Search size rgs t =
    Taken size rgs t.0 t.1 ⊎ ((t.0.rg_start ≡ 2 ^ 64 - 1) × (t.1 ≡ rgs) × IsFull size rgs)

Taken-cons :
    (size : ℕ) (rg : Region) (rgs : List Region) (t : Region × List Region)
    → IsRegion rg
    → rg.rg_end < rg.rg_start + size
    → Search size rgs t
    → Search size (rg ∷ rgs) (t.0, rg ∷ t.1)
Taken-cons size rg rgs t h small (inl k) = inl (record {
  fits = k.fits;
  bound = k.bound;
  conserved = λ a. omega (arith, k.conserved a);
  rest = (h, k.rest);
})
Taken-cons size rg rgs t h small (inr k) =
    inr (k.0, ap (λ (r : List Region). rg ∷ r) k.1, (small, k.2))

-- What stays of a free list whose first region is used up.
abbrev used_up : Region → List Region → List Region
used_up rg [] = record { rg_start = rg.rg_end; rg_end = rg.rg_end } ∷ []
used_up rg (next ∷ more) = next ∷ more

used_up-Taken :
    (size : ℕ) (rg : Region) (rest : List Region)
    → IsRegion rg
    → All IsRegion rest
    → rg.rg_start + size ≡ rg.rg_end
    → Taken size
        (rg ∷ rest)
        (record { rg_start = rg.rg_start; rg_end = rg.rg_start + size })
        (used_up rg rest)
used_up-Taken size rg [] h hs e = record {
  fits = refl;
  bound = omega (arith, h.1);
  conserved = λ a. ground arith;
  rest = ((omega arith, h.1), tt);
}
used_up-Taken size rg (next ∷ more) h hs e = record {
  fits = refl;
  bound = omega (arith, h.1);
  conserved = λ a. ground arith;
  rest = hs;
}

cut-Taken :
    (size : ℕ) (rg : Region) (rest : List Region)
    → IsRegion rg
    → All IsRegion rest
    → rg.rg_start + size < rg.rg_end
    → Taken size
        (rg ∷ rest)
        (record { rg_start = rg.rg_start; rg_end = rg.rg_start + size })
        (record rg { rg_start = rg.rg_start + size } ∷ rest)
cut-Taken size rg rest h hs e = record {
  fits = refl;
  bound = omega (arith, h.1);
  conserved = λ a. ground arith;
  rest = ((omega arith, h.1), hs);
}

-- The first region of the list has room.
head-Search :
    (size : ℕ) (rg : Region) (rest : List Region)
    → IsRegion rg
    → All IsRegion rest
    → rg.rg_start + size ≤ rg.rg_end
    → Search size (rg ∷ rest) (
      record { rg_start = rg.rg_start; rg_end = rg.rg_start + size },
      if ltb (rg.rg_start + size) rg.rg_end
          then record rg { rg_start = rg.rg_start + size } ∷ rest
          else used_up rg rest,
    )
head-Search size rg rest h hs e =
    let found : Region = record { rg_start = rg.rg_start; rg_end = rg.rg_start + size } in
    inl (elim (Bool-cases (ltb (rg.rg_start + size) rg.rg_end)) [
      | inl some_left ↦
          subst (Taken size (rg ∷ rest) found) (sym (if_eq_true _ _ some_left))
            (cut-Taken size rg rest h hs (ground arith))
      | inr none_left ↦
          subst (Taken size (rg ∷ rest) found) (sym (if_eq_false _ _ none_left))
            (used_up-Taken size rg rest h hs (ground arith))
    ])

take_fit_step :
    (size : ℕ) (rg : Region) (rest : List Region)
    → take_fit size (rg ∷ rest) ≡ (
        if leb (add64 rg.rg_start size) rg.rg_end
        then (
          record { rg_start = rg.rg_start; rg_end = add64 rg.rg_start size },
          if ltb (add64 rg.rg_start size) rg.rg_end
              then record rg { rg_start = add64 rg.rg_start size } ∷ rest
              else used_up rg rest,
        )
        else ((take_fit size rest).0, rg ∷ (take_fit size rest).1))
unfolding take_fit
take_fit_step size rg [] = refl
take_fit_step size rg (next ∷ more) = refl

take_fit_lem :
    (size : ℕ) (rgs : List Region)
    → size < 2 ^ 31
    → All IsRegion rgs
    → Search size rgs (take_fit size rgs)
take_fit_lem size [] h hs = unfold take_fit in inr (refl, refl, tt)
take_fit_lem size (rg ∷ rest) h hs =
    let stop : add64 rg.rg_start size ≡ rg.rg_start + size = omega (arith, hs.0.0, hs.0.1) in
    subst (Search size (rg ∷ rest)) (sym (take_fit_step size rg rest)) (
      subst
        (λ (s : ℕ). Search size (rg ∷ rest) (
          if leb s rg.rg_end
          then (
            record { rg_start = rg.rg_start; rg_end = s },
            if ltb s rg.rg_end then record rg { rg_start = s } ∷ rest else used_up rg rest,
          )
          else ((take_fit size rest).0, rg ∷ (take_fit size rest).1)))
        (sym stop)
        (elim (Bool-cases (leb (rg.rg_start + size) rg.rg_end)) [
          | inl fits ↦
              subst (Search size (rg ∷ rest)) (sym (if_eq_true _ _ fits))
                (head-Search size rg rest hs.0 hs.1 (ground arith))
          | inr small ↦ subst (Search size (rg ∷ rest)) (sym (if_eq_false _ _ small)) (
              Taken-cons size rg rest (take_fit size rest) hs.0 (ground arith)
                (take_fit_lem size rest h hs.1))
        ]))

int_of_lem : (size : ℕ) → size < 2 ^ 31 → int_of size ≡ size
int_of_lem size h = ground arith

-- A search for less than 2 ^ 31 bytes among free regions whose ends are in order and below
-- 2 ^ 63: either it takes a region of exactly that size, and every address lies in as many free
-- regions as it now does with the region taken; or it returns -1, leaves the list as it was, and
-- no region of the list has room.
pub get_free_vmrg_area-cases :
    (size : ℕ) (rgs : List Region)
    → size < 2 ^ 31
    → All IsRegion rgs
    → ((rg : Region) × (left : List Region) × (get_free_vmrg_area size rgs ≡ (some rg, left))
        × Taken size rgs rg left)
      ⊎ ((get_free_vmrg_area size rgs ≡ (none, rgs)) × IsFull size rgs)
unfolding get_free_vmrg_area
get_free_vmrg_area-cases size [] h hs = inr (refl, tt)
get_free_vmrg_area-cases size (rg ∷ rest) h hs =
    let t = take_fit size (rg ∷ rest) in
    let result : Region × List Region → Option Region × List Region =
      λ u. (if u.0.rg_start == 2 ^ 64 - 1 then none else some u.0, u.1) in
    let shown : get_free_vmrg_area size (rg ∷ rest)
        ≡ (if t.0.rg_start == 2 ^ 64 - 1 then none else some t.0, t.1) =
      ap (λ (s : ℕ). result (take_fit s (rg ∷ rest))) (int_of_lem size h) in
    elim (take_fit_lem size (rg ∷ rest) h hs) [
      | inl k ↦
          let here : (t.0.rg_start == 2 ^ 64 - 1) ≡ false = ground (arith, k.fits, k.bound) in
          inl (
            t.0,
            t.1,
            shown
                ∙ ap (λ (o : Option Region). (o, t.1))
                    (if_eq_false {b = t.0.rg_start == 2 ^ 64 - 1} _ _ here),
            k,
          )
      | inr k ↦
          let gone : (t.0.rg_start == 2 ^ 64 - 1) ≡ true = ground (arith, k.0) in
          inr (
            shown
                ∙ ap (λ (o : Option Region). (o, t.1))
                    (if_eq_true {b = t.0.rg_start == 2 ^ 64 - 1} _ _ gone)
                ∙ ap (λ (r : List Region). (none, r)) k.1,
            k.2,
          )
    ]

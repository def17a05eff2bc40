-- ===== src/Region/Alloc.antt =====
-- liballoc and libfree: what they do to the variables of a process and to its free regions.
use os_assignment.Base.{
  ℕ, ◌+◌, ◌^◌, ◌<◌, ◌≡◌, ◌⊎◌, inl, inr, refl, ap, ◌∙◌, sym, true, false, ◌&&◌, Option, none, some,
  List, [], ◌∷◌, arith, ltb, leb, ◌==◌, All, subst, if_eq_true, if_eq_false, update,
}
use os_assignment.Memphy.{Status, done}
use os_assignment.Table.{add64}
use os_assignment.Map.{Region}
use os_assignment.Region.{
  Area, Mm, int_of, get_vma, get_vma_by_num, area_from, get_free_vmrg_area, alloc, alloc_region,
  free, liballoc, libfree, enlist_vm_freerg_list, join, out_of_table,
}
use os_assignment.Region.Free.{inside, uses, IsRegion, Taken, IsFull, get_free_vmrg_area-cases}

-- A process whose first area is `vma`.
abbrev pub with_area : Mm → Area → List Area → Mm
with_area mm vma rest = record mm { mmap = vma ∷ rest }

abbrev pub set_free : Area → List Region → Area
set_free vma rgs = record vma { vm_freerg_list = rgs }

abbrev pub set_region : ℕ → Region → Mm → Mm
set_region rgid rg mm = record mm { symrgtbl = update mm.symrgtbl rgid rg }

-- The first area is the one with the id 0, or the first above.
pub get_vma_by_num_first :
    (vma : Area) (rest : List Area) → get_vma_by_num (vma ∷ rest) 0 ≡ some (some ([], vma, rest))
unfolding get_vma_by_num area_from
get_vma_by_num_first vma rest =
    let e : ltb vma.vm_id 0 ≡ false = ground arith in rw (e, get_vma_by_num, area_from) refl

get_vma_lem : (vma : Area) (rest : List Area) → get_vma (vma ∷ rest) 0 ≡ some ([], vma, rest)
unfolding get_vma
get_vma_lem vma rest = rw (get_vma_by_num_first vma rest, get_vma) refl

-- The region that `__alloc` gives when no free region has room.
abbrev pub at_sbrk : Area → ℕ → Region
at_sbrk vma size = record { rg_start = int_of vma.sbrk; rg_end = add64 (int_of vma.sbrk) size }

alloc_found :
    (mm : Mm) (vma : Area) (rest : List Area) (rgid size : ℕ) (rg : Region) (left : List Region)
    → rgid < 30
    → get_free_vmrg_area size vma.vm_freerg_list ≡ (some rg, left)
    → alloc (with_area mm vma rest) 0 rgid size
      ≡ some (rg.rg_start, set_region rgid rg (with_area mm (set_free vma left) rest))
unfolding alloc join alloc_region
alloc_found mm vma rest rgid size rg left h e =
    let inside_table : leb 30 rgid ≡ false = ground arith in
    rw (alloc, get_vma_lem vma rest, e, inside_table)
      (ap
        (λ (t : Option Region × List Region).
          some (rg.rg_start, set_region rgid rg (with_area mm (set_free vma t.1) rest)))
        e)

alloc_full :
    (mm : Mm) (vma : Area) (rest : List Area) (rgid size : ℕ)
    → rgid < 30
    → get_free_vmrg_area size vma.vm_freerg_list ≡ (none, vma.vm_freerg_list)
    → alloc (with_area mm vma rest) 0 rgid size
      ≡ some (int_of vma.sbrk, set_region rgid (at_sbrk vma size) (with_area mm vma rest))
unfolding alloc join alloc_region
alloc_full mm vma rest rgid size h e =
    let inside_table : leb 30 rgid ≡ false = ground arith in
    rw (alloc, get_vma_lem vma rest, e, inside_table)
      (ap
        (λ (t : Option Region × List Region). some (
          int_of vma.sbrk,
          set_region rgid (at_sbrk vma size) (with_area mm (set_free vma t.1) rest),
        ))
        e)

-- `liballoc` for a size below 2 ^ 31 and a register below 30, when the free regions of the first
-- area have ends in order below 2 ^ 63: either the register gets a free region of that size, and
-- every address lies in as many free regions as before once the register's is counted in; or no
-- free region has room, and the register gets the bytes from `sbrk` on while nothing else
-- changes.
pub liballoc-cases :
    (mm : Mm) (vma : Area) (rest : List Area) (rgid size : ℕ)
    → All IsRegion vma.vm_freerg_list
    → size < 2 ^ 31
    → rgid < 30
    → ((rg : Region) × (left : List Region) × (liballoc (with_area mm vma rest) size rgid
          ≡ some (done, set_region rgid rg (with_area mm (set_free vma left) rest)))
        × Taken size vma.vm_freerg_list rg left)
      ⊎ (IsFull size vma.vm_freerg_list
          × (liballoc (with_area mm vma rest) size rgid
              ≡ some (done, set_region rgid (at_sbrk vma size) (with_area mm vma rest))))
unfolding liballoc
liballoc-cases mm vma rest rgid size h small inside_table =
    let drop_address : Option (ℕ × Mm) → Option (Status × Mm) =
      λ o. elim o [ none ↦ none | some (addr, n) ↦ some (done, n) ] in
    elim (get_free_vmrg_area-cases size vma.vm_freerg_list small h) [
      | inl (rg, left, found, taken) ↦ inl (
        rg,
        left,
        ap drop_address (alloc_found mm vma rest rgid size rg left inside_table found),
        taken,
      )
      | inr (missing, full) ↦
          inr (full, ap drop_address (alloc_full mm vma rest rgid size inside_table missing))
    ]

-- When no free region has room for either size, two allocations in a row give both registers
-- regions that start at the same address.
pub alloc_twice :
    (mm : Mm) (vma : Area) (rest : List Area) (r r' size size' : ℕ)
    → r < 30
    → r' < 30
    → get_free_vmrg_area size vma.vm_freerg_list ≡ (none, vma.vm_freerg_list)
    → get_free_vmrg_area size' vma.vm_freerg_list ≡ (none, vma.vm_freerg_list)
    → (addr : ℕ) × (n : Mm) × (n' : Mm) × (alloc (with_area mm vma rest) 0 r size ≡ some (addr, n))
      × (alloc n 0 r' size' ≡ some (addr, n'))
alloc_twice mm vma rest r r' size size' h h' e e' =
    let n = set_region r (at_sbrk vma size) mm in
    (
      int_of vma.sbrk,
      with_area n vma rest,
      set_region r' (at_sbrk vma size') (with_area n vma rest),
      alloc_full mm vma rest r size h e,
      alloc_full n vma rest r' size' h' e',
    )

-- The region that `__free` leaves for a register.
abbrev pub cleared : Region
cleared = record { rg_start = 0; rg_end = 0 }

free_held :
    (mm : Mm) (vma : Area) (rest : List Area) (rgid : ℕ)
    → rgid < 30
    → (mm.symrgtbl rgid).rg_start < (mm.symrgtbl rgid).rg_end
    → libfree (with_area mm vma rest) rgid
      ≡ some (
        done,
        set_region rgid cleared
            (with_area mm (set_free vma (mm.symrgtbl rgid ∷ vma.vm_freerg_list)) rest),
      )
unfolding libfree free enlist_vm_freerg_list
free_held mm vma rest rgid h held =
    let rg = mm.symrgtbl rgid in
    let out : out_of_table rgid ≡ false = ground arith in
    let table : leb 30 rgid ≡ false = ground arith in
    let in_use : (rg.rg_start == 0 && rg.rg_end == 0) ≡ false = ground arith in
    let ordered : leb rg.rg_end rg.rg_start ≡ false = ground arith in
    if_eq_false _ _ out
    ∙ if_eq_false _ _ table
    ∙ if_eq_false _ _ in_use
    ∙ ap (λ (o : Option (Status × Mm)). elim o [ none ↦ none | some (status, n) ↦ some (done, n) ])
        (if_eq_false {b = leb rg.rg_end rg.rg_start} _ _ ordered)

update_here : (table : ℕ → Region) (i : ℕ) (rg : Region) → update table i rg i ≡ rg
update_here table i rg = let same : (i == i) ≡ true = ground arith in if_eq_true _ _ same

-- Under the conditions of `liballoc-cases` and for a size above 0, unless no free region has
-- room: `liballoc` and then `libfree` of the same register succeed, the register is cleared, and
-- every address lies in as many free regions as at the start.
pub libfree-liballoc :
    (mm : Mm) (vma : Area) (rest : List Area) (rgid size : ℕ)
    → All IsRegion vma.vm_freerg_list
    → 0 < size
    → size < 2 ^ 31
    → rgid < 30
    → ((n : Mm) × (rgs : List Region) × (liballoc (with_area mm vma rest) size rgid
          ≡ some (done, n))
        × (libfree n rgid
            ≡ some (done, set_region rgid cleared (with_area n (set_free vma rgs) rest)))
        × ((a : ℕ) → uses a rgs ≡ uses a vma.vm_freerg_list))
      ⊎ IsFull size vma.vm_freerg_list
libfree-liballoc mm vma rest rgid size h some_bytes small inside_table =
    elim (liballoc-cases mm vma rest rgid size h small inside_table) [
      | inl (rg, left, ran, taken) ↦
          let n = set_region rgid rg mm in
          let here : n.symrgtbl rgid ≡ rg = update_here mm.symrgtbl rgid rg in
          let held : (n.symrgtbl rgid).rg_start < (n.symrgtbl rgid).rg_end =
            subst (λ (g : Region). g.rg_start < g.rg_end) (sym here) (omega (arith, taken.fits)) in
          inl (
            with_area n (set_free vma left) rest,
            n.symrgtbl rgid ∷ left,
            ran,
            free_held n (set_free vma left) rest rgid inside_table held,
            λ a. ap (λ (g : Region). inside a g + uses a left) here ∙ sym (taken.conserved a),
          )
      | inr k ↦ inr k.0
    ]

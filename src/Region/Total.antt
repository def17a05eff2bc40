-- ===== src/Region/Total.antt =====
-- liballoc and libfree: for which registers they have a result, and what they leave alone.
use os_assignment.Base.{
  ℕ, ◌<◌, ◌≡◌, ◌≢◌, inl, inr, refl, ap, ◌∙◌, sym, subst, false, ◌&&◌, Option, none, some, List, ◌∷◌,
  arith, leb, ◌==◌, Bool-cases, if_eq_true, if_eq_false,
}
use os_assignment.Memphy.{Status, done, failed}
use os_assignment.Map.{Region}
use os_assignment.Region.{
  Area, Mm, get_vma, get_free_vmrg_area, alloc, alloc_region, free, liballoc, libfree, join,
  enlist_vm_freerg_list, out_of_table,
}
use os_assignment.Region.Alloc.{with_area, get_vma_by_num_first}

-- The page table and the list of pages are the same, and there still is an area.
pub record SamePages (mm n : Mm) : Type 0 where
  pub pgd : n.pgd ≡ mm.pgd
  pub pages : n.fifo_pgn ≡ mm.fifo_pgn
  pub area : (vma : Area) × (rest : List Area) × (n.mmap ≡ vma ∷ rest)

-- The operation has a result, after which the pages are the same.
abbrev pub HasResult : Mm → Option (Status × Mm) → Type 0
HasResult mm o = (status : Status) × (n : Mm) × (o ≡ some (status, n)) × SamePages mm n

as_area :
    (mm : Mm) (vma : Area) (rest : List Area) → mm.mmap ≡ vma ∷ rest → mm ≡ with_area mm vma rest
as_area mm vma rest e = ap (λ (l : List Area). record mm { mmap = l }) e

alloc_region_total :
    (mm : Mm) (vma vma' : Area) (rest : List Area) (rgid size : ℕ)
    (found : Option Region × List Region)
    → rgid < 30
    → (addr : ℕ) × (n : Mm) × (alloc_region
          (elim found.0 [ none ↦ with_area mm vma' rest | some rg ↦ with_area mm vma' rest ])
          rgid
          size
          vma
          found
        ≡ some (addr, n))
      × SamePages mm n
unfolding alloc_region
alloc_region_total mm vma vma' rest rgid size (none, left) h =
    let inside : leb 30 rgid ≡ false = ground arith in
    (_, _, if_eq_false _ _ inside, record { pgd = refl; pages = refl; area = (vma', rest, refl) })
alloc_region_total mm vma vma' rest rgid size (some rg, left) h =
    let inside : leb 30 rgid ≡ false = ground arith in
    (_, _, if_eq_false _ _ inside, record { pgd = refl; pages = refl; area = (vma', rest, refl) })

liballoc_total_area :
    (mm : Mm) (vma : Area) (rest : List Area) (size rgid : ℕ)
    → rgid < 30
    → HasResult (with_area mm vma rest) (liballoc (with_area mm vma rest) size rgid)
unfolding liballoc alloc join get_vma
liballoc_total_area mm vma rest size rgid h =
    let found = get_free_vmrg_area size vma.vm_freerg_list in
    let vma' : Area = record vma { vm_freerg_list = found.1 } in
    let (addr, n, e, same) = alloc_region_total mm vma vma' rest rgid size found h in
    (
      done,
      n,
      rw (liballoc, alloc, get_vma, get_vma_by_num_first vma rest, e) refl,
      record { pgd = same.pgd; pages = same.pages; area = same.area },
    )

-- `liballoc` for a register below 30 has a result when the process has an area.
pub liballoc_total :
    (mm : Mm) (vma : Area) (rest : List Area) (size rgid : ℕ)
    → mm.mmap ≡ vma ∷ rest
    → rgid < 30
    → HasResult mm (liballoc mm size rgid)
liballoc_total mm vma rest size rgid e h =
    subst (λ (t : Mm). HasResult t (liballoc t size rgid)) (sym (as_area mm vma rest e))
      (liballoc_total_area mm vma rest size rgid h)

-- The rest of `__free` once the region has been put into the list, or has not.
abbrev freed : Option (Status × Mm) → Option (Status × Mm)
freed o = elim o [ none ↦ none | some (status, final) ↦ some (done, final) ]

freed_total :
    (mm : Mm) (vma : Area) (rest : List Area) (rg : Region) (table : ℕ → Region)
    → let cleared = record mm { mmap = vma ∷ rest; symrgtbl = table } in
      HasResult (with_area mm vma rest) (freed (enlist_vm_freerg_list cleared rg))
unfolding enlist_vm_freerg_list
freed_total mm vma rest rg table =
    let cleared = record mm { mmap = vma ∷ rest; symrgtbl = table } in
    elim (Bool-cases (leb rg.rg_end rg.rg_start)) [
      | inl empty ↦ (
        done,
        cleared,
        ap freed (if_eq_true _ _ empty),
        record { pgd = refl; pages = refl; area = (vma, rest, refl) },
      )
      | inr held ↦ (
        done,
        _,
        ap freed (if_eq_false _ _ held),
        record { pgd = refl; pages = refl; area = (_, rest, refl) },
      )
    ]

refused :
    (mm : Mm) (vma : Area) (rest : List Area) (o : Option (Status × Mm))
    → o ≡ some (failed, with_area mm vma rest)
    → HasResult (with_area mm vma rest) o
refused mm vma rest o e = (
  failed,
  with_area mm vma rest,
  e,
  record { pgd = refl; pages = refl; area = (vma, rest, refl) },
)

libfree_total_area :
    (mm : Mm) (vma : Area) (rest : List Area) (rgid : ℕ)
    → rgid ≢ 30
    → HasResult (with_area mm vma rest) (libfree (with_area mm vma rest) rgid)
unfolding libfree free
libfree_total_area mm vma rest rgid h =
    let rg = mm.symrgtbl rgid in
    let P = HasResult (with_area mm vma rest) in
    elim (Bool-cases (out_of_table rgid)) [
      | inl out ↦ refused mm vma rest _ (if_eq_true _ _ out)
      | inr within ↦
          let inside : leb 30 rgid ≡ false = ground arith in
          elim (Bool-cases (rg.rg_start == 0 && rg.rg_end == 0)) [
            | inl unused ↦
                refused mm vma rest _
                  (if_eq_false _ _ within ∙ if_eq_false _ _ inside ∙ if_eq_true _ _ unused)
            | inr used ↦
                subst P
                  (sym (if_eq_false _ _ within ∙ if_eq_false _ _ inside ∙ if_eq_false _ _ used))
                  (freed_total mm vma rest rg _)
          ]
    ]

-- `libfree` has a result for every register but 30 when the process has an area.
pub libfree_total :
    (mm : Mm) (vma : Area) (rest : List Area) (rgid : ℕ)
    → mm.mmap ≡ vma ∷ rest
    → rgid ≢ 30
    → HasResult mm (libfree mm rgid)
libfree_total mm vma rest rgid e h =
    subst (λ (t : Mm). HasResult t (libfree t rgid)) (sym (as_area mm vma rest e))
      (libfree_total_area mm vma rest rgid h)

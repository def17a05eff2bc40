-- ===== src/Region.antt =====
-- mm-vm.c, libmem.c: the regions of a process's virtual memory, which variables they hold, and the
-- pages in the order in which they were mapped. An operation gives `none` where C leaves the
-- behaviour undefined: an access through NULL or outside `symrgtbl`. An `int` is its 32-bit
-- pattern, and an `addr_t` a number below 2 ^ 64. `malloc` is taken to succeed, and the lock
-- `mmvm_lock`, which every operation takes and gives back, does not appear.
pub mod Free
pub mod Alloc
pub mod Victim
pub mod Total
pub mod Overlap
use os_assignment.Base.{
  ℕ, ◌+◌, ◌-◌, ◌%◌, ◌^◌, Bool, ◌&&◌, ◌||◌, Option, none, some, List, [], ◌∷◌, ltb, leb, ◌==◌,
  if◌then◌else◌, update,
}
use os_assignment.Memphy.{Status, done, failed}
use os_assignment.Table.{add64}
use os_assignment.Map.{Region}

-- `struct vm_area_struct` without the pointer back to its owner.
pub record Area : Type 0 where
  pub vm_id : ℕ
  pub vm_start : ℕ
  pub vm_end : ℕ
  pub sbrk : ℕ
  pub vm_freerg_list : List Region

-- `struct mm_struct` with the areas of `mmap` in order, and without the levels of the page table
-- below `pgd`, which are set to NULL only.
pub record Mm : Type 0 where
  pub pgd : ℕ
  pub mmap : List Area
  pub symrgtbl : ℕ → Region
  pub fifo_pgn : List ℕ

-- `PAGING_MAX_SYMTBL_SZ`
abbrev pub max_symtbl_sz : ℕ
max_symtbl_sz = 30

-- `(addr_t)(int)x`
abbrev pub int_of : ℕ → ℕ
int_of x = let s = x % 2 ^ 32 in if ltb s (2 ^ 31) then s else s + (2 ^ 64 - 2 ^ 32)

-- The loop of `get_vma_by_num`, on the areas from `pvma` on: the first whose id is not below
-- `vmaid`, with the areas before it and behind it. The test for NULL inside the loop comes before
-- the step, so a list that ends is read through NULL.
pub area_from : ℕ → List Area → Option (List Area × Area × List Area)
area_from vmaid [] = none
area_from vmaid (vma ∷ rest) =
    let later = area_from vmaid rest in
    if ltb vma.vm_id vmaid
    then elim later [ none ↦ none | some (front, cur, back) ↦ some (vma ∷ front, cur, back) ]
    else some ([], vma, rest)

-- `get_vma_by_num`: the inner `none` is NULL.
unfoldable pub get_vma_by_num : List Area → ℕ → Option (Option (List Area × Area × List Area))
get_vma_by_num [] vmaid = some none
get_vma_by_num (vma ∷ rest) vmaid = elim (area_from vmaid (vma ∷ rest)) [
  | none ↦ none
  | some at ↦ some (some at)
]

-- The area that a caller reads through the pointer without a test.
unfoldable pub get_vma : List Area → ℕ → Option (List Area × Area × List Area)
get_vma areas vmaid = elim (get_vma_by_num areas vmaid) [ none ↦ none | some at ↦ at ]

pub join : List Area → Area → List Area → List Area
join [] vma back = vma ∷ back
join (a ∷ front) vma back = a ∷ join front vma back

-- `enlist_vm_freerg_list` on the first area; a region that is not linked yet.
unfoldable pub enlist_vm_freerg_list : Mm → Region → Option (Status × Mm)
enlist_vm_freerg_list mm rg = elim mm.mmap [
  | [] ↦ none
  | vma ∷ rest ↦
      if leb rg.rg_end rg.rg_start
      then some (failed, mm)
      else some (
        done,
        record mm { mmap = record vma { vm_freerg_list = rg ∷ vma.vm_freerg_list } ∷ rest },
      )
]

-- `rgid < 0 || rgid > PAGING_MAX_SYMTBL_SZ`
abbrev pub out_of_table : ℕ → Bool
out_of_table rgid = leb (2 ^ 31) rgid || ltb max_symtbl_sz rgid

-- `get_symrg_byid`: the index of the region, where `none` is NULL.
unfoldable pub get_symrg_byid : ℕ → Option ℕ
get_symrg_byid rgid = if out_of_table rgid then none else some rgid

-- The loop of `get_free_vmrg_area`: the region taken, with both ends -1 if there is none, and the
-- list that it leaves. A region used up takes over the contents of the next one, which goes; the
-- last stays as an empty region.
unfoldable pub take_fit : ℕ → List Region → Region × List Region
take_fit size [] = (record { rg_start = 2 ^ 64 - 1; rg_end = 2 ^ 64 - 1 }, [])
take_fit size (rg ∷ rest) =
    let stop = add64 rg.rg_start size in
    let later = take_fit size rest in
    if leb stop rg.rg_end
    then (
      record { rg_start = rg.rg_start; rg_end = stop },
      if ltb stop rg.rg_end then record rg { rg_start = stop } ∷ rest else elim rest [
        | [] ↦ record { rg_start = rg.rg_end; rg_end = rg.rg_end } ∷ []
        | next ∷ more ↦ next ∷ more
      ],
    )
    else (later.0, rg ∷ later.1)

-- `get_free_vmrg_area` on the area found: the region, or `none` for -1, and the list. `size` is
-- passed as an `int`.
unfoldable pub get_free_vmrg_area : ℕ → List Region → Option Region × List Region
get_free_vmrg_area size [] = (none, [])
get_free_vmrg_area size (rg ∷ rest) =
    let found = take_fit (int_of size) (rg ∷ rest) in
    (if found.0.rg_start == 2 ^ 64 - 1 then none else some found.0, found.1)

-- `inc_vma_limit`, which the system call reaches: it returns 0 and changes nothing.
abbrev pub inc_vma_limit : Mm → ℕ → ℕ → Mm
inc_vma_limit mm vmaid inc_sz = mm

-- The rest of `__alloc` when `get_free_vmrg_area` has searched the area `vma`.
unfoldable pub alloc_region : Mm → ℕ → ℕ → Area → Option Region × List Region → Option (ℕ × Mm)
alloc_region mm rgid size vma (some rg, left) =
    if leb max_symtbl_sz rgid
    then none
    else some (rg.rg_start, record mm { symrgtbl = update mm.symrgtbl rgid rg })
alloc_region mm rgid size vma (none, left) =
    if leb max_symtbl_sz rgid
    then none
    else (let old_sbrk = int_of vma.sbrk in
        some (
          old_sbrk,
          record mm {
            symrgtbl =
                update mm.symrgtbl rgid
                  (record { rg_start = old_sbrk; rg_end = add64 old_sbrk size });
          },
        ))

-- `__alloc`, which never returns -1: the address of the region. `rgid` is not tested.
unfoldable pub alloc : Mm → ℕ → ℕ → ℕ → Option (ℕ × Mm)
alloc mm vmaid rgid size = elim (get_vma mm.mmap vmaid) [
  | none ↦ none
  | some (front, vma, back) ↦
      let found = get_free_vmrg_area size vma.vm_freerg_list in
      let searched = record mm {
        mmap = join front (record vma { vm_freerg_list = found.1 }) back;
      } in
      alloc_region (elim found.0 [ none ↦ inc_vma_limit searched vmaid size | some rg ↦ searched ])
        rgid size vma found
]

-- `__free`; the area that gets the region is the first, whatever `vmaid` is.
unfoldable pub free : Mm → ℕ → ℕ → Option (Status × Mm)
free mm vmaid rgid =
    if out_of_table rgid
    then some (failed, mm)
    else (if leb max_symtbl_sz rgid
        then none
        else (let rg = mm.symrgtbl rgid in
            if rg.rg_start == 0 && rg.rg_end == 0
            then some (failed, mm)
            else elim (enlist_vm_freerg_list
                (record mm {
                  symrgtbl = update mm.symrgtbl rgid (record { rg_start = 0; rg_end = 0 });
                })
                rg) [ none ↦ none | some (status, final) ↦ some (done, final) ]))

-- `liballoc`, `libfree` for the area 0; the address is dropped. Their `print_pgtbl` stands where
-- `run` calls them, in Instruction.
unfoldable pub liballoc : Mm → ℕ → ℕ → Option (Status × Mm)
liballoc mm size reg_index = elim (alloc mm 0 reg_index size) [
  | none ↦ none
  | some (addr, n) ↦ some (done, n)
]

unfoldable pub libfree : Mm → ℕ → Option (Status × Mm)
libfree mm reg_index = free mm 0 reg_index

-- The loop of `find_victim_page` from `pg` on, which is not the first: the last page and the
-- pages before it.
pub last_from : ℕ → List ℕ → ℕ × List ℕ
last_from pg [] = (pg, [])
last_from pg (next ∷ rest) = let t = last_from next rest in (t.0, pg ∷ t.1)

-- `find_victim_page`: the page, or `none` for -1, and the list. The only page of a list has no
-- `prev`, through which the code then writes.
unfoldable pub find_victim_page : List ℕ → Option (Option ℕ × List ℕ)
find_victim_page [] = some (none, [])
find_victim_page (pg ∷ []) = none
find_victim_page (pg ∷ next ∷ rest) = let t = last_from next rest in some (some t.0, pg ∷ t.1)

-- ===== src/Process.antt =====
-- mm64.c, libmem.c: the memory of a process as its instructions see it. The lock
-- `mmvm_lock` does not appear, and nothing is printed; the `print_pgtbl` of
-- `libread` and `libwrite` stands in Instruction. What C leaves undefined gives `none`; what
-- `malloc` or the stack leave in a place that is not initialised is an argument, `junk`.
pub mod Memory
pub mod Paging
pub mod Fresh
pub mod Dump
pub mod Swapped
use os_assignment.Base.{
  ℕ, zero, suc, ◌+◌, ◌*◌, ◌%◌, ◌^◌, Option, none, some, List, [], ◌∷◌, leb, if◌then◌else◌,
}
use os_assignment.Memphy
use os_assignment.Memphy.{Memphy, Status, done, failed, M, write, get_freefp}
use os_assignment.Pte.{getval, genmask, page_present, paging_fpn}
use os_assignment.Table.{R, pure, ◌>>=◌, ◌>>◌, add64, pagesz, pte_get_entry}
use os_assignment.Map.{Region, enlist_pgn_node}
use os_assignment.Region.{
  Mm, int_of, max_symtbl_sz, get_vma_by_num, get_symrg_byid, find_victim_page,
}

-- The loop of `init_mm` that clears the frame at `i` with `n` rounds left; the results of the
-- writes are dropped.
pub clear_from : ℕ → ℕ → ℕ → M (Unit {0})
clear_from pgd_base zero i = Memphy.pure tt
clear_from pgd_base (suc n) i =
    Memphy.◌>>=◌ (write (add64 pgd_base i) 0) λ status. clear_from pgd_base n (i + 1)

-- `init_mm`: the new `mm`, or -1 when the RAM has no free frame. The list of free regions of the
-- first area is not initialised before the empty first region goes in front of it.
unfoldable pub init_mm : List Region → R Mm
init_mm junk = do
  pgd_fpn ← get_freefp
  let pgd = pgd_fpn * pagesz % 2 ^ 64
  clear_from pgd pagesz 0
  pure (record {
    pgd = pgd;
    mmap =
        record {
          vm_id = 0;
          vm_start = 0;
          vm_end = 0;
          sbrk = 0;
          vm_freerg_list = record { rg_start = 0; rg_end = 0 } ∷ junk;
        }
        ∷ [];
    symrgtbl = λ i. record { rg_start = 0; rg_end = 0 };
    fifo_pgn = [];
  })

-- What `struct krnl_t` has of a process's memory.
pub record Krnl : Type 0 where
  pub mm : Mm
  pub mram : Memphy
  pub active_mswp : Memphy

-- The page table entry as `pg_getpage` reads it.
unfoldable pub entry_of : Krnl → ℕ → Option (ℕ × Krnl)
entry_of k pgn = elim (pte_get_entry k.mm.pgd (int_of pgn) k.mram) [
  | none ↦ none
  | some (pte, mram) ↦ some (pte, record k { mram = mram })
]

-- The part of `pg_getpage` for a page that is not present: `none` inside is the return value -1.
-- The victim leaves the list and a frame leaves the swap, but nothing is copied or mapped.
unfoldable pub bring_in : Krnl → ℕ → Option (Status × Krnl)
bring_in k pgn = elim (find_victim_page k.mm.fifo_pgn) [
  | none ↦ none
  | some (none, pages) ↦ some (failed, k)
  | some (some vicpgn, pages) ↦ elim (get_freefp k.active_mswp) [
    | none ↦ none
    | some (none, mswp) ↦
        some (failed, record k { mm = record (k.mm) { fifo_pgn = pages }; active_mswp = mswp })
    | some (some swpfpn, mswp) ↦ some (
      done,
      record k {
        mm = record (k.mm) { fifo_pgn = enlist_pgn_node pages (int_of pgn) };
        active_mswp = mswp;
      },
    )
  ]
]

-- `pg_getpage`: the frame number, or `none` for -1.
unfoldable pub pg_getpage : Krnl → ℕ → Option (Option ℕ × Krnl)
pg_getpage k pgn = elim (entry_of k pgn) [
  | none ↦ none
  | some (pte, here) ↦ elim (if page_present pte then some (done, here) else bring_in here pgn) [
    | none ↦ none
    | some (failed, after) ↦ some (none, after)
    | some (done, after) ↦ elim (entry_of after pgn) [
      | none ↦ none
      | some (pte', final) ↦ some (some (paging_fpn pte'), final)
    ]
  ]
]

-- `PAGING_PGN(addr)`
abbrev pub paging_pgn : ℕ → ℕ
paging_pgn addr = getval addr (genmask 21 8) 8

-- `pg_getval` and `pg_setval` stop once they have the page: neither touches the data.
unfoldable pub pg_access : Krnl → ℕ → Option (Status × Krnl)
pg_access k addr = elim (pg_getpage k (paging_pgn addr)) [
  | none ↦ none
  | some (none, after) ↦ some (failed, after)
  | some (some fpn, after) ↦ some (done, after)
]

-- The call of `pg_getval` or `pg_setval` for a region, whose result is dropped. The address is
-- passed as an `int`.
unfoldable pub access_region : Krnl → ℕ → ℕ → Option (Status × Krnl)
access_region k rgid offset =
    if leb max_symtbl_sz rgid
    then none
    else elim (pg_access k (add64 (k.mm.symrgtbl rgid).rg_start offset % 2 ^ 32)) [
      | none ↦ none
      | some (status, after) ↦ some (done, after)
    ]

-- `__read`, which does not test the region for NULL.
unfoldable pub read : Krnl → ℕ → ℕ → Option (Status × Krnl)
read k rgid offset = elim (get_symrg_byid rgid) [ none ↦ none | some i ↦ access_region k i offset ]

-- `__write`
unfoldable pub write_region : Krnl → ℕ → ℕ → ℕ → Option (Status × Krnl)
write_region k vmaid rgid offset = elim (get_vma_by_num k.mm.mmap vmaid) [
  | none ↦ none
  | some vma ↦ elim (get_symrg_byid rgid) [
    | none ↦ some (failed, k)
    | some i ↦ elim vma [ none ↦ some (failed, k) | some at ↦ access_region k i offset ]
  ]
]

-- `libread`: the status and the value that goes to `*destination`, which is never assigned before.
unfoldable pub libread : ℕ → Krnl → ℕ → ℕ → Option (Status × ℕ × Krnl)
libread junk k source offset = elim (read k source offset) [
  | none ↦ none
  | some (status, after) ↦ some (status, junk, after)
]

-- `libwrite`
unfoldable pub libwrite : Krnl → ℕ → ℕ → ℕ → Option (Status × Krnl)
libwrite k data_byte destination offset = write_region k 0 destination offset

-- ===== src/Process/Fresh.antt =====
-- The memory of a process that no page has been mapped for: what its instructions do.
use os_assignment.Base.{
  ℕ, ◌+◌, ◌*◌, ◌%◌, ◌^◌, ◌<◌, ◌≤◌, ◌≡◌, refl, ap, ◌∙◌, false, none, some, List, [], ◌∷◌, arith, leb,
  ltb, ◌&&◌, if◌then◌else◌, if_eq_false,
}
use os_assignment.Memphy.{Memphy, done, failed}
use os_assignment.Memphy.Laws.{bind_eq}
use os_assignment.Pte.{page_present}
use os_assignment.Address.{Indices, get_pd_from_pagenum}
use os_assignment.Table.{add64, pagesz, descend, walk, get_pte_address, pte_get_entry}
use os_assignment.Table.Entry.{IsRam}
use os_assignment.Map.{Region}
use os_assignment.Region.{
  Area, Mm, int_of, out_of_table, get_vma_by_num, get_symrg_byid, find_victim_page,
}
use os_assignment.Region.Alloc.{get_vma_by_num_first}
use os_assignment.Process.{
  Krnl, init_mm, bring_in, paging_pgn, pg_access, access_region, read, write_region, libread,
  libwrite,
}
use os_assignment.Process.Memory.{absent_walk, new_mm, init_mm-Cleared}
use os_assignment.Process.Paging.{pg_getpage_failed}
use os_assignment.Address.Laws.{digits_of_pagenum}

-- The RAM is random-access and smaller than 2 ^ 31, and holds the highest page table, which is all
-- 0; no page is listed, and there is an area.
pub record IsFresh (mm : Mm) (m : Memphy) : Type 0 where
  pub ram : IsRam m
  pub room : mm.pgd + pagesz ≤ m.maxsz
  pub cleared : (a : ℕ) → a < pagesz → m.storage (mm.pgd + a) ≡ 0
  pub pages : mm.fifo_pgn ≡ []
  pub area : (vma : Area) × (rest : List Area) × (mm.mmap ≡ vma ∷ rest)

absent_entry :
    (m : Memphy) (pgd pgn : ℕ)
    → IsRam m
    → pgd + pagesz ≤ m.maxsz
    → ((a : ℕ) → a < pagesz → m.storage (pgd + a) ≡ 0)
    → pte_get_entry pgd pgn m ≡ some (0, m)
unfolding pte_get_entry get_pte_address walk
absent_entry m pgd pgn r h cleared =
    let x = get_pd_from_pagenum pgn in
    let small : x.pgd < 512 = omega (arith, ap (λ (y : Indices). y.pgd) (digits_of_pagenum pgn)) in
    bind_eq (get_pte_address pgd pgn) _ m m none (
      bind_eq (walk pgd x) _ m m none
        (bind_eq (descend pgd x.pgd) _ m m none (absent_walk m pgd x.pgd r h small cleared)))

-- The RAM with the 4096 bytes of frame `f` cleared.
abbrev pub with_frame_cleared : ℕ → Memphy → Memphy
with_frame_cleared f m = record m {
  storage = λ a. if leb (f * pagesz) a && ltb a (f * pagesz + pagesz) then 0 else m.storage a;
}

-- When the first free frame `f` lies in the RAM, `init_mm` makes such a memory with that frame
-- for the page table.
pub init_mm-IsFresh :
    (junk : List Region) (m : Memphy) (f : ℕ) (rest : List ℕ)
    → IsRam m
    → m.free_fp_list ≡ f ∷ rest
    → f * pagesz + pagesz ≤ m.maxsz
    → (mm : Mm) × (n : Memphy) × (init_mm junk m ≡ some (some mm, n))
      × IsFresh mm n
      × ((a : ℕ) → n.storage a ≡ (with_frame_cleared f m).storage a)
      × (n.maxsz ≡ m.maxsz)
init_mm-IsFresh junk m f rest r free h =
    let (n, ran, c) = init_mm-Cleared junk m f rest r free h in
    let pgd : f * pagesz % 2 ^ 64 ≡ f * pagesz = omega (arith, r.size) in
    (
      new_mm junk f,
      n,
      ran,
      record {
        ram = c.ram;
        room = omega (arith, c.size);
        cleared = λ a small. c.bytes (f * pagesz % 2 ^ 64 + a) ∙ ground arith;
        pages = refl;
        area = (_, [], refl);
      },
      λ a. c.bytes a ∙ ground arith,
      c.size,
    )

zero_absent : page_present 0 ≡ false
unfolding page_present
zero_absent = refl

bring_in_fresh : (k : Krnl) (pgn : ℕ) → k.mm.fifo_pgn ≡ [] → bring_in k pgn ≡ some (failed, k)
unfolding bring_in find_victim_page
bring_in_fresh k pgn e = simp (e, bring_in, find_victim_page)

pg_access_fresh : (k : Krnl) (addr : ℕ) → IsFresh k.mm k.mram → pg_access k addr ≡ some (failed, k)
unfolding pg_access
pg_access_fresh k addr f =
    let pgn = paging_pgn addr in
    let none_there =
      pg_getpage_failed k k pgn 0 (absent_entry k.mram k.mm.pgd (int_of pgn) f.ram f.room f.cleared)
        zero_absent (bring_in_fresh k pgn f.pages) in
    rw (none_there, pg_access) refl

access_region_fresh :
    (k : Krnl) (rgid offset : ℕ)
    → IsFresh k.mm k.mram
    → rgid < 30
    → access_region k rgid offset ≡ some (done, k)
unfolding access_region
access_region_fresh k rgid offset f h =
    let inside_table : leb 30 rgid ≡ false = ground arith in
    if_eq_false _ _ inside_table
    ∙ (rw (pg_access_fresh k (add64 (k.mm.symrgtbl rgid).rg_start offset % 2 ^ 32) f) refl)

in_table : (rgid : ℕ) → rgid < 30 → get_symrg_byid rgid ≡ some rgid
unfolding get_symrg_byid
in_table rgid h = let inside : out_of_table rgid ≡ false = ground arith in if_eq_false _ _ inside

-- A process whose memory is as `IsFresh` says reads and writes any of its 30 variables with
-- success, and nothing at all changes: no byte of the RAM, and none of the lists.
pub libread_fresh :
    (junk : ℕ) (k : Krnl) (source offset : ℕ)
    → IsFresh k.mm k.mram
    → source < 30
    → libread junk k source offset ≡ some (done, junk, k)
unfolding libread read
libread_fresh junk k source offset f h =
    rw (libread, read, in_table source h, access_region_fresh k source offset f h) refl

pub libwrite_fresh :
    (k : Krnl) (data_byte destination offset : ℕ)
    → IsFresh k.mm k.mram
    → destination < 30
    → libwrite k data_byte destination offset ≡ some (done, k)
unfolding libwrite write_region
libwrite_fresh k data_byte destination offset f h =
    let (vma, rest, e) = f.area in
    let there : get_vma_by_num k.mm.mmap 0 ≡ some (some ([], vma, rest)) =
      ap (λ (l : List Area). get_vma_by_num l 0) e ∙ get_vma_by_num_first vma rest in
    rw (write_region, there, in_table destination h, access_region_fresh k destination offset f h)
      refl

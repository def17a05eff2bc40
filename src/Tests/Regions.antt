-- ===== src/Tests/Regions.antt =====
-- libmem.c and the entries and addresses of mm64.c at concrete arguments.
use os_assignment.Base.{
  ℕ, ◌/◌, ◌%◌, ◌^◌, ◌<◌, ◌≡◌, ◌⊎◌, refl, true, none, some, List, [], ◌∷◌, arith, All,
}
use os_assignment.Memphy.{done}
use os_assignment.Pte.{init_pte, page_present, paging_fpn}
use os_assignment.Pte.Laws.{bit_at, init_pte_online}
use os_assignment.Address.{get_pd_from_address}
use os_assignment.Address.Laws.{AreIndices, join_address, join-get_pd_from_address}
use os_assignment.Map.{Region, enlist_pgn_node}
use os_assignment.Region.{
  Area, Mm, take_fit, get_free_vmrg_area, liballoc, libfree, find_victim_page,
}
use os_assignment.Region.Free.{IsRegion, IsFull, Taken, uses, get_free_vmrg_area-cases}
use os_assignment.Region.Alloc.{
  with_area, set_free, set_region, at_sbrk, cleared, liballoc-cases, libfree-liballoc,
}
use os_assignment.Region.Victim.{enlist_all, find_victim_page-enlist_all}

-- Two free regions, of 100 and of 300 bytes.
abbrev gaps : List Region
gaps = record { rg_start = 0; rg_end = 100 } ∷ record { rg_start = 500; rg_end = 800 } ∷ []

gaps-IsRegion : All IsRegion gaps
gaps-IsRegion = ((omega arith, omega arith), ((omega arith, omega arith), tt))

abbrev area : Area
area = record { vm_id = 0; vm_start = 0; vm_end = 800; sbrk = 800; vm_freerg_list = gaps }

abbrev mm : Mm
mm = record {
  pgd = 0;
  mmap = area ∷ [];
  symrgtbl = λ i. record { rg_start = 0; rg_end = 0 };
  fifo_pgn = [];
}

run_search : get_free_vmrg_area 200 gaps ≡ (
  some (record { rg_start = 500; rg_end = 700 }),
  record { rg_start = 0; rg_end = 100 } ∷ record { rg_start = 700; rg_end = 800 } ∷ [],
)
unfolding get_free_vmrg_area take_fit
run_search = refl

get_free_vmrg_area-cases_example :
    ((rg : Region) × (left : List Region) × (get_free_vmrg_area 200 gaps ≡ (some rg, left))
      × Taken 200 gaps rg left)
    ⊎ ((get_free_vmrg_area 200 gaps ≡ (none, gaps)) × IsFull 200 gaps)
get_free_vmrg_area-cases_example = get_free_vmrg_area-cases 200 gaps (omega arith) gaps-IsRegion

liballoc-cases_example :
    ((rg : Region) × (left : List Region) × (liballoc (with_area mm area []) 200 4
        ≡ some (done, set_region 4 rg (with_area mm (set_free area left) [])))
      × Taken 200 area.vm_freerg_list rg left)
    ⊎ (IsFull 200 area.vm_freerg_list
        × (liballoc (with_area mm area []) 200 4
            ≡ some (done, set_region 4 (at_sbrk area 200) (with_area mm area []))))
liballoc-cases_example = liballoc-cases mm area [] 4 200 gaps-IsRegion (omega arith) (omega arith)

libfree-liballoc_example :
    ((n : Mm) × (rgs : List Region) × (liballoc (with_area mm area []) 200 4 ≡ some (done, n))
      × (libfree n 4 ≡ some (done, set_region 4 cleared (with_area n (set_free area rgs) [])))
      × ((a : ℕ) → uses a rgs ≡ uses a area.vm_freerg_list))
    ⊎ IsFull 200 area.vm_freerg_list
libfree-liballoc_example =
    libfree-liballoc mm area [] 4 200 gaps-IsRegion (omega arith) (omega arith) (omega arith)

find_victim_page-enlist_all_example :
    find_victim_page (enlist_all (enlist_pgn_node [] 3) (4 ∷ 5 ∷ []))
    ≡ some (some 3, enlist_all [] (4 ∷ 5 ∷ []))
find_victim_page-enlist_all_example = find_victim_page-enlist_all 3 4 (5 ∷ [])

init_pte_online_example :
    let (s, e) = init_pte 0 1 5 0 0 0 0 in
    (s ≡ done)
    × (page_present e ≡ true)
    × (bit_at 30 e ≡ 0)
    × (bit_at 28 e ≡ 0)
    × (paging_fpn e ≡ 5 % 2 ^ 13)
    × (bit_at 29 e ≡ bit_at 29 0)
    × (e / 2 ^ 13 % 2 ^ 15 ≡ 0 / 2 ^ 13 % 2 ^ 15)
    × (e < 2 ^ 32)
init_pte_online_example = init_pte_online 0 1 5 0 0 0 (omega arith) (omega arith)

join-get_pd_from_address_example :
    AreIndices (get_pd_from_address 0x123456789abc)
    × (join_address (get_pd_from_address 0x123456789abc) (0x123456789abc % 2 ^ 12)
        ≡ 0x123456789abc % 2 ^ 57)
join-get_pd_from_address_example = join-get_pd_from_address 0x123456789abc

-- ===== src/Tests/Tables.antt =====
-- mm64.c and libmem.c on a RAM of eight pages: page 0 holds the first table, the pages 1 to 4 the
-- others on the way to page number 0, and the frames 5 and 6 are free.
use os_assignment.Base.{
  ℕ, ◌+◌, ◌*◌, ◌/◌, ◌%◌, ◌^◌, ◌<◌, ◌≤◌, ◌≡◌, ◌⊎◌, inr, refl, true, false, none, some, [], ◌∷◌,
  arith, ltb, ◌==◌, if◌then◌else◌,
}
use os_assignment.Memphy.{Memphy}
use os_assignment.Pte.{page_present}
use os_assignment.Address.{get_pd_from_address, get_pd_from_pagenum, pt_shift}
use os_assignment.Table.{
  pte_set_swap, add64, pagesz, sign_extend, table_base, write_entry, get_32bit_entry, descend,
  ensure_table, pte_set_fpn, get_pte_address, translate_address, pure, ◌>>=◌,
}
use os_assignment.Table.Entry.{IsRam, entry_at, Apart}
use os_assignment.Table.ReadBack.{get_32bit_entry-write_entry}
use os_assignment.Table.Level.{Ensured, ensure_table-Ensured}
use os_assignment.Table.Walk.{entry_target, translate_address_lem}
use os_assignment.Table.Mapping.{Walked, IsOff}
use os_assignment.Table.Translate.{pte_set_fpn-translate_address}
use os_assignment.Region.{Mm}
use os_assignment.Process.{Krnl, init_mm, pg_getpage}
use os_assignment.Process.Memory.{init_mm-translate_address}
use os_assignment.Process.Swapped.{pg_getpage-pte_set_swap}
use os_assignment.Process.Paging.{pg_getpage-pte_set_fpn}

-- The entry at 0 of each of the pages 0 to 3 names the next page.
abbrev tables : ℕ → ℕ
tables i =
    if ltb i 12289
    then if i % 4096 == 0 then i / 4096 + 1 else if i % 4096 == 3 then 128 else 0
    else if i == 12291
    then 128
    else 0

abbrev ram : Memphy
ram = record {
  storage = tables;
  maxsz = 32768;
  rdmflg = true;
  cursor = 0;
  free_fp_list = 5 ∷ 6 ∷ [];
}

ram-IsRam : IsRam ram
ram-IsRam = record { random = refl; size = omega arith }

walked : Walked ram 0 (get_pd_from_pagenum 0) 16384
unfolding get_pd_from_pagenum get_pd_from_address sign_extend page_present table_base
walked = record {
  p4d = 4096;
  pud = 8192;
  pmd = 12288;
  at_pgd = record { inside = omega arith; present = refl; target = refl };
  at_p4d = record { inside = omega arith; present = refl; target = refl };
  at_pud = record { inside = omega arith; present = refl; target = refl };
  at_pmd = record { inside = omega arith; present = refl; target = refl };
}

abbrev page_entry : ℕ
page_entry = add64 16384 ((get_pd_from_pagenum 0).pt * 4)

page_entry-lt : page_entry + 3 < ram.maxsz
unfolding get_pd_from_pagenum get_pd_from_address
page_entry-lt = omega arith

walked-IsOff : IsOff walked page_entry
unfolding walked get_pd_from_pagenum get_pd_from_address
walked-IsOff = record {
  off_pgd = inr (omega arith);
  off_p4d = inr (omega arith);
  off_pud = inr (omega arith);
  off_pmd = inr (omega arith);
}

pte_set_fpn-translate_address_example :
    (n : Memphy) × (pte_set_fpn 0 0 5 ram ≡ some (some tt, n))
    × ((vaddr : ℕ)
        → vaddr / 2 ^ pt_shift ≡ 0
        → translate_address 0 vaddr n
          ≡ some (some (add64 (5 % 2 ^ 13 * pagesz) (vaddr % pagesz)), n))
    × ((other : ℕ) → Apart page_entry other → entry_at n other ≡ entry_at ram other)
pte_set_fpn-translate_address_example =
    pte_set_fpn-translate_address ram 0 0 5 16384 ram-IsRam walked page_entry-lt walked-IsOff
      (omega arith)

ensure_table-Ensured_example :
    (b : ℕ) × (n : Memphy) × (ensure_table 0 7 ram ≡ some (some b, n))
    × Ensured ram (add64 0 (7 * 4)) b n
    × (descend 0 7 n ≡ some (some b, n))
    × (let e = entry_at ram (add64 0 (7 * 4)) in
        ((page_present e ≡ true) × (b ≡ table_base e) × (n ≡ ram))
        ⊎ ((page_present e ≡ false) × (b ≡ 5 % 2 ^ 13 * pagesz) × (n.free_fp_list ≡ 6 ∷ [])))
ensure_table-Ensured_example =
    ensure_table-Ensured ram 0 7 5 (6 ∷ []) ram-IsRam (omega arith) refl (omega arith)

translate_address_lem_example : translate_address 0 77 ≡ (
    get_pte_address 0 (77 / 2 ^ pt_shift) >>= λ addr.
    entry_target addr >>= λ page. pure (add64 page (77 % pagesz)))
translate_address_lem_example = translate_address_lem 0 77

get_32bit_entry-write_entry_example :
    (n : Memphy) × (e : ℕ) × (write_entry 20480 0x80000005 ram ≡ some (tt, n))
    × (get_32bit_entry 20480 n ≡ some (e, n))
    × (e % 2 ^ 13 ≡ (
        if ltb (0x80000005 % 2 ^ 8) 128 then 0x80000005 % 2 ^ 13 else 0x1f00 + 0x80000005 % 2 ^ 8))
    × (0x80000005 / 2 ^ 31 % 2 ≡ 1 → page_present e ≡ true)
get_32bit_entry-write_entry_example =
    get_32bit_entry-write_entry ram 20480 0x80000005 ram-IsRam (omega arith)

-- A RAM in which every byte is 77.
abbrev used_ram : Memphy
used_ram = record ram { storage = λ i. 77 }

used_ram-IsRam : IsRam used_ram
used_ram-IsRam = record { random = refl; size = omega arith }

init_mm-translate_address_example :
    (mm : Mm) × (n : Memphy) × (init_mm [] used_ram ≡ some (some mm, n))
    × (n.free_fp_list ≡ 6 ∷ [])
    × ((a : ℕ) → a < pagesz → n.storage (5 * pagesz + a) ≡ 0)
    × ((a : ℕ) → (a < 5 * pagesz) ⊎ (5 * pagesz + pagesz ≤ a) → n.storage a ≡ 77)
    × ((vaddr : ℕ) → translate_address mm.pgd vaddr n ≡ some (none, n))
init_mm-translate_address_example =
    init_mm-translate_address [] used_ram 5 (6 ∷ []) used_ram-IsRam refl (omega arith)

abbrev process : Krnl
process = record {
  mm = record {
    pgd = 0;
    mmap = [];
    symrgtbl = λ i. record { rg_start = 0; rg_end = 0 };
    fifo_pgn = 3 ∷ 4 ∷ [];
  };
  mram = ram;
  active_mswp = ram;
}

pg_getpage-pte_set_fpn_example :
    (n : Memphy) × (pte_set_fpn 0 0 5 ram ≡ some (some tt, n))
    × (pg_getpage (record process { mram = n }) 0
        ≡ some (some (5 % 2 ^ 13), record process { mram = n }))
pg_getpage-pte_set_fpn_example =
    pg_getpage-pte_set_fpn process 0 5 16384 ram-IsRam (omega arith) walked page_entry-lt
      walked-IsOff (omega arith)

pg_getpage-pte_set_swap_example :
    (n : Memphy) × (pte_set_swap 0 0 2 9 ram ≡ some (some tt, n))
    × (pg_getpage (record process { mram = n }) 0
        ≡ some (some (9 % 2 ^ 8 * 2 ^ 5 + 2 % 2 ^ 5), record process { mram = n }))
pg_getpage-pte_set_swap_example =
    pg_getpage-pte_set_swap process 0 2 9 16384 ram-IsRam (omega arith) (omega arith) walked
      page_entry-lt walked-IsOff

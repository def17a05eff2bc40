-- ===== src/Tests/Devices.antt =====
-- mm-memphy.c and the frames of mm64.c at concrete devices.
use os_assignment.Base.{
  ℕ, ◌+◌, ◌-◌, ◌*◌, ◌/◌, ◌%◌, ◌≤◌, ◌≡◌, refl, true, false, ◌&&◌, some, [], ◌∷◌, arith, ltb, leb,
  if◌then◌else◌, All, length,
}
use os_assignment.Memphy
use os_assignment.Memphy.{Memphy, done, failed, read, write, mv_csr, init_memphy}
use os_assignment.Memphy.Frames.{Distinct, init_memphy_lem}
use os_assignment.Table.Entry.{IsRam}
use os_assignment.Map.{Region, vm_map_ram, swap_cp_page}
use os_assignment.Map.Frames.{onto, vm_map_ram_short}
use os_assignment.Map.Swap.{swap_cp_page-Copied}

-- A device of 1024 bytes with two free frames, random-access and not.
abbrev ram : Memphy
ram = record {
  storage = λ i. i % 256;
  maxsz = 1024;
  rdmflg = true;
  cursor = 0;
  free_fp_list = 2 ∷ 3 ∷ [];
}

abbrev tape : Memphy
tape = record ram { rdmflg = false }

ram-IsRam : IsRam ram
ram-IsRam = record { random = refl; size = omega arith }

run_write : read 5 ram ≡ some (some 5, ram)
unfolding read Memphy.load
run_write = refl

init_memphy_lem_example :
    (n : Memphy) × (init_memphy [] 1024 1 tape ≡ some (done, n))
    × ((i : ℕ) → n.storage i ≡ 0)
    × (n.maxsz ≡ 1024)
    × (length n.free_fp_list ≡ 1024 / Memphy.pagesz)
    × Distinct n.free_fp_list
    × All (λ f. f * Memphy.pagesz + Memphy.pagesz ≤ n.maxsz) n.free_fp_list
init_memphy_lem_example = init_memphy_lem [] 1024 1 tape (omega arith) (omega arith)

abbrev no_region : Region
no_region = record { rg_start = 0; rg_end = 0 }

vm_map_ram_short_example :
    vm_map_ram 0 4096 3 no_region [] ram
    ≡ some ((failed, no_region, []), record ram { free_fp_list = onto ram.free_fp_list [] })
vm_map_ram_short_example = vm_map_ram_short ram 0 4096 3 no_region [] (omega arith)

swap_cp_page-Copied_example :
    (final : Memphy) × (swap_cp_page 0 1 3 ram ram ≡ some (ram, final))
    × ((a : ℕ)
        → final.storage a ≡ (
            if leb (3 * 256) a && ltb a (3 * 256 + 256)
            then ram.storage (1 * 256 + (a - 3 * 256))
            else ram.storage a))
swap_cp_page-Copied_example =
    swap_cp_page-Copied 0 1 3 ram ram ram-IsRam ram-IsRam (omega arith) (omega arith)

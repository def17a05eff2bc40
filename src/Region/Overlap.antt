-- ===== src/Region/Overlap.antt =====
-- mm-vm.c: a new region at the end of an area, and the test whether areas overlap, which mm.h leaves
-- undone.
use os_assignment.Base.{
  ℕ, ◌+◌, ◌<◌, ◌≡◌, refl, ◌∙◌, Bool, true, false, not, ◌&&◌, Option, none, some, List, [], ◌∷◌, leb,
  ◌==◌, if◌then◌else◌, length, arith, if_eq_false,
}
use os_assignment.Memphy.{Status, done, failed}
use os_assignment.Table.{add64}
use os_assignment.Map.{Region}
use os_assignment.Region.{Area, get_vma, get_vma_by_num}

-- `get_vm_area_node_at_brk`
unfoldable pub get_vm_area_node_at_brk : List Area → ℕ → ℕ → ℕ → Option Region
get_vm_area_node_at_brk areas vmaid size alignedsz = elim (get_vma areas vmaid) [
  | none ↦ none
  | some (front, vma, back) ↦ some (record { rg_start = vma.sbrk; rg_end = add64 vma.sbrk size })
]

-- `OVERLAP`
abbrev pub overlap : ℕ → ℕ → ℕ → ℕ → Bool
overlap x1 x2 y1 y2 = false

-- The loop of `validate_overlap_vm_area` from the area at place `i` on, where `cur_area` is at
-- the place `at`: whether it returns -1.
pub overlap_from : Area → ℕ → ℕ → List Area → Bool
overlap_from cur_area at i [] = false
overlap_from cur_area at i (vma ∷ rest) =
    let later = overlap_from cur_area at (i + 1) rest in
    if not (i == at) && overlap cur_area.vm_start cur_area.vm_end vma.vm_start vma.vm_end
    then true
    else later

-- `validate_overlap_vm_area`
unfoldable pub validate_overlap_vm_area : List Area → ℕ → ℕ → ℕ → Option Status
validate_overlap_vm_area areas vmaid vmastart vmaend =
    if leb vmaend vmastart then some failed else elim (get_vma_by_num areas vmaid) [
      | none ↦ none
      | some none ↦ some failed
      | some (some (front, cur_area, back)) ↦
          some (if overlap_from cur_area (length front) 0 areas then failed else done)
    ]

never_overlap :
    (cur_area : Area) (at i : ℕ) (areas : List Area) → overlap_from cur_area at i areas ≡ false
unfolding overlap_from
never_overlap cur_area at i [] = refl
never_overlap cur_area at i (vma ∷ rest) =
    let no_test : (not (i == at) && false) ≡ false = ground arith in
    if_eq_false _ _ no_test ∙ never_overlap cur_area at (i + 1) rest

-- `validate_overlap_vm_area` accepts every range that is not empty, whatever the areas are, as
-- long as the area asked for is found.
pub validate_overlap_vm_area_accepts :
    (areas front back : List Area) (cur_area : Area) (vmaid vmastart vmaend : ℕ)
    → vmastart < vmaend
    → get_vma_by_num areas vmaid ≡ some (some (front, cur_area, back))
    → validate_overlap_vm_area areas vmaid vmastart vmaend ≡ some done
unfolding validate_overlap_vm_area
validate_overlap_vm_area_accepts areas front back cur_area vmaid vmastart vmaend h e =
    let ordered : leb vmaend vmastart ≡ false = ground arith in
    rw (validate_overlap_vm_area, ordered, e, never_overlap cur_area (length front) 0 areas) refl

-- ===== src/Flat.antt =====
-- mm.c: the page table of one level that is compiled without MM64, where an entry has 32 bits. The
-- other functions of the file only print that they are deprecated, and return 0: none makes the
-- table, so it is an argument here.
pub mod Entries
use os_assignment.Base.{ℕ, ◌*◌, ◌%◌, ◌^◌, bit_and, bit_or, ◌==◌, if◌then◌else◌, update}
use os_assignment.Memphy.{Status, done, failed}
use os_assignment.Pte.{
  not32, setbit, clrbit, present_mask, swapped_mask, dirty_mask, fpn_mask, swptyp_mask, swpoff_mask,
}

-- `value << offst` on 32 bits, and `SETVAL` with it.
abbrev pub shl32 : ℕ → ℕ → ℕ
shl32 value offst = value * 2 ^ offst % 2 ^ 32

pub setval32 : ℕ → ℕ → ℕ → ℕ → ℕ
setval32 v value mask offst = bit_or (bit_and v (not32 mask)) (bit_and (shl32 value offst) mask)

-- `init_pte`: the result and the entry behind it.
pub init_pte32 : ℕ → ℕ → ℕ → ℕ → ℕ → ℕ → ℕ → Status × ℕ
unfolding setval32
init_pte32 pte pre fpn drt swp swptyp swpoff =
    if pre == 0
    then (done, pte)
    else if swp == 0
    then if fpn == 0 then (failed, pte) else (
      done,
      setval32 (clrbit (clrbit (setbit pte present_mask) swapped_mask) dirty_mask) fpn fpn_mask 0,
    )
    else let v = clrbit (setbit (setbit pte present_mask) swapped_mask) dirty_mask in
      (done, setval32 (setval32 v swptyp swptyp_mask 0) swpoff swpoff_mask 5)

-- `pte_set_swap`, `pte_set_fpn` and `pte_set_entry`, as functions of `mm->pgd`.
pub set_swap32 : (ℕ → ℕ) → ℕ → ℕ → ℕ → ℕ → ℕ
unfolding setval32
set_swap32 pgd pgn swptyp swpoff =
    let pte = setbit (setbit (pgd pgn) present_mask) swapped_mask in
    update pgd pgn (setval32 (setval32 pte swptyp swptyp_mask 0) swpoff swpoff_mask 5)

pub set_fpn32 : (ℕ → ℕ) → ℕ → ℕ → ℕ → ℕ
unfolding setval32
set_fpn32 pgd pgn fpn =
    let pte = clrbit (setbit (pgd pgn) present_mask) swapped_mask in
    update pgd pgn (setval32 pte fpn fpn_mask 0)

pub set_entry32 : (ℕ → ℕ) → ℕ → ℕ → ℕ → ℕ
set_entry32 pgd pgn pte_val = update pgd pgn (pte_val % 2 ^ 32)

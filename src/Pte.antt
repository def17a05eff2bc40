-- ===== src/Pte.antt =====
-- The page table entry: the bit macros of mm.h and bitops.h, and `init_pte` of mm64.c.
-- A mask is an `unsigned int`, so `~mask` has 32 bits and clears the upper half of an entry of
-- type `addr_t`. `BITS_PER_LONG` is 32, as CONFIG64 is not defined.
pub mod Fields
pub mod Laws
use os_assignment.Base.{ℕ, ◌-◌, ◌*◌, ◌/◌, ◌%◌, ◌^◌, bit_and, bit_or, Bool, not, ◌==◌, if◌then◌else◌}
use os_assignment.Memphy.{Status, done, failed}

-- `BIT(nr)`
abbrev pub bit : ℕ → ℕ
bit nr = 2 ^ nr

-- `GENMASK(h, l)`
abbrev pub genmask : ℕ → ℕ → ℕ
genmask h l = bit_and ((2 ^ 32 - 1) * 2 ^ l % 2 ^ 32) ((2 ^ 32 - 1) / 2 ^ (32 - h - 1))

-- `~mask`
abbrev pub not32 : ℕ → ℕ
not32 mask = 2 ^ 32 - 1 - mask

-- `value << offst` on 64 bits
abbrev pub shl : ℕ → ℕ → ℕ
shl value offst = value * 2 ^ offst % 2 ^ 64

-- `SETBIT`, `CLRBIT`, `SETVAL` and `GETVAL`, as functions of the old value.
unfoldable pub setbit : ℕ → ℕ → ℕ
setbit v mask = bit_or v mask

unfoldable pub clrbit : ℕ → ℕ → ℕ
clrbit v mask = bit_and v (not32 mask)

unfoldable pub setval : ℕ → ℕ → ℕ → ℕ → ℕ
setval v value mask offst = bit_or (bit_and v (not32 mask)) (bit_and (shl value offst) mask)

unfoldable pub getval : ℕ → ℕ → ℕ → ℕ
getval v mask offst = bit_and v mask / 2 ^ offst

abbrev pub present_mask : ℕ
present_mask = bit 31

abbrev pub swapped_mask : ℕ
swapped_mask = bit 30

abbrev pub dirty_mask : ℕ
dirty_mask = bit 28

abbrev pub fpn_mask : ℕ
fpn_mask = genmask 12 0

abbrev pub swptyp_mask : ℕ
swptyp_mask = genmask 4 0

abbrev pub swpoff_mask : ℕ
swpoff_mask = genmask 25 5

-- `PAGING_PAGE_PRESENT(pte)` as a condition
unfoldable pub page_present : ℕ → Bool
page_present pte = not (bit_and pte present_mask == 0)

-- `PAGING_FPN(pte)`
unfoldable pub paging_fpn : ℕ → ℕ
paging_fpn pte = getval pte fpn_mask 0

-- `PAGING_SWP(pte)`
unfoldable pub paging_swp : ℕ → ℕ
paging_swp pte = bit_and pte swpoff_mask / 2 ^ 5

-- `init_pte`: the result and the entry behind it. A negative `int` is given as its bit pattern.
unfoldable pub init_pte : ℕ → ℕ → ℕ → ℕ → ℕ → ℕ → ℕ → Status × ℕ
init_pte pte pre fpn drt swp swptyp swpoff =
    if pre == 0
    then (done, pte)
    else if swp == 0
    then if fpn == 0 then (failed, pte) else (
      done,
      setval (clrbit (clrbit (setbit pte present_mask) swapped_mask) dirty_mask) fpn fpn_mask 0,
    )
    else let v = clrbit (setbit (setbit pte present_mask) swapped_mask) dirty_mask in
      (done, setval (setval v swptyp swptyp_mask 0) swpoff swpoff_mask 5)

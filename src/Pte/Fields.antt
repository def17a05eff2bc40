-- ===== src/Pte/Fields.antt =====
-- The bit macros on an entry, as arithmetic on its fields.
use os_assignment.Base.{ℕ, ◌+◌, ◌-◌, ◌*◌, ◌/◌, ◌%◌, ◌^◌, ◌≡◌, arith, ◌==◌, bit_or}
use os_assignment.Base.Bits.{
  bit_or-zero, zero-bit_or, bit_and_split, bit_or_split, bit_and_low, bit_and_high, bit_or_sum,
  or_digit,
}
use os_assignment.Pte.{
  setbit, clrbit, setval, getval, present_mask, swapped_mask, dirty_mask, fpn_mask, swptyp_mask,
  swpoff_mask, page_present, paging_fpn, paging_swp,
}

-- `a | 1`
bit_or-one : (a : ℕ) → bit_or a 1 ≡ a / 2 * 2 + 1
bit_or-one a = omega (arith, or_digit a 1, bit_or-zero (a / 2))

pub setbit_present : (v : ℕ) → setbit v present_mask ≡ v / 2 ^ 32 * 2 ^ 32 + 2 ^ 31 + v % 2 ^ 31
unfolding setbit
setbit_present v = ground (
  arith,
  bit_or_split 31 (v / 2 ^ 31) (v % 2 ^ 31) 1 0,
  bit_or-one (v / 2 ^ 31),
  bit_or-zero (v % 2 ^ 31),
)

pub setbit_swapped : (v : ℕ) → setbit v swapped_mask ≡ v / 2 ^ 31 * 2 ^ 31 + 2 ^ 30 + v % 2 ^ 30
unfolding setbit
setbit_swapped v = ground (
  arith,
  bit_or_split 30 (v / 2 ^ 30) (v % 2 ^ 30) 1 0,
  bit_or-one (v / 2 ^ 30),
  bit_or-zero (v % 2 ^ 30),
)

pub clrbit_swapped : (v : ℕ) → clrbit v swapped_mask ≡ v / 2 ^ 31 % 2 * 2 ^ 31 + v % 2 ^ 30
unfolding clrbit
clrbit_swapped v = ground (
  arith,
  bit_and_split 31 (v / 2 ^ 31) (v % 2 ^ 31) 1 (2 ^ 30 - 1),
  bit_and_low 1 (v / 2 ^ 31),
  bit_and_low 30 (v % 2 ^ 31),
)

pub clrbit_dirty : (v : ℕ) → clrbit v dirty_mask ≡ v / 2 ^ 29 % 8 * 2 ^ 29 + v % 2 ^ 28
unfolding clrbit
clrbit_dirty v = ground (
  arith,
  bit_and_split 29 (v / 2 ^ 29) (v % 2 ^ 29) 7 (2 ^ 28 - 1),
  bit_and_low 3 (v / 2 ^ 29),
  bit_and_low 28 (v % 2 ^ 29),
)

pub setval_fpn : (v fpn : ℕ) → setval v fpn fpn_mask 0 ≡ v / 2 ^ 13 % 2 ^ 19 * 2 ^ 13 + fpn % 2 ^ 13
unfolding setval
setval_fpn v fpn = ground (
  arith,
  bit_and_high 13 v (2 ^ 19 - 1),
  bit_and_low 19 (v / 2 ^ 13),
  bit_and_low 13 (fpn % 2 ^ 64),
  bit_or_sum 13 (v / 2 ^ 13 % 2 ^ 19) (fpn % 2 ^ 13),
)

pub setval_swptyp : (v x : ℕ) → setval v x swptyp_mask 0 ≡ v / 2 ^ 5 % 2 ^ 27 * 2 ^ 5 + x % 2 ^ 5
unfolding setval
setval_swptyp v x = ground (
  arith,
  bit_and_high 5 v (2 ^ 27 - 1),
  bit_and_low 27 (v / 2 ^ 5),
  bit_and_low 5 (x % 2 ^ 64),
  bit_or_sum 5 (v / 2 ^ 5 % 2 ^ 27) (x % 2 ^ 5),
)

pub setval_swpoff :
    (v x : ℕ)
    → setval v x swpoff_mask 5 ≡ v / 2 ^ 26 % 2 ^ 6 * 2 ^ 26 + x % 2 ^ 21 * 2 ^ 5 + v % 2 ^ 5
unfolding setval
setval_swpoff v x = ground (
  arith,
  bit_and_split 26 (v / 2 ^ 26) (v % 2 ^ 26) (2 ^ 6 - 1) (2 ^ 5 - 1),
  bit_and_low 6 (v / 2 ^ 26),
  bit_and_low 5 (v % 2 ^ 26),
  bit_and_high 5 (x * 2 ^ 5 % 2 ^ 64) (2 ^ 21 - 1),
  bit_and_low 21 (x * 2 ^ 5 % 2 ^ 64 / 2 ^ 5),
  bit_or_split 26 (v / 2 ^ 26 % 2 ^ 6) (v % 2 ^ 5) 0 (x % 2 ^ 21 * 2 ^ 5),
  bit_or-zero (v / 2 ^ 26 % 2 ^ 6),
  bit_or_split 5 0 (v % 2 ^ 5) (x % 2 ^ 21) 0,
  zero-bit_or (x % 2 ^ 21),
  bit_or-zero (v % 2 ^ 5),
)

pub paging_fpn_lem : (pte : ℕ) → paging_fpn pte ≡ pte % 2 ^ 13
unfolding paging_fpn getval
paging_fpn_lem pte = ground (arith, bit_and_low 13 pte)

pub paging_swp_lem : (pte : ℕ) → paging_swp pte ≡ pte / 2 ^ 5 % 2 ^ 21
unfolding paging_swp
paging_swp_lem pte = ground (arith, bit_and_high 5 pte (2 ^ 21 - 1), bit_and_low 21 (pte / 2 ^ 5))

-- A test `pte & (1 << k)` reads bit `k`.
pub page_present_lem : (pte : ℕ) → page_present pte ≡ (pte / 2 ^ 31 % 2 == 1)
unfolding page_present
page_present_lem pte = ground (arith, bit_and_high 31 pte 1, bit_and_low 1 (pte / 2 ^ 31))

-- ===== src/Pte/Laws.antt =====
-- What `init_pte` and the updates of an entry leave in its fields.
use os_assignment.Base.{ℕ, ◌+◌, ◌*◌, ◌/◌, ◌%◌, ◌^◌, ◌<◌, ◌≡◌, ◌≢◌, refl, ◌∙◌, true, arith}
use os_assignment.Memphy.{done}
use os_assignment.Pte.{
  setbit, clrbit, setval, present_mask, swapped_mask, dirty_mask, fpn_mask, swptyp_mask,
  swpoff_mask, page_present, paging_fpn, paging_swp, init_pte,
}
use os_assignment.Pte.Fields.{
  setbit_present, setbit_swapped, clrbit_swapped, clrbit_dirty, setval_fpn, setval_swptyp,
  setval_swpoff, paging_fpn_lem, paging_swp_lem, page_present_lem,
}

-- Bit `k` of an entry.
abbrev pub bit_at : ℕ → ℕ → ℕ
bit_at k pte = pte / 2 ^ k % 2

online_value :
    (v fpn : ℕ)
    → setval (clrbit (clrbit (setbit v present_mask) swapped_mask) dirty_mask) fpn fpn_mask 0
      ≡ 2 ^ 31 + bit_at 29 v * 2 ^ 29 + v / 2 ^ 13 % 2 ^ 15 * 2 ^ 13 + fpn % 2 ^ 13
online_value v fpn =
    let a : ℕ = v / 2 ^ 32 * 2 ^ 32 + 2 ^ 31 + v % 2 ^ 31 in
    let b : ℕ = 2 ^ 31 + v % 2 ^ 30 in
    let c : ℕ = 2 ^ 31 + bit_at 29 v * 2 ^ 29 + v % 2 ^ 28 in
    let step₁ : clrbit a swapped_mask ≡ b = omega (arith, clrbit_swapped a) in
    let step₂ : clrbit b dirty_mask ≡ c = omega (arith, clrbit_dirty b) in
    rw (setbit_present v, step₁, step₂) (omega (arith, setval_fpn c fpn))

swapped_value :
    (v swptyp swpoff : ℕ)
    → setval
        (setval
          (clrbit (setbit (setbit v present_mask) swapped_mask) dirty_mask)
          swptyp
          swptyp_mask
          0)
        swpoff
        swpoff_mask
        5
      ≡ 2 ^ 31
        + 2 ^ 30
        + bit_at 29 v * 2 ^ 29
        + v / 2 ^ 26 % 4 * 2 ^ 26
        + swpoff % 2 ^ 21 * 2 ^ 5
        + swptyp % 2 ^ 5
swapped_value v swptyp swpoff =
    let a : ℕ = v / 2 ^ 32 * 2 ^ 32 + 2 ^ 31 + v % 2 ^ 31 in
    let b : ℕ = v / 2 ^ 32 * 2 ^ 32 + 2 ^ 31 + 2 ^ 30 + v % 2 ^ 30 in
    let c : ℕ = 2 ^ 31 + 2 ^ 30 + bit_at 29 v * 2 ^ 29 + v % 2 ^ 28 in
    let d : ℕ =
      2 ^ 31 + 2 ^ 30 + bit_at 29 v * 2 ^ 29 + v / 2 ^ 5 % 2 ^ 23 * 2 ^ 5 + swptyp % 2 ^ 5 in
    let step₁ : setbit a swapped_mask ≡ b = omega (arith, setbit_swapped a) in
    let step₂ : clrbit b dirty_mask ≡ c = omega (arith, clrbit_dirty b) in
    let step₃ : setval c swptyp swptyp_mask 0 ≡ d = omega (arith, setval_swptyp c swptyp) in
    rw (setbit_present v, step₁, step₂, step₃) (omega (arith, setval_swpoff d swpoff))

init_online :
    (pte pre fpn drt swptyp swpoff : ℕ)
    → pre ≢ 0
    → fpn ≢ 0
    → init_pte pte pre fpn drt 0 swptyp swpoff ≡ (
      done,
      setval (clrbit (clrbit (setbit pte present_mask) swapped_mask) dirty_mask) fpn fpn_mask 0,
    )
unfolding init_pte
init_online pte pre fpn drt swptyp swpoff h h' = ground arith

init_swapped :
    (pte pre fpn drt swp swptyp swpoff : ℕ)
    → pre ≢ 0
    → swp ≢ 0
    → init_pte pte pre fpn drt swp swptyp swpoff ≡ (
      done,
      setval
          (setval
            (clrbit (setbit (setbit pte present_mask) swapped_mask) dirty_mask)
            swptyp
            swptyp_mask
            0)
          swpoff
          swpoff_mask
          5,
    )
unfolding init_pte
init_swapped pte pre fpn drt swp swptyp swpoff h h' = ground arith

page_present_of_bit : (e : ℕ) → bit_at 31 e ≡ 1 → page_present e ≡ true
page_present_of_bit e h = page_present_lem e ∙ ground arith

-- `init_pte` for a page in memory, with `pre` and `fpn` not 0 and `swp` 0: the entry is present, neither swapped nor dirty, and holds the
-- frame number modulo 2 ^ 13. The bits 13 to 27 and 29 stay, and the entry fits 32 bits.
pub init_pte_online :
    (pte pre fpn drt swptyp swpoff : ℕ)
    → pre ≢ 0
    → fpn ≢ 0
    → let (s, e) = init_pte pte pre fpn drt 0 swptyp swpoff in
      (s ≡ done)
      × (page_present e ≡ true)
      × (bit_at 30 e ≡ 0)
      × (bit_at 28 e ≡ 0)
      × (paging_fpn e ≡ fpn % 2 ^ 13)
      × (bit_at 29 e ≡ bit_at 29 pte)
      × (e / 2 ^ 13 % 2 ^ 15 ≡ pte / 2 ^ 13 % 2 ^ 15)
      × (e < 2 ^ 32)
init_pte_online pte pre fpn drt swptyp swpoff h h' =
    let e : ℕ = 2 ^ 31 + bit_at 29 pte * 2 ^ 29 + pte / 2 ^ 13 % 2 ^ 15 * 2 ^ 13 + fpn % 2 ^ 13 in
    rw (init_online pte pre fpn drt swptyp swpoff h h', online_value pte fpn)
      (
        refl,
        page_present_of_bit e (omega arith),
        omega arith,
        omega arith,
        omega (arith, paging_fpn_lem e),
        omega arith,
        omega arith,
        omega arith,
      )

-- `init_pte` for a page in swap, with `pre` and `swp` not 0: the entry is present and swapped, not dirty, and holds the swap
-- type modulo 2 ^ 5 and the swap offset modulo 2 ^ 21.
pub init_pte_swapped :
    (pte pre fpn drt swp swptyp swpoff : ℕ)
    → pre ≢ 0
    → swp ≢ 0
    → let (s, e) = init_pte pte pre fpn drt swp swptyp swpoff in
      (s ≡ done)
      × (page_present e ≡ true)
      × (bit_at 30 e ≡ 1)
      × (bit_at 28 e ≡ 0)
      × (e % 2 ^ 5 ≡ swptyp % 2 ^ 5)
      × (paging_swp e ≡ swpoff % 2 ^ 21)
      × (e < 2 ^ 32)
init_pte_swapped pte pre fpn drt swp swptyp swpoff h h' =
    let e : ℕ =
      2 ^ 31
      + 2 ^ 30
      + bit_at 29 pte * 2 ^ 29
      + pte / 2 ^ 26 % 4 * 2 ^ 26
      + swpoff % 2 ^ 21 * 2 ^ 5
      + swptyp % 2 ^ 5 in
    rw (init_swapped pte pre fpn drt swp swptyp swpoff h h', swapped_value pte swptyp swpoff)
      (
        refl,
        page_present_of_bit e (omega arith),
        omega arith,
        omega arith,
        omega arith,
        omega (arith, paging_swp_lem e),
        omega arith,
      )

-- ===== src/Flat/Entries.antt =====
-- The entries of mm.c against those of mm64.c.
use os_assignment.Base.{
  ℕ, ◌+◌, ◌-◌, ◌*◌, ◌/◌, ◌%◌, ◌^◌, ◌≡◌, ◌≢◌, ap, ap₂, ◌∙◌, true, false, arith, ◌==◌, update,
  if_eq_true, if_eq_false, if◌then◌else◌,
}
use os_assignment.Base.Bits.{
  bit_or-zero, zero-bit_or, bit_and_split, bit_or_split, bit_and_low, bit_and_high, bit_or_sum,
}
use os_assignment.Memphy.{done, failed}
use os_assignment.Pte.{
  setbit, clrbit, setval, present_mask, swapped_mask, dirty_mask, fpn_mask, swptyp_mask,
  swpoff_mask, page_present, paging_fpn, paging_swp, init_pte,
}
use os_assignment.Pte.Fields.{
  setval_fpn, setval_swptyp, setval_swpoff, paging_fpn_lem, paging_swp_lem, page_present_lem,
  setbit_present, setbit_swapped, clrbit_swapped,
}
use os_assignment.Flat.{setval32, init_pte32, set_swap32, set_fpn32, set_entry32}

setval32_fpn : (v fpn : ℕ) → setval32 v fpn fpn_mask 0 ≡ setval v fpn fpn_mask 0
unfolding setval32
setval32_fpn v fpn = ground (
  arith,
  setval_fpn v fpn,
  bit_and_high 13 v (2 ^ 19 - 1),
  bit_and_low 19 (v / 2 ^ 13),
  bit_and_low 13 (fpn % 2 ^ 32),
  bit_or_sum 13 (v / 2 ^ 13 % 2 ^ 19) (fpn % 2 ^ 13),
)

setval32_swptyp : (v x : ℕ) → setval32 v x swptyp_mask 0 ≡ setval v x swptyp_mask 0
unfolding setval32
setval32_swptyp v x = ground (
  arith,
  setval_swptyp v x,
  bit_and_high 5 v (2 ^ 27 - 1),
  bit_and_low 27 (v / 2 ^ 5),
  bit_and_low 5 (x % 2 ^ 32),
  bit_or_sum 5 (v / 2 ^ 5 % 2 ^ 27) (x % 2 ^ 5),
)

setval32_swpoff : (v x : ℕ) → setval32 v x swpoff_mask 5 ≡ setval v x swpoff_mask 5
unfolding setval32
setval32_swpoff v x = ground (
  arith,
  setval_swpoff v x,
  bit_and_split 26 (v / 2 ^ 26) (v % 2 ^ 26) (2 ^ 6 - 1) (2 ^ 5 - 1),
  bit_and_low 6 (v / 2 ^ 26),
  bit_and_low 5 (v % 2 ^ 26),
  bit_and_high 5 (x * 2 ^ 5 % 2 ^ 32) (2 ^ 21 - 1),
  bit_and_low 21 (x * 2 ^ 5 % 2 ^ 32 / 2 ^ 5),
  bit_or_split 26 (v / 2 ^ 26 % 2 ^ 6) (v % 2 ^ 5) 0 (x % 2 ^ 21 * 2 ^ 5),
  bit_or-zero (v / 2 ^ 26 % 2 ^ 6),
  bit_or_split 5 0 (v % 2 ^ 5) (x % 2 ^ 21) 0,
  zero-bit_or (x % 2 ^ 21),
  bit_or-zero (v % 2 ^ 5),
)

init_pte32_lem :
    (pte pre fpn drt swp swptyp swpoff : ℕ)
    → init_pte32 pte pre fpn drt swp swptyp swpoff ≡ init_pte pte pre fpn drt swp swptyp swpoff
unfolding init_pte32 init_pte
init_pte32_lem pte pre fpn drt swp swptyp swpoff =
    let a = clrbit (clrbit (setbit pte present_mask) swapped_mask) dirty_mask in
    let b = clrbit (setbit (setbit pte present_mask) swapped_mask) dirty_mask in
    let online = setval32_fpn a fpn in
    let swapped =
      setval32_swpoff (setval32 b swptyp swptyp_mask 0) swpoff
      ∙ ap (λ (v : ℕ). setval v swpoff swpoff_mask 5) (setval32_swptyp b swptyp) in
    ap₂
      (λ (x y : ℕ).
        if pre == 0
        then (done, pte)
        else if swp == 0
        then if fpn == 0 then (failed, pte) else (done, x)
        else (done, y))
      online swapped

update_at : (f : ℕ → ℕ) (i x : ℕ) → update f i x i ≡ x
update_at f i x = let here : (i == i) ≡ true = ground arith in if_eq_true _ _ here

update_other : (f : ℕ → ℕ) (i j x : ℕ) → j ≢ i → update f i x j ≡ f j
update_other f i j x ne = let there : (j == i) ≡ false = ground arith in if_eq_false _ _ there

online_entry :
    (v fpn : ℕ)
    → setval32 (clrbit (setbit v present_mask) swapped_mask) fpn fpn_mask 0
      ≡ 2 ^ 31 + v / 2 ^ 13 % 2 ^ 17 * 2 ^ 13 + fpn % 2 ^ 13
online_entry v fpn =
    let a : ℕ = v / 2 ^ 32 * 2 ^ 32 + 2 ^ 31 + v % 2 ^ 31 in
    let b : ℕ = 2 ^ 31 + v % 2 ^ 30 in
    let step : clrbit a swapped_mask ≡ b = omega (arith, clrbit_swapped a) in
    rw (setbit_present v, step) (omega (arith, setval32_fpn b fpn, setval_fpn b fpn))

swapped_entry :
    (v swptyp swpoff : ℕ)
    → setval32
          (setval32 (setbit (setbit v present_mask) swapped_mask) swptyp swptyp_mask 0)
          swpoff
          swpoff_mask
          5
        % 2 ^ 32
      ≡ 2 ^ 31 + 2 ^ 30 + v / 2 ^ 26 % 16 * 2 ^ 26 + swpoff % 2 ^ 21 * 2 ^ 5 + swptyp % 2 ^ 5
swapped_entry v swptyp swpoff =
    let a : ℕ = v / 2 ^ 32 * 2 ^ 32 + 2 ^ 31 + v % 2 ^ 31 in
    let b : ℕ = v / 2 ^ 32 * 2 ^ 32 + 2 ^ 31 + 2 ^ 30 + v % 2 ^ 30 in
    let c : ℕ = 2 ^ 31 + 2 ^ 30 + v / 2 ^ 5 % 2 ^ 25 * 2 ^ 5 + swptyp % 2 ^ 5 in
    let step₁ : setbit a swapped_mask ≡ b = omega (arith, setbit_swapped a) in
    let step₂ : setval32 b swptyp swptyp_mask 0 ≡ c =
      omega (arith, setval32_swptyp b swptyp, setval_swptyp b swptyp) in
    rw (setbit_present v, step₁, step₂)
      (omega (arith, setval32_swpoff c swpoff, setval_swpoff c swpoff))

-- `e` is the entry of a page in memory with this frame, or of a page in the swap with this place.
pub record IsOnline (e fpn : ℕ) : Type 0 where
  pub present : page_present e ≡ true
  pub in_memory : e / 2 ^ 30 % 2 ≡ 0
  pub frame : paging_fpn e ≡ fpn % 2 ^ 13

pub record IsSwapped (e swptyp swpoff : ℕ) : Type 0 where
  pub present : page_present e ≡ true
  pub in_swap : e / 2 ^ 30 % 2 ≡ 1
  pub kind : e % 2 ^ 5 ≡ swptyp % 2 ^ 5
  pub place : paging_swp e ≡ swpoff % 2 ^ 21

-- The entries of the table of 32 bits. `init_pte` of mm.c gives what `init_pte` of mm64.c gives, on
-- every branch, although it shifts values of 32 bits. `pte_set_fpn` and `pte_set_swap` leave at the
-- page an entry that is present, with the frame number modulo 2 ^ 13, or with the swap type modulo
-- 2 ^ 5 and the offset modulo 2 ^ 21; `pte_set_entry` leaves there the lower 32 bits of the value;
-- and the three change no other page's entry.
pub flat_table :
    (pgd : ℕ → ℕ) (pgn pre fpn drt swp swptyp swpoff : ℕ)
    → (init_pte32 (pgd pgn) pre fpn drt swp swptyp swpoff
        ≡ init_pte (pgd pgn) pre fpn drt swp swptyp swpoff)
      × IsOnline (set_fpn32 pgd pgn fpn pgn) fpn
      × IsSwapped (set_swap32 pgd pgn swptyp swpoff pgn) swptyp swpoff
      × ((pte_val : ℕ) → set_entry32 pgd pgn pte_val pgn ≡ pte_val % 2 ^ 32)
      × ((other pte_val : ℕ)
          → other ≢ pgn
          → (set_fpn32 pgd pgn fpn other ≡ pgd other)
            × (set_swap32 pgd pgn swptyp swpoff other ≡ pgd other)
            × (set_entry32 pgd pgn pte_val other ≡ pgd other))
unfolding set_fpn32 set_swap32 set_entry32
flat_table pgd pgn pre fpn drt swp swptyp swpoff =
    let v = pgd pgn in
    let e = set_fpn32 pgd pgn fpn pgn in
    let s = set_swap32 pgd pgn swptyp swpoff pgn in
    let online = ap (λ (x : ℕ). x) (update_at pgd pgn _) ∙ online_entry v fpn in
    let swapped =
      ap (λ (x : ℕ). x % 2 ^ 32) (update_at pgd pgn _) ∙ swapped_entry v swptyp swpoff in
    (
      init_pte32_lem v pre fpn drt swp swptyp swpoff,
      record {
        present = page_present_lem e ∙ ground (arith, online);
        in_memory = omega (arith, online);
        frame = paging_fpn_lem e ∙ omega (arith, online);
      },
      record {
        present = page_present_lem s ∙ ground (arith, swapped);
        in_swap = omega (arith, swapped);
        kind = omega (arith, swapped);
        place = paging_swp_lem s ∙ omega (arith, swapped);
      },
      λ pte_val. update_at pgd pgn _,
      λ other pte_val ne. (
        update_other pgd pgn other _ ne,
        update_other pgd pgn other _ ne,
        update_other pgd pgn other _ ne,
      ),
    )

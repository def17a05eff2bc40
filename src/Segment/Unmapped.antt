-- ===== src/Segment/Unmapped.antt =====
-- What a program sees of the memory of segments.
use os_assignment.Base.{
  ℕ, zero, suc, ◌+◌, ◌*◌, ◌%◌, ◌^◌, ◌<◌, ◌≡◌, ◌≢◌, refl, ap, ◌∙◌, true, false, none, some, ltb,
  update, rounds, arith, if_eq_true, if_eq_false,
}
use os_assignment.Table.{sign_extend}
use os_assignment.Segment.{
  page_size, Owner, Segments, get_first_lv, get_second_lv, trans_from, get_trans_table, found_in,
  translate, pages_for, alloc_mem, read_mem, write_mem, set_reg, alloc_data, with_data, read_data,
  write_data,
}

-- The two indices and the offset make up an address of 64 bits.
get_first_lv-get_second_lv :
    (addr : ℕ)
    → addr < 2 ^ 64
    → (get_second_lv addr < 32)
      × (get_first_lv addr * 2 ^ 15 + get_second_lv addr * 2 ^ 10 + addr % 2 ^ 10 ≡ addr)
unfolding get_first_lv get_second_lv
get_first_lv-get_second_lv addr h = (omega (arith, h), omega (arith, h))

trans_from_lem : (n : ℕ) → trans_from n ≡ none
unfolding trans_from
trans_from_lem zero = refl
trans_from_lem (suc n) = trans_from_lem n

-- No address has a translation.
translate_lem : (addr : ℕ) (proc : Owner) → translate addr proc ≡ false
unfolding translate get_trans_table
translate_lem addr proc =
    ap (found_in (get_second_lv addr)) (trans_from_lem (rounds proc.page_table.size))

-- The number of pages is one short of what the size needs, or one page too many.
pub pages_for_lem :
    (size : ℕ)
    → (size % page_size ≢ 0 → pages_for size * page_size < size)
      × (size % page_size ≡ 0 → pages_for size * page_size ≡ size + page_size)
unfolding pages_for
pages_for_lem size = (λ h. ground (arith, h), λ h. ground (arith, h))

-- Whatever the tables hold, with registers below 10: an allocation fails and changes nothing, a
-- write fails and changes nothing, and a read, which has read nothing either, reports success and
-- overwrites its destination with what its variable happened to hold.
pub segment_access :
    (physical junk size byte source destination offset : ℕ) (proc : Owner) (m : Segments)
    → source < 10
    → destination < 10
    → (alloc_data proc size destination ≡ some (1, proc))
      × (write_data physical proc byte destination offset m ≡ some (1, m))
      × (read_data physical junk proc source offset destination m
          ≡ some (0, record proc { regs = update proc.regs destination (sign_extend junk) }))
unfolding alloc_data alloc_mem write_data write_mem read_data read_mem set_reg
segment_access physical junk size byte source destination offset proc m h h' =
    let reg : ltb source 10 ≡ true = ground arith in
    let reg' : ltb destination 10 ≡ true = ground arith in
    let absent = translate_lem ((proc.regs destination + offset) % 2 ^ 64) proc in
    let absent' = translate_lem ((proc.regs source + offset) % 2 ^ 64) proc in
    (
      refl,
      if_eq_true _ _ reg' ∙ if_eq_false _ _ absent,
      if_eq_true _ _ reg
          ∙ ap (with_data junk proc destination) (if_eq_false _ _ absent')
          ∙ if_eq_true _ _ reg',
    )

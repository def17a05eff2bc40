-- ===== src/Process/Swapped.antt =====
-- pte_set_swap and pg_getpage: an access to a page that is in the swap.
use os_assignment.Base.{ℕ, ◌+◌, ◌*◌, ◌/◌, ◌%◌, ◌^◌, ◌<◌, ◌≡◌, ap, ◌∙◌, some, arith}
use os_assignment.Memphy.{Memphy}
use os_assignment.Memphy.Laws.{bind_eq}
use os_assignment.Address.{get_pd_from_pagenum}
use os_assignment.Pte.{
  setbit, setval, present_mask, swapped_mask, swptyp_mask, swpoff_mask, page_present, paging_fpn,
}
use os_assignment.Pte.Fields.{
  setbit_present, setbit_swapped, setval_swptyp, setval_swpoff, paging_fpn_lem,
}
use os_assignment.Table.{
  add64, get_32bit_entry, write_entry, get_pte_address, pte_get_entry, pte_set_swap,
}
use os_assignment.Table.Entry.{
  IsRam, entry_at, get_32bit_entry_lem, put_entry, put_entry-IsRam, write_entry_lem, read_back,
  entry_at-put_entry,
}
use os_assignment.Table.ReadBack.{read_back_fpn, read_back_present}
use os_assignment.Table.Mapping.{Walked, IsOff, Walked-put_entry}
use os_assignment.Region.{int_of}
use os_assignment.Process.{Krnl, pg_getpage}
use os_assignment.Process.Paging.{
  present_32, pg_getpage_present, get_pte_address_walked, pte_get_entry_walked,
}

-- The entry that `pte_set_swap` makes of the old entry `e`.
abbrev pub in_swap : ℕ → ℕ → ℕ → ℕ
in_swap e swptyp swpoff =
    setval (setval (setbit (setbit e present_mask) swapped_mask) swptyp swptyp_mask 0) swpoff
      swpoff_mask 5

in_swap_lem :
    (e swptyp swpoff : ℕ)
    → in_swap e swptyp swpoff
      ≡ 2 ^ 31 + 2 ^ 30 + e / 2 ^ 26 % 2 ^ 4 * 2 ^ 26 + swpoff % 2 ^ 21 * 2 ^ 5 + swptyp % 2 ^ 5
in_swap_lem e swptyp swpoff =
    let a : ℕ = e / 2 ^ 32 * 2 ^ 32 + 2 ^ 31 + e % 2 ^ 31 in
    let b : ℕ = a / 2 ^ 31 * 2 ^ 31 + 2 ^ 30 + a % 2 ^ 30 in
    let c : ℕ = b / 2 ^ 5 % 2 ^ 27 * 2 ^ 5 + swptyp % 2 ^ 5 in
    ap
      (λ (t : ℕ). setval (setval (setbit t swapped_mask) swptyp swptyp_mask 0) swpoff swpoff_mask 5)
      (setbit_present e)
    ∙ ap (λ (t : ℕ). setval (setval t swptyp swptyp_mask 0) swpoff swpoff_mask 5) (setbit_swapped a)
    ∙ ap (λ (t : ℕ). setval t swpoff swpoff_mask 5) (setval_swptyp b swptyp)
    ∙ setval_swpoff c swpoff
    ∙ omega arith

pte_set_swap_walked :
    (m : Memphy) (pgd pgn swptyp swpoff pt : ℕ)
    → IsRam m
    → Walked m pgd (get_pd_from_pagenum pgn) pt
    → let a = add64 pt ((get_pd_from_pagenum pgn).pt * 4) in
      a + 3 < m.maxsz
      → pte_set_swap pgd pgn swptyp swpoff m
        ≡ some (some tt, put_entry a (in_swap (entry_at m a) swptyp swpoff) m)
unfolding pte_set_swap
pte_set_swap_walked m pgd pgn swptyp swpoff pt r w h =
    let a = add64 pt ((get_pd_from_pagenum pgn).pt * 4) in
    let v = in_swap (entry_at m a) swptyp swpoff in
    bind_eq (get_pte_address pgd pgn) _ m m (some a) (get_pte_address_walked m pgd pgn pt r w)
    ∙ bind_eq (get_32bit_entry a) _ m m (entry_at m a) (get_32bit_entry_lem m a r h)
    ∙ bind_eq (write_entry a v) _ m (put_entry a v m) tt (write_entry_lem a v m r h)

-- After `pte_set_swap` has marked a page with a number below 2 ^ 31 as swapped out, where the tables
-- above its entry are present and the entry is none of theirs, an access to the page finds it
-- present: it changes nothing and returns a frame number that is made of the swap type and the low
-- bits of the swap offset, for an offset of at most 3 modulo 8.
pub pg_getpage-pte_set_swap :
    (k : Krnl) (pgn swptyp swpoff pt : ℕ)
    → IsRam k.mram
    → pgn < 2 ^ 31
    → swpoff % 8 < 4
    → (w : Walked k.mram k.mm.pgd (get_pd_from_pagenum pgn) pt)
    → let a = add64 pt ((get_pd_from_pagenum pgn).pt * 4) in
      a + 3 < k.mram.maxsz
      → IsOff w a
      → (n : Memphy) × (pte_set_swap k.mm.pgd pgn swptyp swpoff k.mram ≡ some (some tt, n))
        × (pg_getpage (record k { mram = n }) pgn
            ≡ some (some (swpoff % 2 ^ 8 * 2 ^ 5 + swptyp % 2 ^ 5), record k { mram = n }))
pg_getpage-pte_set_swap k pgn swptyp swpoff pt r small low w h off =
    let x = get_pd_from_pagenum pgn in
    let a = add64 pt (x.pt * 4) in
    let m = k.mram in
    let v = in_swap (entry_at m a) swptyp swpoff in
    let n = put_entry a v m in
    let value : ℕ =
      2 ^ 31
      + 2 ^ 30
      + entry_at m a / 2 ^ 26 % 2 ^ 4 * 2 ^ 26
      + swpoff % 2 ^ 21 * 2 ^ 5
      + swptyp % 2 ^ 5 in
    let back : entry_at n a ≡ read_back value =
      entry_at-put_entry m a v ∙ ap read_back (in_swap_lem (entry_at m a) swptyp swpoff) in
    let fpn : paging_fpn (entry_at n a % 2 ^ 32) ≡ swpoff % 2 ^ 8 * 2 ^ 5 + swptyp % 2 ^ 5 =
      omega
        (arith, paging_fpn_lem (entry_at n a % 2 ^ 32), back, read_back_fpn value (omega arith)) in
    let same : int_of pgn ≡ pgn = ground arith in
    let entry =
      ap (λ (p : ℕ). pte_get_entry k.mm.pgd p n) same
      ∙ pte_get_entry_walked n k.mm.pgd pgn pt (put_entry-IsRam a v m r)
          (Walked-put_entry m k.mm.pgd pt a v x w off) h in
    (
      n,
      pte_set_swap_walked m k.mm.pgd pgn swptyp swpoff pt r w h,
      pg_getpage_present (record k { mram = n }) pgn (entry_at n a % 2 ^ 32) entry
            (present_32 (entry_at n a)
              ∙ ap page_present back
              ∙ read_back_present value (omega arith))
          ∙ ap (λ (f : ℕ). some (some f, record k { mram = n })) fpn,
    )

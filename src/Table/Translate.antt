-- ===== src/Table/Translate.antt =====
-- Translating the addresses of a page after `pte_set_fpn` has mapped it.
use os_assignment.Base.{ℕ, ◌+◌, ◌*◌, ◌/◌, ◌%◌, ◌^◌, ◌<◌, ◌≡◌, ap, ◌∙◌, sym, subst, some}
use os_assignment.Base.Bits.{bit_and_low}
use os_assignment.Memphy.{Memphy}
use os_assignment.Memphy.Laws.{bind_eq}
use os_assignment.Address.{Indices, get_pd_from_address, get_pd_from_pagenum, pt_shift}
use os_assignment.Address.Laws.{get_pd_from_pagenum_lem}
use os_assignment.Table.{add64, pagesz, R, follow, translate_walk, pte_set_fpn, translate_address}
use os_assignment.Table.Entry.{
  IsRam, entry_at, put_entry, put_entry-IsRam, Apart, entry_at-put_entry-Apart,
}
use os_assignment.Table.Level.{Links, descend-Links, IsReadable}
use os_assignment.Table.Mapping.{
  Walked, IsOff, follow-descend, translate_walk-walk, walk_walked, Walked-put_entry, online,
  Links-online, pte_set_fpn_walked,
}

translate_linked :
    (m : Memphy) (pgd pt b vaddr : ℕ)
    → IsRam m
    → Walked m pgd (get_pd_from_address vaddr) pt
    → Links m (add64 pt ((get_pd_from_address vaddr).pt * 4)) b
    → translate_address pgd vaddr m ≡ some (some (add64 b (vaddr % pagesz)), m)
unfolding translate_address
translate_linked m pgd pt b vaddr r w l =
    let x = get_pd_from_address vaddr in
    bind_eq (translate_walk pgd x) _ m m (some pt)
      (ap (λ (f : R ℕ). f m) (translate_walk-walk pgd x) ∙ walk_walked m pgd pt x r w)
    ∙ bind_eq (follow pt x.pt) _ m m (some b)
        (ap (λ (f : R ℕ). f m) (follow-descend pt x.pt) ∙ descend-Links m pt x.pt b r l)
    ∙ ap (λ (o : ℕ). some (some (add64 b o), m)) (bit_and_low 12 vaddr)

-- When the four upper tables of page `pgn` are present, its entry lies in the RAM and overlaps
-- none of their entries, and the low byte of `fpn` is below 128, `pte_set_fpn` succeeds. Then
-- every address of the page translates to its offset in frame `fpn`, cut to 13 bits, and no entry
-- that does not overlap the page's has changed.
pub pte_set_fpn-translate_address :
    (m : Memphy) (pgd pgn fpn pt : ℕ)
    → IsRam m
    → (w : Walked m pgd (get_pd_from_pagenum pgn) pt)
    → let a = add64 pt ((get_pd_from_pagenum pgn).pt * 4) in
      a + 3 < m.maxsz
      → IsOff w a
      → IsReadable fpn
      → (n : Memphy) × (pte_set_fpn pgd pgn fpn m ≡ some (some tt, n))
        × ((vaddr : ℕ)
            → vaddr / 2 ^ pt_shift ≡ pgn
            → translate_address pgd vaddr n
              ≡ some (some (add64 (fpn % 2 ^ 13 * pagesz) (vaddr % pagesz)), n))
        × ((other : ℕ) → Apart a other → entry_at n other ≡ entry_at m other)
pte_set_fpn-translate_address m pgd pgn fpn pt r w h off readable =
    let x = get_pd_from_pagenum pgn in
    let a = add64 pt (x.pt * 4) in
    let v = online (entry_at m a) fpn in
    let n = put_entry a v m in
    let b : ℕ = fpn % 2 ^ 13 * pagesz in
    let goal : Indices → Type 0 = λ y. Walked n pgd y pt × Links n (add64 pt (y.pt * 4)) b in
    let here : goal x = (Walked-put_entry m pgd pt a v x w off, Links-online m a fpn h readable) in
    (
      n,
      pte_set_fpn_walked m pgd pgn fpn pt r w h,
      λ vaddr same.
          let at =
            subst goal (ap get_pd_from_pagenum (sym same) ∙ get_pd_from_pagenum_lem vaddr) here in
          translate_linked n pgd pt b vaddr (put_entry-IsRam a v m r) at.0 at.1,
      λ other apart. entry_at-put_entry-Apart m a v other apart,
    )

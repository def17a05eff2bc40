-- ===== src/Process/Paging.antt =====
-- pg_getpage: what an access to a page does.
use os_assignment.Base.{
  ℕ, ◌+◌, ◌*◌, ◌^◌, ◌<◌, ◌≡◌, refl, ap, ◌∙◌, sym, true, false, Option, none, some, if◌then◌else◌,
  arith, ◌%◌, ◌==◌, if_eq_true, if_eq_false,
}
use os_assignment.Memphy.{Memphy, Status, done, failed}
use os_assignment.Pte.{page_present, paging_fpn}
use os_assignment.Memphy.Laws.{bind_eq}
use os_assignment.Address.{get_pd_from_pagenum}
use os_assignment.Pte.Fields.{page_present_lem, paging_fpn_lem}
use os_assignment.Table.{
  add64, pagesz, table_base, walk, get_32bit_entry, get_pte_address, pte_get_entry, pte_set_fpn,
}
use os_assignment.Table.Entry.{IsRam, entry_at, get_32bit_entry_lem, put_entry, put_entry-IsRam}
use os_assignment.Table.Level.{IsReadable, table_base_lem}
use os_assignment.Table.Mapping.{
  Walked, IsOff, walk_walked, Walked-put_entry, online, Links-online, pte_set_fpn_walked,
}
use os_assignment.Region.{int_of}
use os_assignment.Process.{Krnl, entry_of, bring_in, pg_getpage}

entry_of_lem :
    (k : Krnl) (pgn pte : ℕ)
    → pte_get_entry k.mm.pgd (int_of pgn) k.mram ≡ some (pte, k.mram)
    → entry_of k pgn ≡ some (pte, k)
unfolding entry_of
entry_of_lem k pgn pte e =
    ap
      (λ (o : Option (ℕ × Memphy)). elim o [
        | none ↦ none
        | some (p, mram) ↦ some (p, record k { mram = mram })
      ])
      e

-- How `pg_getpage` goes on once the page is in place, or once there is none.
finish : ℕ → Option (Status × Krnl) → Option (Option ℕ × Krnl)
finish pgn none = none
finish pgn (some (failed, after)) = some (none, after)
finish pgn (some (done, after)) = elim (entry_of after pgn) [
  | none ↦ none
  | some (pte', final) ↦ some (some (paging_fpn pte'), final)
]

pg_getpage_step :
    (k : Krnl) (pgn pte : ℕ)
    → entry_of k pgn ≡ some (pte, k)
    → pg_getpage k pgn ≡ finish pgn (if page_present pte then some (done, k) else bring_in k pgn)
unfolding pg_getpage finish
pg_getpage_step k pgn pte e = rw (pg_getpage, e) refl

finish_done :
    (k : Krnl) (pgn pte : ℕ)
    → entry_of k pgn ≡ some (pte, k)
    → finish pgn (some (done, k)) ≡ some (some (paging_fpn pte), k)
unfolding finish
finish_done k pgn pte e = rw (e, finish) refl

pub pg_getpage_present :
    (k : Krnl) (pgn pte : ℕ)
    → pte_get_entry k.mm.pgd (int_of pgn) k.mram ≡ some (pte, k.mram)
    → page_present pte ≡ true
    → pg_getpage k pgn ≡ some (some (paging_fpn pte), k)
pg_getpage_present k pgn pte e present =
    let here = entry_of_lem k pgn pte e in
    pg_getpage_step k pgn pte here
    ∙ ap (finish pgn) (if_eq_true _ _ present)
    ∙ finish_done k pgn pte here

pub pg_getpage_failed :
    (k after : Krnl) (pgn pte : ℕ)
    → pte_get_entry k.mm.pgd (int_of pgn) k.mram ≡ some (pte, k.mram)
    → page_present pte ≡ false
    → bring_in k pgn ≡ some (failed, after)
    → pg_getpage k pgn ≡ some (none, after)
unfolding finish
pg_getpage_failed k after pgn pte e absent b =
    pg_getpage_step k pgn pte (entry_of_lem k pgn pte e)
    ∙ ap (finish pgn) (if_eq_false _ _ absent ∙ b)

-- Where the upper tables are present, the address of the entry is found.
pub get_pte_address_walked :
    (m : Memphy) (pgd pgn pt : ℕ)
    → IsRam m
    → Walked m pgd (get_pd_from_pagenum pgn) pt
    → get_pte_address pgd pgn m ≡ some (some (add64 pt ((get_pd_from_pagenum pgn).pt * 4)), m)
unfolding get_pte_address
get_pte_address_walked m pgd pgn pt r w =
    let x = get_pd_from_pagenum pgn in
    bind_eq (walk pgd x) _ m m (some pt) (walk_walked m pgd pt x r w)

-- Where the upper tables are present `pte_get_entry` reads the entry, as 32 bits.
pub pte_get_entry_walked :
    (m : Memphy) (pgd pgn pt : ℕ)
    → IsRam m
    → Walked m pgd (get_pd_from_pagenum pgn) pt
    → add64 pt ((get_pd_from_pagenum pgn).pt * 4) + 3 < m.maxsz
    → pte_get_entry pgd pgn m
      ≡ some (entry_at m (add64 pt ((get_pd_from_pagenum pgn).pt * 4)) % 2 ^ 32, m)
unfolding pte_get_entry
pte_get_entry_walked m pgd pgn pt r w h =
    let x = get_pd_from_pagenum pgn in
    let a = add64 pt (x.pt * 4) in
    bind_eq (get_pte_address pgd pgn) _ m m (some a) (get_pte_address_walked m pgd pgn pt r w)
    ∙ bind_eq (get_32bit_entry a) _ m m (entry_at m a) (get_32bit_entry_lem m a r h)

pub present_32 : (e : ℕ) → page_present (e % 2 ^ 32) ≡ page_present e
present_32 e =
    page_present_lem (e % 2 ^ 32) ∙ ap (λ (b : ℕ). b == 1) (omega arith) ∙ sym (page_present_lem e)

fpn_32 : (e f : ℕ) → table_base e ≡ f % 2 ^ 13 * pagesz → paging_fpn (e % 2 ^ 32) ≡ f % 2 ^ 13
fpn_32 e f h = omega (arith, paging_fpn_lem (e % 2 ^ 32), table_base_lem e, h)

-- After `pte_set_fpn` has mapped a page with a number below 2 ^ 31, under the conditions of
-- `pte_set_fpn-translate_address`, an access to the page finds it present: it returns the frame number, cut to 13 bits, and
-- changes nothing.
pub pg_getpage-pte_set_fpn :
    (k : Krnl) (pgn fpn pt : ℕ)
    → IsRam k.mram
    → pgn < 2 ^ 31
    → (w : Walked k.mram k.mm.pgd (get_pd_from_pagenum pgn) pt)
    → let a = add64 pt ((get_pd_from_pagenum pgn).pt * 4) in
      a + 3 < k.mram.maxsz
      → IsOff w a
      → IsReadable fpn
      → (n : Memphy) × (pte_set_fpn k.mm.pgd pgn fpn k.mram ≡ some (some tt, n))
        × (pg_getpage (record k { mram = n }) pgn
            ≡ some (some (fpn % 2 ^ 13), record k { mram = n }))
pg_getpage-pte_set_fpn k pgn fpn pt r small w h off readable =
    let x = get_pd_from_pagenum pgn in
    let a = add64 pt (x.pt * 4) in
    let m = k.mram in
    let v = online (entry_at m a) fpn in
    let n = put_entry a v m in
    let l = Links-online m a fpn h readable in
    let same : int_of pgn ≡ pgn = ground arith in
    let entry =
      ap (λ (p : ℕ). pte_get_entry k.mm.pgd p n) same
      ∙ pte_get_entry_walked n k.mm.pgd pgn pt (put_entry-IsRam a v m r)
          (Walked-put_entry m k.mm.pgd pt a v x w off) h in
    (
      n,
      pte_set_fpn_walked m k.mm.pgd pgn fpn pt r w h,
      pg_getpage_present (record k { mram = n }) pgn (entry_at n a % 2 ^ 32) entry
            (present_32 (entry_at n a) ∙ l.present)
          ∙ ap (λ (f : ℕ). some (some f, record k { mram = n }))
              (fpn_32 (entry_at n a) fpn l.target),
    )

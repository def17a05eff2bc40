-- ===== src/Table/Mapping.antt =====
-- Mapping a page whose tables exist, and translating its addresses afterwards.
use os_assignment.Base.{ℕ, ◌+◌, ◌*◌, ◌/◌, ◌%◌, ◌^◌, ◌<◌, ◌≡◌, refl, ap, ◌∙◌, some, arith}
use os_assignment.Memphy.{Memphy}
use os_assignment.Memphy.Laws.{bind_eq}
use os_assignment.Address.{Indices, get_pd_from_pagenum}
use os_assignment.Pte.{setbit, clrbit, setval, present_mask, swapped_mask, fpn_mask, page_present}
use os_assignment.Pte.Fields.{setbit_present, clrbit_swapped, setval_fpn}
use os_assignment.Table.{
  add64, pagesz, get_32bit_entry, write_entry, table_base, descend, follow, walk, translate_walk,
  ensure_table, pte_set_fpn,
}
use os_assignment.Table.Entry.{
  IsRam, entry_at, get_32bit_entry_lem, put_entry, write_entry_lem, read_back, Apart,
  entry_at-put_entry, entry_at-put_entry-Apart,
}
use os_assignment.Table.ReadBack.{read_back_fpn, read_back_present}
use os_assignment.Table.Level.{Links, table_base_lem, descend-Links, ensure-Links, IsReadable}

-- The two walks of mm64.c read the same entries.
pub follow-descend : (base idx : ℕ) → follow base idx ≡ descend base idx
unfolding follow descend
follow-descend base idx = refl

pub translate_walk-walk : (pgd : ℕ) (x : Indices) → translate_walk pgd x ≡ walk pgd x
unfolding translate_walk walk follow descend
translate_walk-walk pgd x = refl

-- The four tables on the way to the page table `pt`, all present.
pub record Walked (m : Memphy) (pgd : ℕ) (x : Indices) (pt : ℕ) : Type 0 where
  pub p4d : ℕ
  pub pud : ℕ
  pub pmd : ℕ
  pub at_pgd : Links m (add64 pgd (x.pgd * 4)) p4d
  pub at_p4d : Links m (add64 p4d (x.p4d * 4)) pud
  pub at_pud : Links m (add64 pud (x.pud * 4)) pmd
  pub at_pmd : Links m (add64 pmd (x.pmd * 4)) pt

-- The entry at `a` is none of the four on the way.
pub record IsOff {m : Memphy} {pgd : ℕ} {x : Indices} {pt : ℕ} (w : Walked m pgd x pt) (a : ℕ)
    : Type 0 where
  pub off_pgd : Apart a (add64 pgd (x.pgd * 4))
  pub off_p4d : Apart a (add64 w.p4d (x.p4d * 4))
  pub off_pud : Apart a (add64 w.pud (x.pud * 4))
  pub off_pmd : Apart a (add64 w.pmd (x.pmd * 4))

pub walk_walked :
    (m : Memphy) (pgd pt : ℕ) (x : Indices)
    → IsRam m
    → Walked m pgd x pt
    → walk pgd x m ≡ some (some pt, m)
unfolding walk
walk_walked m pgd pt x r w =
    bind_eq (descend pgd x.pgd) _ m m (some w.p4d) (descend-Links m pgd x.pgd w.p4d r w.at_pgd)
    ∙ bind_eq (descend w.p4d x.p4d) _ m m (some w.pud)
        (descend-Links m w.p4d x.p4d w.pud r w.at_p4d)
    ∙ bind_eq (descend w.pud x.pud) _ m m (some w.pmd)
        (descend-Links m w.pud x.pud w.pmd r w.at_pud)
    ∙ descend-Links m w.pmd x.pmd pt r w.at_pmd

Links-put_entry : (m : Memphy) (a v l b : ℕ) → Apart a l → Links m l b → Links (put_entry a v m) l b
Links-put_entry m a v l b apart k =
    let e = entry_at-put_entry-Apart m a v l apart in
    record {
      inside = k.inside;
      present = ap page_present e ∙ k.present;
      target = ap table_base e ∙ k.target;
    }

pub Walked-put_entry :
    (m : Memphy) (pgd pt a v : ℕ) (x : Indices) (w : Walked m pgd x pt)
    → IsOff w a
    → Walked (put_entry a v m) pgd x pt
Walked-put_entry m pgd pt a v x w o = record {
  p4d = w.p4d;
  pud = w.pud;
  pmd = w.pmd;
  at_pgd = Links-put_entry m a v _ _ o.off_pgd w.at_pgd;
  at_p4d = Links-put_entry m a v _ _ o.off_p4d w.at_p4d;
  at_pud = Links-put_entry m a v _ _ o.off_pud w.at_pud;
  at_pmd = Links-put_entry m a v _ _ o.off_pmd w.at_pmd;
}

-- The entry that `pte_set_fpn` makes of the old entry `e`.
abbrev pub online : ℕ → ℕ → ℕ
online e fpn = setval (clrbit (setbit e present_mask) swapped_mask) fpn fpn_mask 0

online_lem : (e fpn : ℕ) → online e fpn ≡ 2 ^ 31 + e / 2 ^ 13 % 2 ^ 17 * 2 ^ 13 + fpn % 2 ^ 13
online_lem e fpn =
    let a : ℕ = e / 2 ^ 32 * 2 ^ 32 + 2 ^ 31 + e % 2 ^ 31 in
    let b : ℕ = 2 ^ 31 + e % 2 ^ 30 in
    let step : clrbit a swapped_mask ≡ b = omega (arith, clrbit_swapped a) in
    rw (setbit_present e, step) (omega (arith, setval_fpn b fpn))

pub Links-online :
    (m : Memphy) (a fpn : ℕ)
    → a + 3 < m.maxsz
    → IsReadable fpn
    → Links (put_entry a (online (entry_at m a) fpn) m) a (fpn % 2 ^ 13 * pagesz)
Links-online m a fpn h readable =
    let v : ℕ = 2 ^ 31 + entry_at m a / 2 ^ 13 % 2 ^ 17 * 2 ^ 13 + fpn % 2 ^ 13 in
    let back : entry_at (put_entry a (online (entry_at m a) fpn) m) a ≡ read_back v =
      entry_at-put_entry m a (online (entry_at m a) fpn)
      ∙ ap read_back (online_lem (entry_at m a) fpn) in
    record {
      inside = h;
      present = ap page_present back ∙ read_back_present v (omega arith);
      target =
          ap table_base back
          ∙ table_base_lem (read_back v)
          ∙ ap (λ (t : ℕ). t * pagesz) (read_back_fpn v (omega arith) ∙ omega arith);
    }

-- With the tables in place `pte_set_fpn` changes the one entry of the page.
pub pte_set_fpn_walked :
    (m : Memphy) (pgd pgn fpn pt : ℕ)
    → IsRam m
    → Walked m pgd (get_pd_from_pagenum pgn) pt
    → let a = add64 pt ((get_pd_from_pagenum pgn).pt * 4) in
      a + 3 < m.maxsz
      → pte_set_fpn pgd pgn fpn m ≡ some (some tt, put_entry a (online (entry_at m a) fpn) m)
unfolding pte_set_fpn
pte_set_fpn_walked m pgd pgn fpn pt r w h =
    let x = get_pd_from_pagenum pgn in
    let a = add64 pt (x.pt * 4) in
    let v = online (entry_at m a) fpn in
    bind_eq (ensure_table pgd x.pgd) _ m m (some w.p4d) (ensure-Links m pgd x.pgd w.p4d r w.at_pgd)
    ∙ bind_eq (ensure_table w.p4d x.p4d) _ m m (some w.pud)
        (ensure-Links m w.p4d x.p4d w.pud r w.at_p4d)
    ∙ bind_eq (ensure_table w.pud x.pud) _ m m (some w.pmd)
        (ensure-Links m w.pud x.pud w.pmd r w.at_pud)
    ∙ bind_eq (ensure_table w.pmd x.pmd) _ m m (some pt) (ensure-Links m w.pmd x.pmd pt r w.at_pmd)
    ∙ bind_eq (get_32bit_entry a) _ m m (entry_at m a) (get_32bit_entry_lem m a r h)
    ∙ bind_eq (write_entry a v) _ m (put_entry a v m) tt (write_entry_lem a v m r h)

-- ===== src/Process/Dump.antt =====
-- print_pgtbl on the page table of a process that no page has been mapped for.
use mathlib.Core.Path.{fun_ext}
use os_assignment.Base.{ℕ, ◌+◌, ◌*◌, ◌<◌, ◌≡◌, refl, ap, sym, subst, ◌∙◌, some, arith}
use os_assignment.Memphy.{Memphy}
use os_assignment.Memphy.Laws.{bind_eq}
use os_assignment.Address.{Indices, get_pd_from_address}
use os_assignment.Table.{add64, get_32bit_entry, table_base, print_pgtbl}
use os_assignment.Table.Entry.{IsRam, entry_at, get_32bit_entry_lem}
use os_assignment.Region.{Mm}
use os_assignment.Process.Memory.{entry_zero}
use os_assignment.Process.Fresh.{IsFresh}

-- The two tables that the first bytes of the RAM lead to have their first entry inside the RAM.
pub record IsPrintable (m : Memphy) : Type 0 where
  pub first : table_base (entry_at m 0) + 3 < m.maxsz
  pub second : table_base (entry_at m (table_base (entry_at m 0))) + 3 < m.maxsz

pub IsPrintable-same :
    (m n : Memphy)
    → ((a : ℕ) → n.storage a ≡ m.storage a)
    → n.maxsz ≡ m.maxsz
    → IsPrintable m
    → IsPrintable n
IsPrintable-same m n bytes size p =
    let same : m.storage ≡ n.storage = fun_ext λ a. sym (bytes a) in
    let e : (ℕ → ℕ) → ℕ → ℕ = λ st a. table_base (entry_at (record m { storage = st }) a) in
    record {
      first =
          subst (λ (st : ℕ → ℕ). e st 0 + 3 < n.maxsz) same
            (subst (λ (k : ℕ). e m.storage 0 + 3 < k) (sym size) p.first);
      second =
          subst (λ (st : ℕ → ℕ). e st (e st 0) + 3 < n.maxsz) same
            (subst (λ (k : ℕ). e m.storage (e m.storage 0) + 3 < k) (sym size) p.second);
    }

zero_indices : get_pd_from_address 0 ≡ record { pgd = 0; p4d = 0; pud = 0; pmd = 0; pt = 0 }
unfolding get_pd_from_address
zero_indices = refl

zero_base : table_base 0 ≡ 0
unfolding table_base
zero_base = refl

read_first :
    (m : Memphy) (a i : ℕ)
    → IsRam m
    → i ≡ 0
    → a + 3 < m.maxsz
    → get_32bit_entry (add64 a (i * 4)) m ≡ some (entry_at m a, m)
read_first m a i r e h =
    let here : add64 a (i * 4) ≡ a = omega (arith, r.size) in
    ap (λ (b : ℕ). get_32bit_entry b m) here ∙ get_32bit_entry_lem m a r h

-- On such a process `print_pgtbl` at address 0 ends, and leaves the RAM as it is.
pub print_pgtbl_fresh :
    (mm : Mm) (m : Memphy) → IsFresh mm m → IsPrintable m → print_pgtbl mm.pgd 0 m ≡ some (tt, m)
unfolding print_pgtbl
print_pgtbl_fresh mm m f p =
    let x = get_pd_from_address 0 in
    let byte : (i : ℕ) → i < 4 → m.storage (mm.pgd + i) ≡ 0 = λ i few. f.cleared i (omega arith) in
    let empty : entry_at m mm.pgd ≡ 0 =
      entry_zero m mm.pgd (byte 0 (omega arith)) (byte 1 (omega arith)) (byte 2 (omega arith))
        (byte 3 (omega arith)) in
    let base : table_base (entry_at m mm.pgd) ≡ 0 = ap table_base empty ∙ zero_base in
    let index : (g : Indices → ℕ) → g x ≡ g _ = λ g. ap g zero_indices in
    let a : ℕ = table_base (entry_at m 0) in
    bind_eq (get_32bit_entry (add64 mm.pgd (x.pgd * 4))) _ m m (entry_at m mm.pgd)
      (read_first m mm.pgd x.pgd f.ram (index (λ y. y.pgd)) (omega (arith, f.room)))
    ∙ bind_eq (get_32bit_entry (add64 (table_base (entry_at m mm.pgd)) (x.p4d * 4))) _ m m
        (entry_at m 0)
        (ap (λ (b : ℕ). get_32bit_entry (add64 b (x.p4d * 4)) m) base
          ∙ read_first m 0 x.p4d f.ram (index (λ y. y.p4d)) (omega (arith, f.room)))
    ∙ bind_eq (get_32bit_entry (add64 a (x.pud * 4))) _ m m (entry_at m a)
        (read_first m a x.pud f.ram (index (λ y. y.pud)) p.first)
    ∙ bind_eq (get_32bit_entry (add64 (table_base (entry_at m a)) (x.pmd * 4))) _ m m
        (entry_at m (table_base (entry_at m a)))
        (read_first m (table_base (entry_at m a)) x.pmd f.ram (index (λ y. y.pmd)) p.second)

-- ===== src/Table.antt =====
-- mm64.c: the five-level page table, which lives in the frames of the simulated RAM. `pgd` is the
-- address that `mm->pgd` holds. A function that returns -1 on an error gives `none` as its result.
pub mod Entry
pub mod ReadBack
pub mod Level
pub mod Mapping
pub mod Walk
pub mod Translate
use os_assignment.Base.{
  ℕ, zero, suc, ◌+◌, ◌-◌, ◌*◌, ◌/◌, ◌%◌, ◌^◌, bit_and, bit_or, Option, none, some, ltb,
  if◌then◌else◌,
}
use os_assignment.Memphy
use os_assignment.Memphy.{Memphy, M, read, write, get_freefp}
use os_assignment.Pte.{
  setbit, clrbit, setval, present_mask, swapped_mask, fpn_mask, swptyp_mask, swpoff_mask,
  page_present,
}
use os_assignment.Address.{Indices, get_pd_from_address, get_pd_from_pagenum, pt_shift}

-- A step on the RAM that may return -1, after which the caller returns -1 as well.
abbrev pub R : Type 0 → Type 0
R A = M (Option A)

abbrev pub pure : {A : Type 0} → A → R A
pure a m = some (some a, m)

abbrev pub fail : {A : Type 0} → R A
fail m = some (none, m)

abbrev pub on_success : {A B : Type 0} → (A → R B) → Option A → M (Option B)
on_success g none = fail
on_success g (some a) = g a

infixl 5 ◌>>=◌ ◌>>◌
abbrev pub ◌>>=◌ : {A B : Type 0} → R A → (A → R B) → R B
f >>= g = Memphy.◌>>=◌ f (on_success g)

-- For a step whose result is dropped.
abbrev pub ◌>>◌ : {A B : Type 0} → M A → R B → R B
f >> g = Memphy.◌>>=◌ f (λ _. g)

-- `PAGING64_PAGESZ`
abbrev pub pagesz : ℕ
pagesz = 4096

-- Addition of addresses.
abbrev pub add64 : ℕ → ℕ → ℕ
add64 a b = (a + b) % 2 ^ 64

-- `(addr_t)byte_val`: BYTE is `char`, which is signed here, so the cast extends the sign.
unfoldable pub sign_extend : ℕ → ℕ
sign_extend b = if ltb b 128 then b else b + (2 ^ 64 - 256)

-- The loop of `get_32bit_entry` at byte `i` with `n` rounds left.
pub entry_from : ℕ → ℕ → ℕ → ℕ → M ℕ
entry_from zero i base entry = Memphy.pure entry
entry_from (suc n) i base entry = Memphy.◌>>=◌ (read (add64 base i)) λ r. elim r [
  | none ↦ Memphy.pure (2 ^ 64 - 1)
  | some b ↦ entry_from n (i + 1) base (bit_or entry (sign_extend b * 2 ^ (i * 8) % 2 ^ 64))
]

unfoldable pub get_32bit_entry : ℕ → M ℕ
get_32bit_entry base = entry_from 4 0 base 0

-- The loops that write an entry, at byte `i` with `n` rounds left; the results of the writes are
-- dropped.
pub write_from : ℕ → ℕ → ℕ → ℕ → M (Unit {0})
write_from zero i addr value = Memphy.pure tt
write_from (suc n) i addr value =
    Memphy.◌>>=◌ (write (add64 addr i) (bit_and (value / 2 ^ (i * 8)) 0xff))
      λ _. write_from n (i + 1) addr value

unfoldable pub write_entry : ℕ → ℕ → M (Unit {0})
write_entry addr value = write_from 4 0 addr value

-- `(entry & 0x1FFF) * PAGING64_PAGESZ`, at most 2 ^ 25
unfoldable pub table_base : ℕ → ℕ
table_base entry = bit_and entry 0x1fff * pagesz

-- One level of the walk of `get_pte_address`: the table that a present entry names.
unfoldable pub descend : ℕ → ℕ → R ℕ
descend base idx =
    Memphy.◌>>=◌ (get_32bit_entry (add64 base (idx * 4)))
      λ e. if page_present e then pure (table_base e) else fail

-- The first four levels of `get_pte_address`.
unfoldable pub walk : ℕ → Indices → R ℕ
walk pgd x = do
  p4d ← descend pgd x.pgd
  pud ← descend p4d x.p4d
  pmd ← descend pud x.pud
  descend pmd x.pmd

unfoldable pub get_pte_address : ℕ → ℕ → R ℕ
get_pte_address pgd pgn = do
  let x = get_pd_from_pagenum pgn
  pt ← walk pgd x
  pure (add64 pt (x.pt * 4))

-- One level and the first four levels of `translate_address`, which has its own copy of the walk.
unfoldable pub follow : ℕ → ℕ → R ℕ
follow base idx =
    Memphy.◌>>=◌ (get_32bit_entry (add64 base (idx * 4)))
      λ e. if page_present e then pure (table_base e) else fail

unfoldable pub translate_walk : ℕ → Indices → R ℕ
translate_walk pgd x = do
  p4d ← follow pgd x.pgd
  pud ← follow p4d x.p4d
  pmd ← follow pud x.pud
  follow pmd x.pmd

unfoldable pub translate_address : ℕ → ℕ → R ℕ
translate_address pgd vaddr = do
  let x = get_pd_from_address vaddr
  pt ← translate_walk pgd x
  page ← follow pt x.pt
  pure (add64 page (bit_and vaddr 0xfff))

-- `print_pgtbl`, of whose work only the reads appear: from each of four entries it goes on to the
-- table that the entry names, whether it is present or not.
unfoldable pub print_pgtbl : ℕ → ℕ → M (Unit {0})
print_pgtbl pgd start =
    let x = get_pd_from_address start in
    Memphy.◌>>=◌ (get_32bit_entry (add64 pgd (x.pgd * 4))) λ pgd_entry.
      Memphy.◌>>=◌ (get_32bit_entry (add64 (table_base pgd_entry) (x.p4d * 4))) λ p4d_entry.
        Memphy.◌>>=◌ (get_32bit_entry (add64 (table_base p4d_entry) (x.pud * 4))) λ pud_entry.
          Memphy.◌>>=◌ (get_32bit_entry (add64 (table_base pud_entry) (x.pmd * 4)))
            λ pmd_entry. Memphy.pure tt

-- The entry as a `uint32_t`; 0 where a table is missing.
unfoldable pub pte_get_entry : ℕ → ℕ → M ℕ
pte_get_entry pgd pgn = Memphy.◌>>=◌ (get_pte_address pgd pgn) λ r. elim r [
  | none ↦ Memphy.pure 0
  | some addr ↦ Memphy.◌>>=◌ (get_32bit_entry addr) λ e. Memphy.pure (e % 2 ^ 32)
]

unfoldable pub pte_set_entry : ℕ → ℕ → ℕ → R (Unit {0})
pte_set_entry pgd pgn pte_val = do addr ← get_pte_address pgd pgn; write_entry addr pte_val; pure tt

unfoldable pub pte_set_swap : ℕ → ℕ → ℕ → ℕ → R (Unit {0})
pte_set_swap pgd pgn swptyp swpoff = do
  addr ← get_pte_address pgd pgn
  Memphy.◌>>=◌ (get_32bit_entry addr) λ e.
      write_entry addr (
        setval (setval (setbit (setbit e present_mask) swapped_mask) swptyp swptyp_mask 0) swpoff
          swpoff_mask 5)
      >> pure tt

-- One of the first four levels of `pte_set_fpn`: a missing table gets a free frame.
unfoldable pub ensure_table : ℕ → ℕ → R ℕ
ensure_table base idx = Memphy.◌>>=◌ (get_32bit_entry (add64 base (idx * 4))) λ e.
    if page_present e then pure (table_base e) else (do
      fpn ← get_freefp
      let entry = setval (setbit 0 present_mask) fpn fpn_mask 0
      write_entry (add64 base (idx * 4)) entry
      pure (table_base entry))

unfoldable pub pte_set_fpn : ℕ → ℕ → ℕ → R (Unit {0})
pte_set_fpn pgd pgn fpn = do
  let x = get_pd_from_pagenum pgn
  p4d ← ensure_table pgd x.pgd
  pud ← ensure_table p4d x.p4d
  pmd ← ensure_table pud x.pud
  pt ← ensure_table pmd x.pmd
  let addr = add64 pt (x.pt * 4)
  Memphy.◌>>=◌ (get_32bit_entry addr) λ e.
      write_entry addr (setval (clrbit (setbit e present_mask) swapped_mask) fpn fpn_mask 0)
      >> pure tt

-- The loop of `vmap_pgd_memset` at `pgit` with `n` rounds left.
pub memset_from : ℕ → ℕ → ℕ → ℕ → R (Unit {0})
memset_from pgd start zero pgit = pure tt
memset_from pgd start (suc n) pgit = do
  u ← pte_set_fpn pgd (add64 start pgit) 0
  memset_from pgd start n (pgit + 1)

unfoldable pub vmap_pgd_memset : ℕ → ℕ → ℕ → R (Unit {0})
vmap_pgd_memset pgd addr pgnum = memset_from pgd (addr / 2 ^ pt_shift) pgnum 0

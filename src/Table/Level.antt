-- ===== src/Table/Level.antt =====
-- One level of a walk through the page table, for reading and for mapping.
use os_assignment.Base.{
  ℕ, ◌+◌, ◌*◌, ◌%◌, ◌^◌, ◌<◌, ◌≡◌, ◌⊎◌, inl, inr, refl, ap, ◌∙◌, sym, true, false, some, List, ◌∷◌,
  arith, Bool-cases, if_eq_true, if_eq_false,
}
use os_assignment.Base.Bits.{bit_and_low}
use os_assignment.Memphy.{Memphy, get_freefp}
use os_assignment.Memphy.Laws.{bind_eq}
use os_assignment.Memphy.Frames.{get_freefp_cons}
use os_assignment.Pte.{setbit, setval, present_mask, fpn_mask, page_present}
use os_assignment.Pte.Fields.{setval_fpn}
use os_assignment.Table.{
  R, add64, pagesz, get_32bit_entry, write_entry, table_base, descend, ensure_table,
}
use os_assignment.Table.Entry.{
  IsRam, entry_at, get_32bit_entry_lem, put_entry, write_entry_lem, put_entry-IsRam, read_back,
  Apart, entry_at-put_entry, entry_at-put_entry-Apart,
}
use os_assignment.Table.ReadBack.{read_back_fpn, read_back_present}

-- The entry at `a` lies in the RAM, is present and names the table at `b`.
pub record Links (m : Memphy) (a b : ℕ) : Type 0 where
  pub inside : a + 3 < m.maxsz
  pub present : page_present (entry_at m a) ≡ true
  pub target : table_base (entry_at m a) ≡ b

pub table_base_lem : (e : ℕ) → table_base e ≡ e % 2 ^ 13 * pagesz
unfolding table_base
table_base_lem e = ap (λ (t : ℕ). t * pagesz) (bit_and_low 13 e)

pub descend-Links :
    (m : Memphy) (base idx b : ℕ)
    → IsRam m
    → Links m (add64 base (idx * 4)) b
    → descend base idx m ≡ some (some b, m)
unfolding descend
descend-Links m base idx b r l =
    bind_eq (get_32bit_entry (add64 base (idx * 4))) _ m m (entry_at m (add64 base (idx * 4)))
      (get_32bit_entry_lem m (add64 base (idx * 4)) r l.inside)
    ∙ ap (λ (f : R ℕ). f m) (if_eq_true _ _ l.present)
    ∙ ap (λ (t : ℕ). some (some t, m)) l.target

pub ensure-Links :
    (m : Memphy) (base idx b : ℕ)
    → IsRam m
    → Links m (add64 base (idx * 4)) b
    → ensure_table base idx m ≡ some (some b, m)
unfolding ensure_table
ensure-Links m base idx b r l =
    bind_eq (get_32bit_entry (add64 base (idx * 4))) _ m m (entry_at m (add64 base (idx * 4)))
      (get_32bit_entry_lem m (add64 base (idx * 4)) r l.inside)
    ∙ ap (λ (f : R ℕ). f m) (if_eq_true _ _ l.present)
    ∙ ap (λ (t : ℕ). some (some t, m)) l.target

-- The entry that `ensure_table` writes for a new table in frame `f`.
abbrev pub table_entry : ℕ → ℕ
table_entry f = setval (setbit 0 present_mask) f fpn_mask 0

table_entry_lem : (f : ℕ) → table_entry f ≡ 2 ^ 31 + f % 2 ^ 13
unfolding setbit
table_entry_lem f = omega (arith, setval_fpn (2 ^ 31) f)

-- A frame number whose lowest byte is below 128.
abbrev pub IsReadable : ℕ → Type 0
IsReadable f = f % 2 ^ 8 < 128

read_back_table :
    (f : ℕ)
    → IsReadable f
    → (page_present (read_back (table_entry f)) ≡ true)
      × (table_base (read_back (table_entry f)) ≡ f % 2 ^ 13 * pagesz)
read_back_table f h = rw (table_entry_lem f) (
  read_back_present (2 ^ 31 + f % 2 ^ 13) (omega arith),
  table_base_lem (read_back (2 ^ 31 + f % 2 ^ 13))
      ∙ ap (λ (t : ℕ). t * pagesz)
          (read_back_fpn (2 ^ 31 + f % 2 ^ 13) (omega arith) ∙ omega arith),
)

ensure_missing :
    (m : Memphy) (base idx f : ℕ) (rest : List ℕ)
    → IsRam m
    → add64 base (idx * 4) + 3 < m.maxsz
    → page_present (entry_at m (add64 base (idx * 4))) ≡ false
    → m.free_fp_list ≡ f ∷ rest
    → ensure_table base idx m
      ≡ some (
        some (table_base (table_entry f)),
        put_entry (add64 base (idx * 4)) (table_entry f) (record m { free_fp_list = rest }),
      )
unfolding ensure_table
ensure_missing m base idx f rest r h absent free =
    let a = add64 base (idx * 4) in
    let n : Memphy = record m { free_fp_list = rest } in
    bind_eq (get_32bit_entry a) _ m m (entry_at m a) (get_32bit_entry_lem m a r h)
    ∙ ap (λ (g : R ℕ). g m) (if_eq_false _ _ absent)
    ∙ bind_eq get_freefp _ m n (some f) (get_freefp_cons m f rest free)
    ∙ bind_eq (write_entry a (table_entry f)) _ n (put_entry a (table_entry f) n) tt
        (write_entry_lem a (table_entry f) n (record { random = r.random; size = r.size }) h)

-- What `ensure_table` gives on `m`: the entry of the result `n` links to the returned table, and
-- no entry apart from it has changed.
pub record Ensured (m : Memphy) (a : ℕ) (b : ℕ) (n : Memphy) : Type 0 where
  pub links : Links n a b
  pub ram : IsRam n
  pub size : n.maxsz ≡ m.maxsz
  pub elsewhere : (other : ℕ) → Apart a other → entry_at n other ≡ entry_at m other

unchanged-Ensured : (m : Memphy) (a b : ℕ) → IsRam m → Links m a b → Ensured m a b m
unchanged-Ensured m a b r l = record { links = l; ram = r; size = refl; elsewhere = λ o h. refl }

table_base_entry : (f : ℕ) → table_base (table_entry f) ≡ f % 2 ^ 13 * pagesz
table_base_entry f =
    ap table_base (table_entry_lem f) ∙ table_base_lem (2 ^ 31 + f % 2 ^ 13) ∙ omega arith

written-Ensured :
    (m : Memphy) (a f : ℕ) (rest : List ℕ)
    → IsRam m
    → a + 3 < m.maxsz
    → IsReadable f
    → Ensured m a
        (table_base (table_entry f))
        (put_entry a (table_entry f) (record m { free_fp_list = rest }))
written-Ensured m a f rest r h readable =
    let v = table_entry f in
    let n : Memphy = record m { free_fp_list = rest } in
    let back = entry_at-put_entry n a v in
    record {
      links = record {
        inside = h;
        present = ap page_present back ∙ (read_back_table f readable).0;
        target = ap table_base back ∙ (read_back_table f readable).1 ∙ sym (table_base_entry f);
      };
      ram = put_entry-IsRam a v n (record { random = r.random; size = r.size });
      size = refl;
      elsewhere = λ other apart. entry_at-put_entry-Apart n a v other apart;
    }

-- When the entry lies inside the RAM and the first free frame has a number whose low byte is below
-- 128, a level of `pte_set_fpn` succeeds. A present entry is kept: the table that it names is
-- returned and nothing changes. For an absent one the first free frame is taken, and the table
-- in it is returned, the frame number cut to 13 bits. Then the entry links to the table that is
-- returned, as a later walk sees it, and no entry apart from it has changed.
pub ensure_table-Ensured :
    (m : Memphy) (base idx f : ℕ) (rest : List ℕ)
    → IsRam m
    → add64 base (idx * 4) + 3 < m.maxsz
    → m.free_fp_list ≡ f ∷ rest
    → IsReadable f
    → (b : ℕ) × (n : Memphy) × (ensure_table base idx m ≡ some (some b, n))
      × Ensured m (add64 base (idx * 4)) b n
      × (descend base idx n ≡ some (some b, n))
      × (let e = entry_at m (add64 base (idx * 4)) in
          ((page_present e ≡ true) × (b ≡ table_base e) × (n ≡ m))
          ⊎ ((page_present e ≡ false) × (b ≡ f % 2 ^ 13 * pagesz) × (n.free_fp_list ≡ rest)))
ensure_table-Ensured m base idx f rest r h free readable =
    let a = add64 base (idx * 4) in
    elim (Bool-cases (page_present (entry_at m a))) [
      | inl there ↦
          let l : Links m a (table_base (entry_at m a)) = record {
            inside = h;
            present = there;
            target = refl;
          } in
          (
            table_base (entry_at m a),
            m,
            ensure-Links m base idx _ r l,
            unchanged-Ensured m a _ r l,
            descend-Links m base idx _ r l,
            inl (there, refl, refl),
          )
      | inr absent ↦
          let n : Memphy = record m { free_fp_list = rest } in
          let e = written-Ensured m a f rest r h readable in
          (
            table_base (table_entry f),
            put_entry a (table_entry f) n,
            ensure_missing m base idx f rest r h absent free,
            e,
            descend-Links (put_entry a (table_entry f) n) base idx _ e.ram e.links,
            inr (absent, table_base_entry f, refl),
          )
    ]

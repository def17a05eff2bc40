-- ===== src/Table/Walk.antt =====
-- Whole walks through the page table.
use mathlib.Core.Path.{fun_ext}
use os_assignment.Base.{
  ℕ, ◌*◌, ◌/◌, ◌%◌, ◌^◌, ◌≡◌, refl, ap₂, ◌∙◌, sym, if◌then◌else◌, arith, bit_and,
}
use os_assignment.Base.Bits.{bit_and_low}
use os_assignment.Memphy
use os_assignment.Memphy.{Memphy}
use os_assignment.Address.{Indices, get_pd_from_address, pt_shift}
use os_assignment.Address.Laws.{get_pd_from_pagenum_lem}
use os_assignment.Table.{
  R, pure, fail, ◌>>=◌, add64, pagesz, get_32bit_entry, table_base, descend, follow, walk,
  translate_walk, get_pte_address, translate_address,
}
use os_assignment.Pte.{page_present}

bind_assoc :
    {A B C : Type 0} (f : R A) (g : A → R B) (h : B → R C)
    → ((f >>= g) >>= h) ≡ (f >>= λ a. g a >>= h)
bind_assoc f g h = fun_ext λ m. ground arith

-- The page that the entry at `addr` names, if it is present.
abbrev pub entry_target : ℕ → R ℕ
entry_target addr =
    Memphy.◌>>=◌ (get_32bit_entry addr) λ e. if page_present e then pure (table_base e) else fail

descend_target : (base idx : ℕ) → descend base idx ≡ entry_target (add64 base (idx * 4))
unfolding descend
descend_target base idx = refl

-- Translating an address is finding the entry of its page and following it: the two walks go
-- through the same tables, and fail alike.
pub translate_address_lem :
    (pgd vaddr : ℕ)
    → translate_address pgd vaddr ≡ (do
      addr ← get_pte_address pgd (vaddr / 2 ^ pt_shift)
      page ← entry_target addr
      pure (add64 page (vaddr % pagesz)))
unfolding translate_address get_pte_address translate_walk walk follow descend
translate_address_lem pgd vaddr =
    let x = get_pd_from_address vaddr in
    sym (
      ap₂
        (λ (y : Indices) (o : ℕ). (walk pgd y >>= λ pt. pure (add64 pt (y.pt * 4))) >>= λ a.
          entry_target a >>= λ page. pure (add64 page o))
        (get_pd_from_pagenum_lem vaddr) (sym (bit_and_low 12 vaddr))
      ∙ bind_assoc (walk pgd x) (λ pt. pure (add64 pt (x.pt * 4)))
          (λ a. entry_target a >>= λ page. pure (add64 page (bit_and vaddr 0xfff))))

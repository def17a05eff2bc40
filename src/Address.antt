-- ===== src/Address.antt =====
-- The five levels of a 57-bit virtual address: the macros of mm64.h, `get_pd_from_address` and
-- `get_pd_from_pagenum` of mm64.c.
pub mod Laws
use os_assignment.Base.{ℕ, ◌-◌, ◌*◌, ◌/◌, ◌%◌, ◌^◌, bit_and}

-- `GENMASK64(h, l)`
abbrev pub genmask64 : ℕ → ℕ → ℕ
genmask64 h l = bit_and ((2 ^ 64 - 1) * 2 ^ l % 2 ^ 64) ((2 ^ 64 - 1) / 2 ^ (64 - h - 1))

-- The five indices that the functions return through pointers.
pub record Indices : Type 0 where
  pub pgd : ℕ
  pub p4d : ℕ
  pub pud : ℕ
  pub pmd : ℕ
  pub pt : ℕ

unfoldable pub get_pd_from_address : ℕ → Indices
get_pd_from_address addr = record {
  pgd = bit_and addr (genmask64 56 48) / 2 ^ 48;
  p4d = bit_and addr (genmask64 47 39) / 2 ^ 39;
  pud = bit_and addr (genmask64 38 30) / 2 ^ 30;
  pmd = bit_and addr (genmask64 29 21) / 2 ^ 21;
  pt = bit_and addr (genmask64 20 12) / 2 ^ 12;
}

-- `PAGING64_ADDR_PT_SHIFT`
abbrev pub pt_shift : ℕ
pt_shift = 12

unfoldable pub get_pd_from_pagenum : ℕ → Indices
unfolding get_pd_from_address
get_pd_from_pagenum pgn = get_pd_from_address (pgn * 2 ^ pt_shift % 2 ^ 64)

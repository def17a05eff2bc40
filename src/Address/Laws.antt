-- ===== src/Address/Laws.antt =====
-- The indices are the nine-bit digits of the address.
use native.Mathlib.Nat.{mul-div_cancel}
use os_assignment.Base.{◌∙◌, sym, ℕ, ◌+◌, ◌*◌, ◌/◌, ◌%◌, ◌^◌, ◌<◌, ◌≡◌, ap, bit_and, arith}
use os_assignment.Base.Bits.{bit_and_low, bit_and_high}
use os_assignment.Address.{Indices, get_pd_from_address, get_pd_from_pagenum}

-- `(addr & (0x1ff << l)) >> l`
digit : (l addr : ℕ) → 0 < 2 ^ l → bit_and addr (511 * 2 ^ l) / 2 ^ l ≡ addr / 2 ^ l % 2 ^ 9
digit l addr h =
    ap (λ (t : ℕ). t / 2 ^ l) (bit_and_high l addr 511)
    ∙ mul-div_cancel (bit_and (addr / 2 ^ l) 511) h
    ∙ bit_and_low 9 (addr / 2 ^ l)

-- The base-512 digits of a page number.
abbrev pub digits : ℕ → Indices
digits pgn = record {
  pgd = pgn / 2 ^ 36 % 2 ^ 9;
  p4d = pgn / 2 ^ 27 % 2 ^ 9;
  pud = pgn / 2 ^ 18 % 2 ^ 9;
  pmd = pgn / 2 ^ 9 % 2 ^ 9;
  pt = pgn % 2 ^ 9;
}

pub digits_of_address : (addr : ℕ) → get_pd_from_address addr ≡ digits (addr / 2 ^ 12)
unfolding get_pd_from_address
digits_of_address addr =
    let pgd : bit_and addr (511 * 2 ^ 48) / 2 ^ 48 ≡ addr / 2 ^ 12 / 2 ^ 36 % 2 ^ 9 =
      omega (arith, digit 48 addr (omega arith)) in
    let p4d : bit_and addr (511 * 2 ^ 39) / 2 ^ 39 ≡ addr / 2 ^ 12 / 2 ^ 27 % 2 ^ 9 =
      omega (arith, digit 39 addr (omega arith)) in
    let pud : bit_and addr (511 * 2 ^ 30) / 2 ^ 30 ≡ addr / 2 ^ 12 / 2 ^ 18 % 2 ^ 9 =
      omega (arith, digit 30 addr (omega arith)) in
    let pmd : bit_and addr (511 * 2 ^ 21) / 2 ^ 21 ≡ addr / 2 ^ 12 / 2 ^ 9 % 2 ^ 9 =
      omega (arith, digit 21 addr (omega arith)) in
    λ i. record {
      pgd = pgd i;
      p4d = p4d i;
      pud = pud i;
      pmd = pmd i;
      pt = digit 12 addr (omega arith) i;
    }

pub digits_of_pagenum : (pgn : ℕ) → get_pd_from_pagenum pgn ≡ digits pgn
unfolding get_pd_from_pagenum
digits_of_pagenum pgn = digits_of_address (pgn * 2 ^ 12 % 2 ^ 64) ∙ same
  where
    same : digits (pgn * 2 ^ 12 % 2 ^ 64 / 2 ^ 12) ≡ digits pgn
    same = ground arith

-- The number that the five indices and an offset stand for.
abbrev pub join_address : Indices → ℕ → ℕ
join_address x offset =
    x.pgd * 2 ^ 48 + x.p4d * 2 ^ 39 + x.pud * 2 ^ 30 + x.pmd * 2 ^ 21 + x.pt * 2 ^ 12 + offset

-- Every index fits a table of 512 entries.
pub record AreIndices (x : Indices) : Type 0 where
  pub pgd_lt : x.pgd < 512
  pub p4d_lt : x.p4d < 512
  pub pud_lt : x.pud < 512
  pub pmd_lt : x.pmd < 512
  pub pt_lt : x.pt < 512

-- The five indices are below 512, and with the offset in the page they make up the low 57 bits of
-- the address.
pub join-get_pd_from_address :
    (addr : ℕ)
    → AreIndices (get_pd_from_address addr)
      × (join_address (get_pd_from_address addr) (addr % 2 ^ 12) ≡ addr % 2 ^ 57)
join-get_pd_from_address addr = rw (digits_of_address addr) (omega arith, omega arith)

-- The indices of a page number are those of every address in the page.
pub get_pd_from_pagenum_lem :
    (addr : ℕ) → get_pd_from_pagenum (addr / 2 ^ 12) ≡ get_pd_from_address addr
get_pd_from_pagenum_lem addr = digits_of_pagenum (addr / 2 ^ 12) ∙ sym (digits_of_address addr)

-- Two page numbers of 45 bits with the same indices are equal.
pub get_pd_from_pagenum-injective :
    (p q : ℕ) → p < 2 ^ 45 → q < 2 ^ 45 → get_pd_from_pagenum p ≡ get_pd_from_pagenum q → p ≡ q
get_pd_from_pagenum-injective p q hp hq e =
    let same : digits p ≡ digits q = sym (digits_of_pagenum p) ∙ e ∙ digits_of_pagenum q in
    omega (
      arith,
      ap (λ (x : Indices). x.pgd) same,
      ap (λ (x : Indices). x.p4d) same,
      ap (λ (x : Indices). x.pud) same,
      ap (λ (x : Indices). x.pmd) same,
      ap (λ (x : Indices). x.pt) same,
    )

-- ===== src/Table/ReadBack.antt =====
-- What is left of a value that is written as an entry and read again: `char` is signed, so a
-- byte of 128 or more sets all the bits above it.
use native.Mathlib.Nat.{pow-suc, one-le-pow}
use os_assignment.Base.{
  some, Bool-cases, inl, inr, if◌then◌else◌, ltb, ℕ, zero, suc, ◌+◌, ◌-◌, ◌*◌, ◌/◌, ◌%◌, ◌^◌, ◌≤◌,
  ◌<◌, ◌≡◌, ap, ap₂, ◌∙◌, true, arith, bit_or,
}
use os_assignment.Base.Bits.{
  bit_or-zero, zero-bit_or, bit_or_split, mod-bit_or, div-bit_or, or_digit,
}
use os_assignment.Pte.{page_present}
use os_assignment.Pte.Fields.{page_present_lem}
use os_assignment.Memphy.{Memphy}
use os_assignment.Table.{sign_extend, get_32bit_entry, write_entry}
use os_assignment.Table.Entry.{
  extended, byte, read_back, IsRam, entry_at, put_entry, entry_at-put_entry, write_entry_lem,
  get_32bit_entry_lem, put_entry-IsRam,
}

-- `q << 8 | r` with the operands the other way round.
sum_or : (k q r : ℕ) → r < 2 ^ k → bit_or r (q * 2 ^ k) ≡ q * 2 ^ k + r
sum_or k q r h = ground (arith, bit_or_split k 0 r q 0, zero-bit_or q, bit_or-zero r)

or_ones : (k x : ℕ) → x < 2 ^ k → bit_or (2 ^ k - 1) x ≡ 2 ^ k - 1
or_ones zero x h = ground (arith, bit_or-zero 0)
or_ones (suc k) x h = ground (
  arith,
  or_digit (2 ^ suc k - 1) x,
  pow-suc 2 k,
  one-le-pow k 2,
  or_ones k (x / 2) (omega (arith, pow-suc 2 k)),
)

-- The four operands of the disjunction, one bit field of them each.
low_bits :
    (v : ℕ) → read_back v % 2 ^ 13 ≡ bit_or (extended (byte v 0) 0 % 2 ^ 13) (byte v 1 % 32 * 2 ^ 8)
unfolding sign_extend
low_bits v =
    let a = extended (byte v 0) 0 in
    let b = extended (byte v 1) 1 in
    let c = extended (byte v 2) 2 in
    let d = extended (byte v 3) 3 in
    let b' : b % 2 ^ 13 ≡ byte v 1 % 32 * 2 ^ 8 = ground arith in
    let c' : c % 2 ^ 13 ≡ 0 = ground arith in
    let d' : d % 2 ^ 13 ≡ 0 = ground arith in
    mod-bit_or 13 (bit_or (bit_or (bit_or 0 a) b) c) d
    ∙ ap₂ bit_or
        (mod-bit_or 13 (bit_or (bit_or 0 a) b) c
          ∙ ap₂ bit_or
              (mod-bit_or 13 (bit_or 0 a) b
                ∙ ap₂ bit_or (ap (λ (t : ℕ). t % 2 ^ 13) (zero-bit_or a)) b')
              c'
          ∙ bit_or-zero _)
        d'
    ∙ bit_or-zero _

-- A value whose lowest byte is below 128 keeps its low 13 bits, the frame number.
pub read_back_fpn : (v : ℕ) → byte v 0 < 128 → read_back v % 2 ^ 13 ≡ v % 2 ^ 13
unfolding sign_extend
read_back_fpn v h =
    let a : extended (byte v 0) 0 % 2 ^ 13 ≡ byte v 0 = ground arith in
    low_bits v
    ∙ ap (λ (t : ℕ). bit_or t (byte v 1 % 32 * 2 ^ 8)) a
    ∙ ground (arith, sum_or 8 (byte v 1 % 32) (byte v 0))

-- A value whose lowest byte is 128 or more reads back with the bits 8 to 12 all set.
pub read_back_extended : (v : ℕ) → 128 ≤ byte v 0 → read_back v % 2 ^ 13 ≡ 0x1f00 + byte v 0
unfolding sign_extend
read_back_extended v h =
    let a : extended (byte v 0) 0 % 2 ^ 13 ≡ 31 * 2 ^ 8 + byte v 0 = ground arith in
    low_bits v
    ∙ ap (λ (t : ℕ). bit_or t (byte v 1 % 32 * 2 ^ 8)) a
    ∙ ground (
      arith,
      bit_or_split 8 31 (byte v 0) (byte v 1 % 32) 0,
      or_ones 5 (byte v 1 % 32),
      bit_or-zero (byte v 0),
    )

-- A present entry reads back as present.
pub read_back_present : (v : ℕ) → v / 2 ^ 31 % 2 ≡ 1 → page_present (read_back v) ≡ true
unfolding sign_extend
read_back_present v h =
    let c =
      bit_or (bit_or (bit_or 0 (extended (byte v 0) 0)) (extended (byte v 1) 1))
        (extended (byte v 2) 2) in
    let d = extended (byte v 3) 3 in
    let d' : d / 2 ^ 31 % 2 ≡ 1 = ground arith in
    page_present_lem (read_back v)
    ∙ ground (arith, div-bit_or 31 c d, or_digit (c / 2 ^ 31) (d / 2 ^ 31))

-- Reading an entry inside the RAM after writing a value there succeeds. The value read is present
-- if the value written is. Its frame number is that of the value if the lowest byte is below
-- 128; else the bits 8 to 12 of the frame number are all set.
pub get_32bit_entry-write_entry :
    (m : Memphy) (addr v : ℕ)
    → IsRam m
    → addr + 3 < m.maxsz
    → (n : Memphy) × (e : ℕ) × (write_entry addr v m ≡ some (tt, n))
      × (get_32bit_entry addr n ≡ some (e, n))
      × (e % 2 ^ 13 ≡ (if ltb (v % 2 ^ 8) 128 then v % 2 ^ 13 else 0x1f00 + v % 2 ^ 8))
      × (v / 2 ^ 31 % 2 ≡ 1 → page_present e ≡ true)
get_32bit_entry-write_entry m addr v r h =
    let n = put_entry addr v m in
    let back = entry_at-put_entry m addr v in
    let low : read_back v % 2 ^ 13
        ≡ (if ltb (v % 2 ^ 8) 128 then v % 2 ^ 13 else 0x1f00 + v % 2 ^ 8) =
      elim (Bool-cases (ltb (v % 2 ^ 8) 128)) [
        | inl small ↦ rw small (read_back_fpn v (ground arith))
        | inr large ↦ rw large (read_back_extended v (ground arith) ∙ omega arith)
      ] in
    (
      n,
      entry_at n addr,
      write_entry_lem addr v m r h,
      get_32bit_entry_lem n addr (put_entry-IsRam addr v m r) h,
      ap (λ (e : ℕ). e % 2 ^ 13) back ∙ low,
      λ p. ap page_present back ∙ read_back_present v p,
    )

-- ===== src/Table/Entry.antt =====
-- Reading and writing one entry of a page table in random-access RAM.
use os_assignment.Base.{
  ℕ, suc, ◌+◌, ◌*◌, ◌/◌, ◌%◌, ◌^◌, ◌<◌, ◌≡◌, refl, ap, ap₂, ◌∙◌, true, some, ◌⊎◌, arith, bit_and,
  bit_or, update,
}
use os_assignment.Base.Bits.{bit_and_low}
use os_assignment.Memphy.{Memphy, done, read, write}
use os_assignment.Memphy.Laws.{read_random, write_random, bind_eq}
use os_assignment.Table.{add64, sign_extend, entry_from, get_32bit_entry, write_from, write_entry}

-- A random-access device whose size is a non-negative `int`.
pub record IsRam (m : Memphy) : Type 0 where
  pub random : m.rdmflg ≡ true
  pub size : m.maxsz < 2 ^ 31

-- The device with byte `i` of the value stored at `addr + i`.
abbrev pub put_byte : ℕ → ℕ → ℕ → Memphy → Memphy
put_byte addr value i m = record m {
  storage = update m.storage (addr + i) (value / 2 ^ (i * 8) % 2 ^ 8);
}

-- The device after the four writes.
abbrev pub put_entry : ℕ → ℕ → Memphy → Memphy
put_entry addr value m =
    put_byte addr value 3 (put_byte addr value 2 (put_byte addr value 1 (put_byte addr value 0 m)))

-- What `get_32bit_entry` makes of the byte `b` at position `i`.
abbrev pub extended : ℕ → ℕ → ℕ
extended b i = sign_extend b * 2 ^ (i * 8) % 2 ^ 64

-- The value that it makes of the four bytes from `addr` on.
abbrev pub entry_at : Memphy → ℕ → ℕ
entry_at m addr =
    bit_or
      (bit_or
        (bit_or (bit_or 0 (extended (m.storage (addr + 0)) 0)) (extended (m.storage (addr + 1)) 1))
        (extended (m.storage (addr + 2)) 2))
      (extended (m.storage (addr + 3)) 3)

add64_inside : (a i n : ℕ) → a + i < n → n < 2 ^ 31 → add64 a i ≡ a + i
add64_inside a i n h h' = omega arith

read_byte :
    (m : Memphy) (base i : ℕ)
    → IsRam m
    → base + i < m.maxsz
    → read (add64 base i) m ≡ some (some (m.storage (base + i)), m)
read_byte m base i r h =
    ap (λ (a : ℕ). read a m) (add64_inside base i m.maxsz h r.size)
    ∙ read_random m (base + i) r.random h

entry_from_step :
    (n i base e : ℕ) (m : Memphy)
    → IsRam m
    → base + i < m.maxsz
    → entry_from (suc n) i base e m
      ≡ entry_from n (i + 1) base (bit_or e (extended (m.storage (base + i)) i)) m
unfolding entry_from
entry_from_step n i base e m r h =
    bind_eq (read (add64 base i)) _ m m (some (m.storage (base + i))) (read_byte m base i r h)

-- Inside the RAM `get_32bit_entry` reads the entry and changes nothing.
pub get_32bit_entry_lem :
    (m : Memphy) (base : ℕ)
    → IsRam m
    → base + 3 < m.maxsz
    → get_32bit_entry base m ≡ some (entry_at m base, m)
unfolding get_32bit_entry
get_32bit_entry_lem m base r h =
    entry_from_step 3 0 base 0 m r (omega arith)
    ∙ entry_from_step 2 1 base _ m r (omega arith)
    ∙ entry_from_step 1 2 base _ m r (omega arith)
    ∙ entry_from_step 0 3 base _ m r h
    ∙ unfold entry_from in refl

write_byte :
    (addr value i : ℕ) (m : Memphy)
    → IsRam m
    → addr + i < m.maxsz
    → write (add64 addr i) (bit_and (value / 2 ^ (i * 8)) 0xff) m
      ≡ some (done, put_byte addr value i m)
write_byte addr value i m r h =
    ap₂ (λ (a v : ℕ). write a v m) (add64_inside addr i m.maxsz h r.size)
      (bit_and_low 8 (value / 2 ^ (i * 8)))
    ∙ write_random m (addr + i) (value / 2 ^ (i * 8) % 2 ^ 8) r.random h

write_step :
    (n i addr value : ℕ) (m : Memphy)
    → IsRam m
    → addr + i < m.maxsz
    → write_from (suc n) i addr value m ≡ write_from n (i + 1) addr value (put_byte addr value i m)
unfolding write_from
write_step n i addr value m r h =
    bind_eq (write (add64 addr i) (bit_and (value / 2 ^ (i * 8)) 0xff)) _ m
      (put_byte addr value i m) done (write_byte addr value i m r h)

put_byte-IsRam : (addr value i : ℕ) (m : Memphy) → IsRam m → IsRam (put_byte addr value i m)
put_byte-IsRam addr value i m r = record { random = r.random; size = r.size }

pub put_entry-IsRam : (addr value : ℕ) (m : Memphy) → IsRam m → IsRam (put_entry addr value m)
put_entry-IsRam addr value m r = record { random = r.random; size = r.size }

-- Inside the RAM the four writes of an entry succeed.
pub write_entry_lem :
    (addr value : ℕ) (m : Memphy)
    → IsRam m
    → addr + 3 < m.maxsz
    → write_entry addr value m ≡ some (tt, put_entry addr value m)
unfolding write_entry
write_entry_lem addr value m r h =
    let b = put_byte addr value in
    let r' = put_byte-IsRam addr value in
    write_step 3 0 addr value m r (omega arith)
    ∙ write_step 2 1 addr value (b 0 m) (r' 0 m r) (omega arith)
    ∙ write_step 1 2 addr value (b 1 (b 0 m)) (r' 1 _ (r' 0 m r)) (omega arith)
    ∙ write_step 0 3 addr value (b 2 (b 1 (b 0 m))) (r' 2 _ (r' 1 _ (r' 0 m r))) h
    ∙ unfold write_from in refl

-- Byte `i` of a value.
abbrev pub byte : ℕ → ℕ → ℕ
byte value i = value / 2 ^ (i * 8) % 2 ^ 8

-- What reading an entry gives after writing the value.
abbrev pub read_back : ℕ → ℕ
read_back v =
    bit_or
      (bit_or (bit_or (bit_or 0 (extended (byte v 0) 0)) (extended (byte v 1) 1))
        (extended (byte v 2) 2))
      (extended (byte v 3) 3)

pub entry_at-put_entry :
    (m : Memphy) (addr v : ℕ) → entry_at (put_entry addr v m) addr ≡ read_back v
entry_at-put_entry m addr v =
    let n = put_entry addr v m in
    let e₀ : n.storage (addr + 0) ≡ byte v 0 = ground arith in
    let e₁ : n.storage (addr + 1) ≡ byte v 1 = ground arith in
    let e₂ : n.storage (addr + 2) ≡ byte v 2 = ground arith in
    let e₃ : n.storage (addr + 3) ≡ byte v 3 = ground arith in
    λ i.
      bit_or
        (bit_or (bit_or (bit_or 0 (extended (e₀ i) 0)) (extended (e₁ i) 1)) (extended (e₂ i) 2))
        (extended (e₃ i) 3)

-- Two entries that do not overlap.
abbrev pub Apart : ℕ → ℕ → Type 0
Apart a b = (a + 3 < b) ⊎ (b + 3 < a)

pub entry_at-put_entry-Apart :
    (m : Memphy) (addr v other : ℕ)
    → Apart addr other
    → entry_at (put_entry addr v m) other ≡ entry_at m other
entry_at-put_entry-Apart m addr v other h =
    let n = put_entry addr v m in
    let e₀ : n.storage (other + 0) ≡ m.storage (other + 0) = ground arith in
    let e₁ : n.storage (other + 1) ≡ m.storage (other + 1) = ground arith in
    let e₂ : n.storage (other + 2) ≡ m.storage (other + 2) = ground arith in
    let e₃ : n.storage (other + 3) ≡ m.storage (other + 3) = ground arith in
    λ i.
      bit_or
        (bit_or (bit_or (bit_or 0 (extended (e₀ i) 0)) (extended (e₁ i) 1)) (extended (e₂ i) 2))
        (extended (e₃ i) 3)

-- ===== src/Process/Memory.antt =====
-- init_mm: a new process has an empty page table of its own.
use os_assignment.Base.{
  ℕ, zero, suc, ◌+◌, ◌*◌, ◌%◌, ◌^◌, ◌<◌, ◌≤◌, ◌≡◌, ◌⊎◌, refl, ap, ◌∙◌, false, ◌&&◌, none, some,
  List, [], ◌∷◌, arith, ltb, leb, if◌then◌else◌, update, if_eq_false, bit_or,
}
use os_assignment.Memphy
use os_assignment.Memphy.{Memphy, done, write, get_freefp}
use os_assignment.Memphy.Laws.{bind_eq, write_random}
use os_assignment.Memphy.Frames.{get_freefp_cons}
use os_assignment.Address.{Indices, get_pd_from_address}
use os_assignment.Address.Laws.{digits_of_address}
use os_assignment.Pte.{page_present}
use os_assignment.Table.{
  R, pure, fail, table_base, sign_extend, add64, pagesz, get_32bit_entry, descend, follow,
  translate_walk, translate_address,
}
use os_assignment.Table.Entry.{IsRam, entry_at, extended, get_32bit_entry_lem}
use os_assignment.Table.Mapping.{follow-descend}
use os_assignment.Map.{Region}
use os_assignment.Region.{Mm}
use os_assignment.Process.{clear_from, init_mm}

-- `m` with `n` bytes from `base + i` on cleared.
pub record Cleared (base i n : ℕ) (m final : Memphy) : Type 0 where
  pub bytes :
      (a : ℕ)
      → final.storage a ≡ (if leb (base + i) a && ltb a (base + i + n) then 0 else m.storage a)
  pub ram : IsRam final
  pub size : final.maxsz ≡ m.maxsz
  pub frames : final.free_fp_list ≡ m.free_fp_list

clear_from-Cleared :
    (base n i : ℕ) (m : Memphy)
    → IsRam m
    → base + i + n ≤ m.maxsz
    → (final : Memphy) × (clear_from base n i m ≡ some (tt, final)) × Cleared base i n m final
unfolding clear_from
clear_from-Cleared base zero i m r h =
    (m, refl, record { bytes = λ a. ground arith; ram = r; size = refl; frames = refl })
clear_from-Cleared base (suc n) i m r h =
    let next : Memphy = record m { storage = update m.storage (base + i) 0 } in
    let wrote : write (add64 base i) 0 m ≡ some (done, next) =
      ap (λ (a : ℕ). write a 0 m) (omega (arith, r.size))
      ∙ write_random m (base + i) 0 r.random (omega arith) in
    let (final, ran, c) =
      clear_from-Cleared base n (i + 1) next (record { random = r.random; size = r.size })
        (omega arith) in
    (
      final,
      bind_eq (write (add64 base i) 0) _ m next done wrote ∙ ran,
      record {
        bytes = λ a. c.bytes a ∙ ground arith;
        ram = c.ram;
        size = c.size;
        frames = c.frames;
      },
    )

pub entry_zero :
    (m : Memphy) (a : ℕ)
    → m.storage (a + 0) ≡ 0
    → m.storage (a + 1) ≡ 0
    → m.storage (a + 2) ≡ 0
    → m.storage (a + 3) ≡ 0
    → entry_at m a ≡ 0
unfolding sign_extend
entry_zero m a h h' h'' h''' =
    ap
      (λ (x : ℕ).
        bit_or
          (bit_or (bit_or (bit_or 0 (extended x 0)) (extended (m.storage (a + 1)) 1))
            (extended (m.storage (a + 2)) 2))
          (extended (m.storage (a + 3)) 3))
      h
    ∙ ap
        (λ (x : ℕ).
          bit_or (bit_or (bit_or 0 (extended x 1)) (extended (m.storage (a + 2)) 2))
            (extended (m.storage (a + 3)) 3))
        h'
    ∙ ap (λ (x : ℕ). bit_or (bit_or 0 (extended x 2)) (extended (m.storage (a + 3)) 3)) h''
    ∙ ap (λ (x : ℕ). bit_or 0 (extended x 3)) h'''

pub absent_walk :
    (m : Memphy) (base idx : ℕ)
    → IsRam m
    → base + pagesz ≤ m.maxsz
    → idx < 512
    → ((a : ℕ) → a < pagesz → m.storage (base + a) ≡ 0)
    → descend base idx m ≡ some (none, m)
unfolding descend
absent_walk m base idx r h small cleared =
    let a : ℕ = base + idx * 4 in
    let here : add64 base (idx * 4) ≡ a = omega (arith, r.size) in
    let byte : (i : ℕ) → i < 4 → m.storage (a + i) ≡ 0 =
      λ i few. ap (λ (x : ℕ). m.storage x) (omega arith) ∙ cleared (idx * 4 + i) (omega arith) in
    let empty : entry_at m a ≡ 0 =
      entry_zero m a (byte 0 (omega arith)) (byte 1 (omega arith)) (byte 2 (omega arith))
        (byte 3 (omega arith)) in
    let absent : page_present (entry_at m a) ≡ false =
      ap page_present empty ∙ unfold page_present in refl in
    ap
      (λ (b : ℕ).
        Memphy.◌>>=◌ (get_32bit_entry b) (λ e. if page_present e then pure (table_base e) else fail)
          m)
      here
    ∙ bind_eq (get_32bit_entry a) _ m m (entry_at m a) (get_32bit_entry_lem m a r (omega arith))
    ∙ ap (λ (f : R ℕ). f m) (if_eq_false _ _ absent)

absent_translate :
    (m : Memphy) (pgd vaddr : ℕ)
    → IsRam m
    → pgd + pagesz ≤ m.maxsz
    → ((a : ℕ) → a < pagesz → m.storage (pgd + a) ≡ 0)
    → translate_address pgd vaddr m ≡ some (none, m)
unfolding translate_address translate_walk
absent_translate m pgd vaddr r h cleared =
    let x = get_pd_from_address vaddr in
    let small : x.pgd < 512 =
      omega (arith, ap (λ (y : Indices). y.pgd) (digits_of_address vaddr)) in
    bind_eq (translate_walk pgd x) _ m m none (
      bind_eq (follow pgd x.pgd) _ m m none (
        ap (λ (f : R ℕ). f m) (follow-descend pgd x.pgd)
        ∙ absent_walk m pgd x.pgd r h small cleared))

-- The `mm` that `init_mm` makes with the frame `f`.
abbrev pub new_mm : List Region → ℕ → Mm
new_mm junk f = record {
  pgd = f * pagesz % 2 ^ 64;
  mmap =
      record {
        vm_id = 0;
        vm_start = 0;
        vm_end = 0;
        sbrk = 0;
        vm_freerg_list = record { rg_start = 0; rg_end = 0 } ∷ junk;
      }
      ∷ [];
  symrgtbl = λ i. record { rg_start = 0; rg_end = 0 };
  fifo_pgn = [];
}

pub init_mm-Cleared :
    (junk : List Region) (m : Memphy) (f : ℕ) (rest : List ℕ)
    → IsRam m
    → m.free_fp_list ≡ f ∷ rest
    → f * pagesz + pagesz ≤ m.maxsz
    → (n : Memphy) × (init_mm junk m ≡ some (some (new_mm junk f), n))
      × Cleared (f * pagesz) 0 pagesz (record m { free_fp_list = rest }) n
unfolding init_mm
init_mm-Cleared junk m f rest r free h =
    let start : Memphy = record m { free_fp_list = rest } in
    let (n, ran, c) =
      clear_from-Cleared (f * pagesz) pagesz 0 start (record { random = r.random; size = r.size })
        (omega arith) in
    let pgd : f * pagesz % 2 ^ 64 ≡ f * pagesz = omega (arith, r.size) in
    let ran' : clear_from (f * pagesz % 2 ^ 64) pagesz 0 start ≡ some (tt, n) =
      ap (λ (b : ℕ). clear_from b pagesz 0 start) pgd ∙ ran in
    (
      n,
      bind_eq get_freefp _ m start (some f) (get_freefp_cons m f rest free)
          ∙ bind_eq (clear_from (f * pagesz % 2 ^ 64) pagesz 0) _ start n tt ran',
      c,
    )

-- When the first free frame `f` lies in the RAM, `init_mm` takes it and succeeds, clears each of
-- its 4096 bytes, and leaves every byte outside it and the order of the other free frames as they were; in the new page table no
-- address has a translation.
pub init_mm-translate_address :
    (junk : List Region) (m : Memphy) (f : ℕ) (rest : List ℕ)
    → IsRam m
    → m.free_fp_list ≡ f ∷ rest
    → f * pagesz + pagesz ≤ m.maxsz
    → (mm : Mm) × (n : Memphy) × (init_mm junk m ≡ some (some mm, n))
      × (n.free_fp_list ≡ rest)
      × ((a : ℕ) → a < pagesz → n.storage (f * pagesz + a) ≡ 0)
      × ((a : ℕ) → (a < f * pagesz) ⊎ (f * pagesz + pagesz ≤ a) → n.storage a ≡ m.storage a)
      × ((vaddr : ℕ) → translate_address mm.pgd vaddr n ≡ some (none, n))
init_mm-translate_address junk m f rest r free h =
    let (n, ran, c) = init_mm-Cleared junk m f rest r free h in
    let pgd : f * pagesz % 2 ^ 64 ≡ f * pagesz = omega (arith, r.size) in
    (
      new_mm junk f,
      n,
      ran,
      c.frames,
      λ a small. c.bytes (f * pagesz + a) ∙ ground arith,
      λ a outside. c.bytes a ∙ ground arith,
      λ vaddr.
          ap (λ (b : ℕ). translate_address b vaddr n) pgd
          ∙ absent_translate n (f * pagesz) vaddr c.ram (omega (arith, c.size))
              (λ a small. c.bytes (f * pagesz + a) ∙ ground arith),
    )

-- ===== src/Map/Swap.antt =====
-- Copying a frame from one device to another.
use os_assignment.Base.{
  ℕ, zero, suc, ◌+◌, ◌-◌, ◌*◌, ◌≤◌, ◌≡◌, refl, ap, ◌∙◌, ◌&&◌, some, arith, ltb, leb, if◌then◌else◌,
  update,
}
use os_assignment.Memphy.{Memphy, done, read, write}
use os_assignment.Memphy.Laws.{read_random, write_random}
use os_assignment.Table.{add64}
use os_assignment.Table.Entry.{IsRam}
use os_assignment.Map.{copy_from, swap_cp_page}

-- `dst` with the first bytes of frame `dstfpn` from the `cellidx`th on, `n` of them, as they are
-- in frame `srcfpn` of `src`.
abbrev pub copied : ℕ → ℕ → ℕ → ℕ → (ℕ → ℕ) → (ℕ → ℕ) → ℕ → ℕ
copied n cellidx srcfpn dstfpn src dst a =
    if leb (dstfpn * 256 + cellidx) a && ltb a (dstfpn * 256 + cellidx + n)
    then src (srcfpn * 256 + (a - dstfpn * 256))
    else dst a

-- The storage after the copy.
record Copied (n cellidx srcfpn dstfpn : ℕ) (src dst final : Memphy) : Type 0 where
  bytes : (a : ℕ) → final.storage a ≡ copied n cellidx srcfpn dstfpn src.storage dst.storage a
  random : final.rdmflg ≡ dst.rdmflg
  size : final.maxsz ≡ dst.maxsz
  frames : final.free_fp_list ≡ dst.free_fp_list

copy_from-Copied :
    (junk n cellidx srcfpn dstfpn : ℕ) (src dst : Memphy)
    → IsRam src
    → IsRam dst
    → srcfpn * 256 + cellidx + n ≤ src.maxsz
    → dstfpn * 256 + cellidx + n ≤ dst.maxsz
    → (final : Memphy) × (copy_from junk n cellidx srcfpn dstfpn src dst ≡ some (src, final))
      × Copied n cellidx srcfpn dstfpn src dst final
unfolding copy_from
copy_from-Copied junk zero cellidx srcfpn dstfpn src dst r r' h h' =
    (dst, refl, record { bytes = λ a. ground arith; random = refl; size = refl; frames = refl })
copy_from-Copied junk (suc n) cellidx srcfpn dstfpn src dst r r' h h' =
    let v = src.storage (srcfpn * 256 + cellidx) in
    let next : Memphy = record dst { storage = update dst.storage (dstfpn * 256 + cellidx) v } in
    let in_read : read (add64 (srcfpn * 256) cellidx) src ≡ some (some v, src) =
      ap (λ (a : ℕ). read a src) (omega (arith, r.size))
      ∙ read_random src (srcfpn * 256 + cellidx) r.random (omega arith) in
    let in_write : write (add64 (dstfpn * 256) cellidx) v dst ≡ some (done, next) =
      ap (λ (a : ℕ). write a v dst) (omega (arith, r'.size))
      ∙ write_random dst (dstfpn * 256 + cellidx) v r'.random (omega arith) in
    let (final, ran, c) =
      copy_from-Copied junk n (cellidx + 1) srcfpn dstfpn src next r
        (record { random = r'.random; size = r'.size }) (omega arith) (omega arith) in
    (
      final,
      rw (in_read, in_write, copy_from) ran,
      record {
        bytes = λ a. c.bytes a ∙ ground arith;
        random = c.random;
        size = c.size;
        frames = c.frames;
      },
    )

-- Copying a frame that lies in a random-access device to a frame that lies in another succeeds
-- and leaves the source as it was: the destination's frame holds the source's bytes in order,
-- and every other byte of the destination is what it was.
pub swap_cp_page-Copied :
    (junk srcfpn dstfpn : ℕ) (src dst : Memphy)
    → IsRam src
    → IsRam dst
    → srcfpn * 256 + 256 ≤ src.maxsz
    → dstfpn * 256 + 256 ≤ dst.maxsz
    → (final : Memphy) × (swap_cp_page junk srcfpn dstfpn src dst ≡ some (src, final))
      × ((a : ℕ)
          → final.storage a ≡ (
              if leb (dstfpn * 256) a && ltb a (dstfpn * 256 + 256)
              then src.storage (srcfpn * 256 + (a - dstfpn * 256))
              else dst.storage a))
unfolding swap_cp_page
swap_cp_page-Copied junk srcfpn dstfpn src dst r r' h h' =
    let (final, ran, c) =
      copy_from-Copied junk 256 0 srcfpn dstfpn src dst r r' (omega arith) (omega arith) in
    (final, ran, λ a. c.bytes a ∙ ground arith)

-- ===== src/Map.antt =====
-- mm64.c: taking frames of the RAM for the pages of a process, and copying a frame between
-- devices. `malloc` is taken to succeed, and a number of pages is a non-negative `int` below
-- 2 ^ 19, whose bytes are an `int` too.
pub mod Frames
pub mod Swap
use os_assignment.Base.{
  ℕ, zero, suc, ◌+◌, ◌*◌, ◌/◌, ◌^◌, Option, none, some, List, [], ◌∷◌, ltb, if◌then◌else◌,
}
use os_assignment.Memphy
use os_assignment.Memphy.{
  Memphy, Status, done, failed, M, pure, ◌>>=◌, ◌>>◌, read, write, get_freefp, put_freefp,
}
use os_assignment.Address.{pt_shift}
use os_assignment.Table.{add64, pagesz, pte_set_fpn}

-- `struct vm_rg_struct`; a list of regions is a list.
pub record Region : Type 0 where
  pub rg_start : ℕ
  pub rg_end : ℕ

-- The loop of `alloc_pages_range` at `pgit` with `n` rounds left: its return value and the frames
-- that it adds to `frm_lst`.
pub alloc_from : ℕ → ℕ → M (ℕ × List ℕ)
alloc_from zero pgit = pure (pgit, [])
alloc_from (suc n) pgit = get_freefp >>= λ r. elim r [
  | none ↦ pure (pgit, [])
  | some fpn ↦ alloc_from n (pgit + 1) >>= λ t. pure (t.0, fpn ∷ t.1)
]

unfoldable pub alloc_pages_range : ℕ → M (ℕ × List ℕ)
alloc_pages_range req_pgnum = alloc_from req_pgnum 0

pub free_frame_list : List ℕ → M (Unit {0})
free_frame_list [] = pure tt
free_frame_list (fpn ∷ rest) = put_freefp fpn >> free_frame_list rest

-- `enlist_pgn_node`
abbrev pub enlist_pgn_node : List ℕ → ℕ → List ℕ
enlist_pgn_node plist pgn = pgn ∷ plist

-- What `vmap_page_range` leaves: its return value, the returned region and `mm->fifo_pgn`.
pub record Mapped : Type 0 where
  pub pages : ℕ
  pub region : Region
  pub fifo_pgn : List ℕ

-- The loop of `vmap_page_range` at `pgit` with at most `n` rounds left.
pub map_from : ℕ → ℕ → ℕ → List ℕ → ℕ → Region → List ℕ → M Mapped
map_from pgd addr zero frames pgit ret_rg fifo =
    pure (record { pages = pgit; region = ret_rg; fifo_pgn = fifo })
map_from pgd addr (suc n) [] pgit ret_rg fifo =
    pure (record { pages = pgit; region = ret_rg; fifo_pgn = fifo })
map_from pgd addr (suc n) (fpn ∷ frames) pgit ret_rg fifo =
    let pgn = add64 (addr / 2 ^ pt_shift) pgit in
    pte_set_fpn pgd pgn fpn >>= λ r. elim r [
      | none ↦ pure (record {
        pages = pgit;
        region = record ret_rg { rg_end = add64 addr (pgit * pagesz) };
        fifo_pgn = fifo;
      })
      | some u ↦ map_from pgd addr n frames (pgit + 1) ret_rg (enlist_pgn_node fifo pgn)
    ]

unfoldable pub vmap_page_range : ℕ → ℕ → ℕ → List ℕ → List ℕ → M Mapped
vmap_page_range pgd addr pgnum frames fifo =
    map_from pgd addr pgnum frames 0
      (record { rg_start = addr; rg_end = add64 addr (pgnum * pagesz) }) fifo

-- `vm_map_ram`: 0 or -1, with the region and the list of pages that it leaves. The number of
-- frames is never negative, so the first two tests on `ret_alloc` do not succeed.
unfoldable pub vm_map_ram : ℕ → ℕ → ℕ → Region → List ℕ → M (Status × Region × List ℕ)
vm_map_ram pgd mapstart incpgnum ret_rg fifo = alloc_pages_range incpgnum >>= λ t.
    if ltb t.0 incpgnum
    then free_frame_list t.1 >> pure (failed, ret_rg, fifo)
    else (vmap_page_range pgd mapstart incpgnum t.1 fifo >>= λ w.
        if ltb w.pages incpgnum
        then free_frame_list t.1 >> pure (failed, w.region, w.fifo_pgn)
        else pure (done, w.region, w.fifo_pgn))

-- The loop of `__swap_cp_page` at `cellidx` with `n` rounds left. A read that fails leaves
-- `data` as it is on the stack, `junk`; the results of the writes are dropped.
pub copy_from : ℕ → ℕ → ℕ → ℕ → ℕ → Memphy → Memphy → Option (Memphy × Memphy)
copy_from junk zero cellidx srcfpn dstfpn mpsrc mpdst = some (mpsrc, mpdst)
copy_from junk (suc n) cellidx srcfpn dstfpn mpsrc mpdst =
    elim (read (add64 (srcfpn * Memphy.pagesz) cellidx) mpsrc) [
      | none ↦ none
      | some (data_read, mpsrc') ↦
          elim (write (add64 (dstfpn * Memphy.pagesz) cellidx)
            (elim data_read [ none ↦ junk | some value ↦ value ]) mpdst) [
              | none ↦ none
              | some (status, mpdst') ↦ copy_from junk n (cellidx + 1) srcfpn dstfpn mpsrc' mpdst'
            ]
    ]

-- `__swap_cp_page` between two different devices.
unfoldable pub swap_cp_page : ℕ → ℕ → ℕ → Memphy → Memphy → Option (Memphy × Memphy)
swap_cp_page junk srcfpn dstfpn mpsrc mpdst =
    copy_from junk Memphy.pagesz 0 srcfpn dstfpn mpsrc mpdst

-- ===== src/Map/Frames.antt =====
-- Frames are neither lost nor made when a range of pages is taken.
use Prim.Native.Nat.{min}
use os_assignment.Base.{
  ℕ, zero, suc, ◌+◌, ◌<◌, ◌≡◌, refl, ap, ◌∙◌, List, [], ◌∷◌, some, arith, length, if_eq_true,
  lt→ltb, ltb,
}
use os_assignment.Memphy.{Memphy, Status, failed, M, get_freefp, put_freefp}
use os_assignment.Memphy.Laws.{bind_eq}
use os_assignment.Map.{Region, alloc_from, alloc_pages_range, free_frame_list, vm_map_ram}

-- The frames of a list, taken one by one into another.
abbrev pub onto : List ℕ → List ℕ → List ℕ
onto [] ys = ys
onto (x ∷ xs) ys = onto xs (x ∷ ys)

abbrev pub take : ℕ → List ℕ → List ℕ
take zero xs = []
take (suc n) [] = []
take (suc n) (x ∷ xs) = x ∷ take n xs

abbrev pub drop : ℕ → List ℕ → List ℕ
drop zero xs = xs
drop (suc n) [] = []
drop (suc n) (x ∷ xs) = drop n xs

abbrev pub with_free : Memphy → List ℕ → Memphy
with_free m free = record m { free_fp_list = free }

alloc_from_lem :
    (n pgit : ℕ) (free : List ℕ) (m : Memphy)
    → alloc_from n pgit (with_free m free)
      ≡ some ((pgit + min n (length free), take n free), with_free m (drop n free))
unfolding alloc_from get_freefp
alloc_from_lem zero pgit free m = ap (λ (k : ℕ). some ((k, []), with_free m free)) (omega arith)
alloc_from_lem (suc n) pgit [] m = ap (λ (k : ℕ). some ((k, []), with_free m [])) (omega arith)
alloc_from_lem (suc n) pgit (x ∷ free) m =
    bind_eq (alloc_from n (pgit + 1)) _ (with_free m free) (with_free m (drop n free)) _
      (alloc_from_lem n (pgit + 1) free m)
    ∙ ap (λ (k : ℕ). some ((k, x ∷ take n free), with_free m (drop n free))) (omega arith)

-- `alloc_pages_range` takes the first free frames, in order and as many as there are up to the
-- number asked for, which it returns; the rest stay free and nothing else changes.
pub alloc_pages_range_lem :
    (n : ℕ) (m : Memphy)
    → alloc_pages_range n m
      ≡ some (
        (min n (length m.free_fp_list), take n m.free_fp_list),
        record m { free_fp_list = drop n m.free_fp_list },
      )
unfolding alloc_pages_range
alloc_pages_range_lem n m =
    alloc_from_lem n 0 m.free_fp_list m
    ∙ ap (λ (k : ℕ). some ((k, take n m.free_fp_list), with_free m (drop n m.free_fp_list)))
        (omega arith)

free_frame_list_lem :
    (frames free : List ℕ) (m : Memphy)
    → free_frame_list frames (with_free m free) ≡ some (tt, with_free m (onto frames free))
unfolding free_frame_list put_freefp
free_frame_list_lem [] free m = refl
free_frame_list_lem (x ∷ frames) free m = free_frame_list_lem frames (x ∷ free) m

take_short : (n : ℕ) (xs : List ℕ) → length xs < n → take n xs ≡ xs
take_short zero xs h = ground arith
take_short (suc n) [] h = refl
take_short (suc n) (x ∷ xs) h = ap (λ (t : List ℕ). x ∷ t) (take_short n xs (omega arith))

drop_short : (n : ℕ) (xs : List ℕ) → length xs < n → drop n xs ≡ []
drop_short zero xs h = ground arith
drop_short (suc n) [] h = refl
drop_short (suc n) (x ∷ xs) h = drop_short n xs (omega arith)

-- When more pages are asked for than frames are free, `vm_map_ram` returns -1 and gives every
-- frame back: the free list is the old one in reverse, and nothing else has changed.
pub vm_map_ram_short :
    (m : Memphy) (pgd mapstart incpgnum : ℕ) (ret_rg : Region) (fifo : List ℕ)
    → length m.free_fp_list < incpgnum
    → vm_map_ram pgd mapstart incpgnum ret_rg fifo m
      ≡ some ((failed, ret_rg, fifo), record m { free_fp_list = onto m.free_fp_list [] })
unfolding vm_map_ram
vm_map_ram_short m pgd mapstart incpgnum ret_rg fifo h =
    let free = m.free_fp_list in
    bind_eq (alloc_pages_range incpgnum) _ m (with_free m []) (length free, free)
      (alloc_pages_range_lem incpgnum m
        ∙ rw (take_short incpgnum free h, drop_short incpgnum free h)
            (ap (λ (k : ℕ). some ((k, free), with_free m [])) (omega arith)))
    ∙ ap (λ (f : M (Status × Region × List ℕ)). f (with_free m []))
        (if_eq_true {b = ltb (length free) incpgnum} _ _ (lt→ltb _ _ h))
    ∙ bind_eq (free_frame_list free) _ (with_free m []) (with_free m (onto free [])) tt
        (free_frame_list_lem free [] m)

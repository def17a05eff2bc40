-- ===== src/Memphy/Frames.antt =====
-- The free frames of a device: formatting, taking and giving back.
use mathlib.Core.List.{Mem, mem-cons_self, mem-cons_of_mem}
use os_assignment.Base.{
  Bool-cases, if_eq_true, inl, inr, ℕ, zero, suc, ◌+◌, ◌-◌, ◌*◌, ◌/◌, ◌%◌, ◌^◌, ltb, ◌≤◌, ◌<◌, ◌≡◌,
  ◌≢◌, refl, ap, ◌∙◌, if_eq_false, true, false, none, some, List, [], ◌∷◌, ◌==◌, if◌then◌else◌,
  arith, All, List-cases, length, ◌⊎◌,
}
use os_assignment.Memphy.{
  Status, failed, Memphy, done, frames_from, format, pagesz, init_memphy, get_freefp, put_freefp,
  ◌>>=◌,
}
use os_assignment.Memphy.Laws.{bind_eq}

-- No frame number stands twice in the list.
abbrev pub Distinct : List ℕ → Type 0
Distinct [] = Unit
Distinct (x ∷ xs) = All (λ y. y ≢ x) xs × Distinct xs

All-mono {ℓ κ} :
    {A : Type 0} (P : A → Type ℓ) (Q : A → Type κ) (xs : List A)
    → ((x : A) → P x → Q x)
    → All P xs
    → All Q xs
All-mono P Q [] h a = tt
All-mono P Q (x ∷ xs) h a = (h x a.0, All-mono P Q xs h a.1)

frames_range : (iter n : ℕ) → All (λ x. (iter ≤ x) × (x < iter + n)) (frames_from iter n)
frames_range iter zero = tt
frames_range iter (suc n) = (
  (omega arith, omega arith),
  All-mono _ _ (frames_from (iter + 1) n) (λ x h. (omega arith, omega arith))
      (frames_range (iter + 1) n),
)

frames-Distinct : (iter n : ℕ) → Distinct (frames_from iter n)
frames-Distinct iter zero = tt
frames-Distinct iter (suc n) = (
  All-mono _ _ (frames_from (iter + 1) n) (λ x h. omega arith) (frames_range (iter + 1) n),
  frames-Distinct (iter + 1) n,
)

length-frames_from : (iter n : ℕ) → length (frames_from iter n) ≡ n
length-frames_from iter zero = refl
length-frames_from iter (suc n) = ap suc (length-frames_from (iter + 1) n)

mem-frames_from : (iter n k j : ℕ) → k < n → iter + k ≡ j → Mem j (frames_from iter n)
mem-frames_from iter zero k j h e = absurd (omega arith)
mem-frames_from iter (suc n) zero j h e = let e' : j ≡ iter = omega arith in rw e' mem-cons_self
mem-frames_from iter (suc n) (suc k) j h e =
    mem-cons_of_mem iter (mem-frames_from (iter + 1) n k j (omega arith) (omega arith))

frames_first : (n : ℕ) → 1 ≤ n → 0 ∷ frames_from 1 (n - 1) ≡ frames_from 0 n
frames_first zero h = absurd (omega arith)
frames_first (suc n) h =
    let e : suc n - 1 ≡ n = omega arith in ap (λ (k : ℕ). 0 ∷ frames_from 1 k) e

listed :
    (junk : List ℕ) (n : ℕ)
    → 2 ≤ n
    → (if n == 1 then 0 ∷ junk else 0 ∷ frames_from 1 (n - 1)) ≡ frames_from 0 n
listed junk n h = if_eq_false {b = n == 1} _ _ (ground arith) ∙ frames_first n (omega arith)

format_frames :
    (junk : List ℕ) (size : ℕ) (m : Memphy)
    → m.maxsz < 2 ^ 31
    → 2 ≤ m.maxsz / size
    → format junk size m ≡ some (done, record m { free_fp_list = frames_from 0 (m.maxsz / size) })
unfolding format
format_frames junk size m bound h =
    let numfp : (if ltb m.maxsz (2 ^ 31) then m.maxsz / size else 0) ≡ m.maxsz / size =
      if_eq_true {b = ltb m.maxsz (2 ^ 31)} _ _ (ground arith) in
    rw numfp (
      if_eq_false {b = m.maxsz / size == 0} _ _ (ground arith)
      ∙ ap (λ (l : List ℕ). some (done, record m { free_fp_list = l }))
          (listed junk (m.maxsz / size) h))

abbrev numfp_of : Memphy → ℕ → ℕ
numfp_of m size = if ltb m.maxsz (2 ^ 31) then m.maxsz / size else 0

format_total :
    (junk : List ℕ) (size : ℕ) (m : Memphy)
    → (status : Status) × (n : Memphy) × (format junk size m ≡ some (status, n))
unfolding format
format_total junk size m = elim (Bool-cases (numfp_of m size == 0)) [
  | inl few ↦ (failed, m, if_eq_true _ _ few)
  | inr many ↦ (done, _, if_eq_false _ _ many)
]

-- `init_memphy` has a result whatever the size is.
pub init_memphy_total :
    (junk : List ℕ) (max_size randomflg : ℕ) (m : Memphy)
    → (status : Status) × (n : Memphy) × (init_memphy junk max_size randomflg m ≡ some (status, n))
unfolding init_memphy
init_memphy_total junk max_size randomflg m =
    let sized : Memphy = record m { storage = λ i. 0; maxsz = max_size % 2 ^ 32 } in
    let (status, n, e) = format_total junk pagesz sized in
    (done, _, bind_eq (format junk pagesz) _ sized n status e)

-- The device that `init_memphy` leaves for a size of at least two pages, below 2 ^ 31.
abbrev pub fresh : ℕ → ℕ → Memphy → Memphy
fresh max_size randomflg m = record m {
  storage = λ i. 0;
  maxsz = max_size;
  rdmflg = if randomflg == 0 then false else true;
  cursor = if randomflg == 0 then 0 else m.cursor;
  free_fp_list = frames_from 0 (max_size / pagesz);
}

pub init_memphy-fresh :
    (junk : List ℕ) (max_size randomflg : ℕ) (m : Memphy)
    → 2 * pagesz ≤ max_size
    → max_size < 2 ^ 31
    → init_memphy junk max_size randomflg m ≡ some (done, fresh max_size randomflg m)
unfolding init_memphy
init_memphy-fresh junk max_size randomflg m h bound =
    let int : max_size % 2 ^ 32 ≡ max_size = omega arith in
    rw int (
      bind_eq (format junk pagesz) _ (record m { storage = λ i. 0; maxsz = max_size })
        (record m {
          storage = λ i. 0;
          maxsz = max_size;
          free_fp_list = frames_from 0 (max_size / pagesz);
        })
        done
        (format_frames junk pagesz (record m { storage = λ i. 0; maxsz = max_size }) bound
          (omega arith)))

-- For a size of at least two pages, below 2 ^ 31, `init_memphy` leaves a zeroed device of that size, whose free
-- frames are `max_size / 256` distinct numbers, and each names a page of 256 bytes inside the
-- storage.
pub init_memphy_lem :
    (junk : List ℕ) (max_size randomflg : ℕ) (m : Memphy)
    → 2 * pagesz ≤ max_size
    → max_size < 2 ^ 31
    → (n : Memphy) × (init_memphy junk max_size randomflg m ≡ some (done, n))
      × ((i : ℕ) → n.storage i ≡ 0)
      × (n.maxsz ≡ max_size)
      × (length n.free_fp_list ≡ max_size / pagesz)
      × Distinct n.free_fp_list
      × All (λ f. f * pagesz + pagesz ≤ n.maxsz) n.free_fp_list
init_memphy_lem junk max_size randomflg m h bound = (
  fresh max_size randomflg m,
  init_memphy-fresh junk max_size randomflg m h bound,
  λ i. refl,
  refl,
  length-frames_from 0 (max_size / pagesz),
  frames-Distinct 0 (max_size / pagesz),
  All-mono _ _ (frames_from 0 (max_size / pagesz)) (λ x h'. omega arith)
      (frames_range 0 (max_size / pagesz)),
)

-- `PAGING64_PAGESZ`
abbrev pub pagesz64 : ℕ
pagesz64 = 4096

-- The page tables of mm64.c use frames as pages of 4096 bytes, and `init_memphy` counts frames of
-- 256 bytes: on every device of at least two pages and less than 2 ^ 31 bytes it lists a frame whose page of 4096 bytes
-- begins beyond the storage.
pub init_memphy_oversized :
    (junk : List ℕ) (max_size randomflg : ℕ) (m : Memphy)
    → 2 * pagesz ≤ max_size
    → max_size < 2 ^ 31
    → (n : Memphy) × (f : ℕ) × (init_memphy junk max_size randomflg m ≡ some (done, n))
      × Mem f n.free_fp_list
      × (n.maxsz ≤ f * pagesz64)
init_memphy_oversized junk max_size randomflg m h bound = (
  fresh max_size randomflg m,
  max_size / pagesz - 1,
  init_memphy-fresh junk max_size randomflg m h bound,
  mem-frames_from 0 (max_size / pagesz) (max_size / pagesz - 1) _ (omega arith) (omega arith),
  omega arith,
)

-- A frame that is given back is the next one taken.
pub get_freefp-put_freefp :
    (m : Memphy) (fpn : ℕ) → (put_freefp fpn >>= λ _. get_freefp) m ≡ some (some fpn, m)
unfolding get_freefp put_freefp
get_freefp-put_freefp m fpn = refl

-- `MEMPHY_get_freefp` takes the first free frame, and fails and changes nothing if there is none.
pub get_freefp-cases :
    (m : Memphy)
    → ((m.free_fp_list ≡ []) × (get_freefp m ≡ some (none, m)))
      ⊎ ((f : ℕ) × (rest : List ℕ) × (m.free_fp_list ≡ f ∷ rest)
          × (get_freefp m ≡ some (some f, record m { free_fp_list = rest })))
unfolding get_freefp
get_freefp-cases m = elim (List-cases m.free_fp_list) [
  | inl e ↦ inl (e, ground arith)
  | inr (f, rest, e) ↦ inr (f, rest, e, ground arith)
]

pub get_freefp_cons :
    (m : Memphy) (f : ℕ) (rest : List ℕ)
    → m.free_fp_list ≡ f ∷ rest
    → get_freefp m ≡ some (some f, record m { free_fp_list = rest })
unfolding get_freefp
get_freefp_cons m f rest e = ground arith

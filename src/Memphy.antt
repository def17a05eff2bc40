-- ===== src/Memphy.antt =====
-- mm-memphy.c: a simulated memory device. An operation gets the device and returns its result
-- with the new device, or `none` where C leaves the behaviour undefined: an access outside the
-- `maxsz` bytes of `storage`. Every caller passes the address of a device, so the tests
-- `mp == NULL` do not appear. `malloc` is taken to succeed; what it leaves in a field that is
-- not initialised is an argument.
pub mod Laws
pub mod Frames
use os_assignment.Base.{
  ℕ, zero, suc, ◌+◌, ◌-◌, ◌/◌, ◌%◌, ◌^◌, Bool, true, false, ◌&&◌, Option, none, some, List, [], ◌∷◌,
  ltb, ◌==◌, if◌then◌else◌, update,
}

-- `struct memphy_struct` without `used_fp_list`, which nothing uses. A cell of `storage` is the
-- pattern of a `char`, below 256. The free frames are a list, as no two lists share a node.
pub record Memphy : Type 0 where
  pub storage : ℕ → ℕ
  pub maxsz : ℕ
  pub rdmflg : Bool
  pub cursor : ℕ
  pub free_fp_list : List ℕ

-- The two results of an operation that returns an `int`: 0 and -1.
pub data Status : Type 0 where
  done failed : Status

abbrev pub M : Type 0 → Type 0
M A = Memphy → Option (A × Memphy)

abbrev pub pure : {A : Type 0} → A → M A
pure result m = some (result, m)

-- What a `do` block makes of a step's outcome.
abbrev pub continue : {A B : Type 0} → (A → M B) → Option (A × Memphy) → Option (B × Memphy)
continue rest none = none
continue rest (some (result, m)) = rest result m

infixl 5 ◌>>=◌ ◌>>◌
abbrev pub ◌>>=◌ : {A B : Type 0} → M A → (A → M B) → M B
(step >>= rest) m = continue rest (step m)

abbrev pub ◌>>◌ : {A B : Type 0} → M A → M B → M B
step >> rest = step >>= λ dropped. rest

-- `mp->storage[addr]` and `mp->storage[addr] = value`.
unfoldable pub load : ℕ → M ℕ
load addr m = if ltb addr m.maxsz then some (m.storage addr, m) else none

unfoldable pub store : ℕ → ℕ → M Status
store addr value m =
    if ltb addr m.maxsz
    then some (done, record m { storage = update m.storage addr value })
    else none

-- The `while` loop of `MEMPHY_mv_csr` on the cursor, with fuel.
pub advance : ℕ → ℕ → ℕ → ℕ → ℕ → ℕ
advance zero offset maxsz numstep cursor = cursor
advance (suc fuel) offset maxsz numstep cursor = elim (ltb numstep offset && ltb numstep maxsz) [
  | true ↦ advance fuel offset maxsz (numstep + 1) ((cursor + 1) % maxsz)
  | false ↦ cursor
]

-- Each round passes one of at most `maxsz` steps, so `maxsz` is enough fuel.
unfoldable pub mv_csr : ℕ → M Status
mv_csr offset m = some (done, record m { cursor = advance m.maxsz offset m.maxsz 0 0 })

-- `none` inside the result is the return value -1, where nothing is stored through `value`.
unfoldable pub seq_read : ℕ → M (Option ℕ)
seq_read addr m =
    if m.rdmflg then (do mv_csr addr; value ← load addr; pure (some value)) m else some (none, m)

unfoldable pub read : ℕ → M (Option ℕ)
read addr m = if m.rdmflg then (do value ← load addr; pure (some value)) m else seq_read addr m

unfoldable pub seq_write : ℕ → ℕ → M Status
seq_write addr value m = if m.rdmflg then (do mv_csr addr; store addr value) m else some (failed, m)

unfoldable pub write : ℕ → ℕ → M Status
write addr value m = if m.rdmflg then store addr value m else seq_write addr value m

-- The nodes that the loop of `MEMPHY_format` makes: `n` frames from `iter` on.
abbrev pub frames_from : ℕ → ℕ → List ℕ
frames_from iter zero = []
frames_from iter (suc n) = iter ∷ frames_from (iter + 1) n

-- `MEMPHY_format`. The first node gets its `fp_next` only from the second: a device of one frame
-- keeps what `malloc` left there, `junk`. For a negative `maxsz` the quotient is negative or 0.
unfoldable pub format : List ℕ → ℕ → M Status
format junk pagesz m =
    let numfp = if ltb m.maxsz (2 ^ 31) then m.maxsz / pagesz else 0 in
    if numfp == 0
    then some (failed, m)
    else some (
      done,
      record m { free_fp_list = if numfp == 1 then 0 ∷ junk else 0 ∷ frames_from 1 (numfp - 1) },
    )

-- `PAGING_PAGESZ`
abbrev pub pagesz : ℕ
pagesz = 256

-- `init_memphy` on a `struct` that is not initialised; the result of `MEMPHY_format` is dropped.
-- `maxsz` is an `int`, kept as its pattern of 32 bits. The block has `max_size` bytes; an access
-- beyond `maxsz`, which is less from 2 ^ 32 on, counts as outside the storage here.
unfoldable pub init_memphy : List ℕ → ℕ → ℕ → M Status
init_memphy junk max_size randomflg m =
    (do
      format junk pagesz
      λ d. some (
        done,
        record d {
          rdmflg = if randomflg == 0 then false else true;
          cursor = if randomflg == 0 then 0 else d.cursor;
        },
      ))
      (record m { storage = λ i. 0; maxsz = max_size % 2 ^ 32 })

unfoldable pub get_freefp : M (Option ℕ)
get_freefp m = elim m.free_fp_list [
  | [] ↦ some (none, m)
  | fpn ∷ rest ↦ some (some fpn, record m { free_fp_list = rest })
]

unfoldable pub put_freefp : ℕ → M Status
put_freefp fpn m = some (done, record m { free_fp_list = fpn ∷ m.free_fp_list })

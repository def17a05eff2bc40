-- ===== src/Memphy/Laws.antt =====
-- What mm-memphy.c promises of one device.
use Prim.Native.Nat.{min, max}
use native.Mathlib.Nat.{mod-add-mod}
use os_assignment.Base.{
  ℕ, zero, suc, ◌+◌, ◌%◌, ◌≤◌, ◌<◌, ◌≡◌, ap, ◌∙◌, if_eq_true, if_eq_false, true, false, none, some,
  ◌==◌, if◌then◌else◌, update, arith,
}
use os_assignment.Memphy.{
  Memphy, done, failed, M, ◌>>=◌, load, store, advance, mv_csr, seq_read, read, seq_write, write,
}

-- The rest of a `do` block runs on the device that its first step leaves.
pub bind_eq :
    {A B : Type 0} (f : M A) (g : A → M B) (m n : Memphy) (a : A)
    → f m ≡ some (a, n)
    → (f >>= g) m ≡ g a n
bind_eq f g m n a e = rw (e, ◌>>=◌)

pub load_inside : (m : Memphy) (addr : ℕ) → addr < m.maxsz → load addr m ≡ some (m.storage addr, m)
unfolding load
load_inside m addr h = ground arith

pub store_inside :
    (m : Memphy) (addr value : ℕ)
    → addr < m.maxsz
    → store addr value m ≡ some (done, record m { storage = update m.storage addr value })
unfolding store
store_inside m addr value h = ground arith

-- A random-access device reads and writes any address below its size.
pub read_random :
    (m : Memphy) (addr : ℕ)
    → m.rdmflg ≡ true
    → addr < m.maxsz
    → read addr m ≡ some (some (m.storage addr), m)
unfolding read
read_random m addr r h =
    if_eq_true _ _ r ∙ bind_eq (load addr) _ m m (m.storage addr) (load_inside m addr h)

pub write_random :
    (m : Memphy) (addr value : ℕ)
    → m.rdmflg ≡ true
    → addr < m.maxsz
    → write addr value m ≡ some (done, record m { storage = update m.storage addr value })
unfolding write
write_random m addr value r h = if_eq_true _ _ r ∙ store_inside m addr value h

-- On a random-access device a write inside the storage succeeds, a read of that address then
-- gives the value, and a read of any other address gives what it gave before.
pub read-write :
    (m : Memphy) (addr value other : ℕ)
    → m.rdmflg ≡ true
    → addr < m.maxsz
    → other < m.maxsz
    → (n : Memphy) × (write addr value m ≡ some (done, n))
      × (read other n ≡ some (some (if other == addr then value else m.storage other), n))
read-write m addr value other r h h' = (
  record m { storage = update m.storage addr value },
  write_random m addr value r h,
  read_random (record m { storage = update m.storage addr value }) other r h',
)

-- A device that is not random-access can neither be read nor written: both report -1 at every
-- address and change nothing.
pub sequential_refused :
    (m : Memphy) (addr value : ℕ)
    → m.rdmflg ≡ false
    → (read addr m ≡ some (none, m)) × (write addr value m ≡ some (failed, m))
unfolding read seq_read write seq_write
sequential_refused m addr value r =
    (if_eq_false _ _ r ∙ if_eq_false _ _ r, if_eq_false _ _ r ∙ if_eq_false _ _ r)

advance_lem :
    (fuel offset maxsz numstep : ℕ)
    → maxsz ≤ numstep + fuel
    → advance fuel offset maxsz numstep (numstep % maxsz) ≡ max numstep (min offset maxsz) % maxsz
unfolding advance
advance_lem zero offset maxsz numstep h = ap (λ (t : ℕ). t % maxsz) (omega arith)
advance_lem (suc fuel) offset maxsz numstep h =
    ground (
      arith,
      mod-add-mod numstep maxsz 1,
      advance_lem fuel offset maxsz (numstep + 1) (omega arith),
    )

-- The loop over the cursor ends: it leaves the cursor at the offset, or at 0 for an offset of at
-- least `maxsz`.
pub mv_csr_lem :
    (m : Memphy) (offset : ℕ)
    → mv_csr offset m ≡ some (done, record m { cursor = min offset m.maxsz % m.maxsz })
unfolding mv_csr
mv_csr_lem m offset =
    ap (λ (c : ℕ). some (done, record m { cursor = c }))
      (ground (arith, advance_lem m.maxsz offset m.maxsz 0 (omega arith)))

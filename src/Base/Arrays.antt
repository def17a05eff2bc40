-- ===== src/Base/Arrays.antt =====
-- C arrays as functions of the index: one write, and the cells of a range as a list.
use Prim.Native.Nat.{ℕ, zero, suc, ◌+◌, ◌≤◌, ◌<◌}
use mathlib.Core.Path.{◌≡◌, refl, ap₂, subst}
use mathlib.Core.List.{List, [], ◌∷◌, ◌++◌}
use native.Mathlib.Omega.{arith}
use native.Mathlib.Decide.{ℕ_discrete}
use os_assignment.Base.Tests.{◌==◌, if◌then◌else◌}
use os_assignment.Base.Lists.{length, All}

module _ {ℓ} {A : Type ℓ} where
  -- `a[i] = v`
  abbrev pub update : (ℕ → A) → ℕ → A → ℕ → A
  update a i v j = if j == i then v else a j

  -- The `n` cells from index `i` on.
  abbrev pub window : (ℕ → A) → ℕ → ℕ → List A
  window a i zero = []
  window a i (suc n) = a i ∷ window a (i + 1) n

  pub length-window : (a : ℕ → A) (i n : ℕ) → length (window a i n) ≡ n
  length-window a i zero = refl
  length-window a i (suc n) = omega (arith, length-window a (i + 1) n)

  pub window_ext :
      (a b : ℕ → A) (i j n : ℕ)
      → ((k : ℕ) → k < n → a (i + k) ≡ b (j + k))
      → window a i n ≡ window b j n
  window_ext a b i j zero h = refl
  window_ext a b i j (suc n) h =
      ap₂ ◌∷◌ (ground (arith, h 0 (omega arith)))
        (window_ext a b (i + 1) (j + 1) n λ k p. ground (arith, h (suc k) (omega arith)))

  pub window_split :
      (a : ℕ → A) (i m n k j : ℕ)
      → m + n ≡ k
      → i + m ≡ j
      → window a i k ≡ window a i m ++ window a j n
  window_split a i zero n k j e f = ground arith
  window_split a i (suc m) n zero j e f = absurd (omega arith)
  window_split a i (suc m) n (suc k) j e f =
      ap₂ ◌∷◌ refl (window_split a (i + 1) m n k j (omega arith) (omega arith))

  pub All-window {κ} :
      (P : A → Type κ) (a : ℕ → A) (i n : ℕ)
      → ((k : ℕ) → i ≤ k → k < i + n → P (a k))
      → All P (window a i n)
  All-window P a i zero h = tt
  All-window P a i (suc n) h = (
    h i (omega arith) (omega arith),
    All-window P a (i + 1) n λ k p q. h k (omega arith) (omega arith),
  )

-- A property of the cells from `p + 1` to `j`, extended by cell `p`.
pub range_cons {κ} :
    (P : ℕ → Type κ) (p j : ℕ)
    → P p
    → ((i : ℕ) → p + 1 ≤ i → i < j → P i)
    → (i : ℕ) → p ≤ i
    → i < j
    → P i
range_cons P p j h g i l m = elim (ℕ_discrete p i) [
  | yes e ↦ subst P e h
  | no ne ↦ g i (omega arith) m
]

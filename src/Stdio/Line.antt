-- ===== src/Stdio/Line.antt =====
-- fgets on a line of numbers.
use os_assignment.Base.{
  ℕ, zero, suc, ◌+◌, ◌*◌, ◌/◌, ◌%◌, ◌<◌, ◌≤◌, ◌≡◌, ◌≢◌, refl, ap, ◌∙◌, false, List, [], ◌∷◌, ◌++◌,
  ltb, ◌==◌, length, length-append, All, All-append, arith, Bool-cases, if_eq_true, if_eq_false,
  inl, inr, sym, subst,
}
use os_assignment.Stdio.{take_line}
use os_assignment.Stdio.Scan.{decimal, decimals}

length-decimal : (f n : ℕ) → length (decimal f n) ≤ f
unfolding decimal
length-decimal zero n = omega arith
length-decimal (suc f) n = elim (Bool-cases (ltb n 10)) [
  | inl small ↦ omega (
    arith,
    ap length (
        if_eq_true {b = ltb n 10} ((48 + n) ∷ []) (decimal f (n / 10) ++ ((48 + n % 10) ∷ []))
          small),
  )
  | inr large ↦ omega (
    arith,
    ap length (
        if_eq_false {b = ltb n 10} ((48 + n) ∷ []) (decimal f (n / 10) ++ ((48 + n % 10) ∷ []))
          large),
    length-append (decimal f (n / 10)) ((48 + n % 10) ∷ []),
    length-decimal f (n / 10),
  )
]

-- No byte of a text is a line feed.
abbrev pub IsOneLine : List ℕ → Type 0
IsOneLine = All (λ c. c ≢ 10)

decimal-IsOneLine : (f n : ℕ) → IsOneLine (decimal f n)
unfolding decimal
decimal-IsOneLine zero n = tt
decimal-IsOneLine (suc f) n = elim (Bool-cases (ltb n 10)) [
  | inl small ↦ subst IsOneLine (sym (if_eq_true _ _ small)) ((λ e. omega arith), tt)
  | inr large ↦ subst IsOneLine (sym (if_eq_false _ _ large)) (
      All-append (λ c. c ≢ 10) (decimal f (n / 10)) _ (decimal-IsOneLine f (n / 10))
        ((λ e. omega arith), tt))
]

pub decimals-IsOneLine : (f : ℕ) (ns : List ℕ) → IsOneLine (decimals f ns)
unfolding decimals
decimals-IsOneLine f [] = tt
decimals-IsOneLine f (n ∷ ns) = (
  (λ e. omega arith),
  All-append (λ c. c ≢ 10) (decimal f n) (decimals f ns) (decimal-IsOneLine f n)
      (decimals-IsOneLine f ns),
)

pub length-decimals : (f : ℕ) (ns : List ℕ) → length (decimals f ns) ≤ length ns * suc f
unfolding decimals
length-decimals f [] = omega arith
length-decimals f (n ∷ ns) =
    omega
      (arith, length-append (decimal f n) (decimals f ns), length-decimal f n, length-decimals f ns)

-- `fgets` reads a line that has room, with its line feed.
pub take_line-IsOneLine :
    (k : ℕ) (text rest : List ℕ)
    → IsOneLine text
    → length text < k
    → take_line k (text ++ (10 ∷ rest)) ≡ (text ++ (10 ∷ []), rest)
unfolding take_line
take_line-IsOneLine zero text rest h l = absurd (omega arith)
take_line-IsOneLine (suc k) [] rest h l = refl
take_line-IsOneLine (suc k) (c ∷ cs) rest h l =
    let other : (c == 10) ≡ false = ground (arith, h.0) in
    if_eq_false _ _ other
    ∙ ap (λ (t : List ℕ × List ℕ). (c ∷ t.0, t.1)) (take_line-IsOneLine k cs rest h.1 (omega arith))

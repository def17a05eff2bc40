-- ===== src/Stdio/Scan.antt =====
-- Numbers in decimal, printed and scanned.
use os_assignment.Base.{
  ℕ, zero, suc, ◌+◌, ◌*◌, ◌/◌, ◌%◌, ◌^◌, ◌<◌, ◌≤◌, ◌≡◌, refl, ap, ◌∙◌, true, false, Option, none,
  some, List, [], ◌∷◌, ◌++◌, ltb, ◌==◌, if◌then◌else◌, length, All, arith, Bool-cases, if_eq_true,
  if_eq_false, inl, inr, sym,
}
use mathlib.Core.List.{append_assoc}
use native.Mathlib.Nat.{pow-suc}
use os_assignment.Stdio.{
  Format, is_space, is_digit, skip_space, scan_digits, checked, scan_unsigned, scan_signed,
  scan_number, scan_numbers,
}

-- The last `f` decimal digits of a number, without zeros in front.
unfoldable pub decimal : ℕ → ℕ → List ℕ
decimal zero n = []
decimal (suc f) n =
    let front = decimal f (n / 10) in
    if ltb n 10 then (48 + n) ∷ [] else front ++ ((48 + n % 10) ∷ [])

abbrev pub IsDigit : ℕ → Type 0
IsDigit c = (48 ≤ c) × (c ≤ 57)

-- A text that begins with a digit.
abbrev pub StartsDigit : List ℕ → Type 0
StartsDigit text = (d : ℕ) × (rest : List ℕ) × (text ≡ d ∷ rest) × IsDigit d

pub decimal-StartsDigit : (f n : ℕ) → StartsDigit (decimal (suc f) n)
unfolding decimal
decimal-StartsDigit zero n = elim (Bool-cases (ltb n 10)) [
  | inl small ↦ (48 + n, [], if_eq_true _ _ small, (ground arith, ground arith))
  | inr large ↦ (48 + n % 10, [], if_eq_false _ _ large, (omega arith, omega arith))
]
decimal-StartsDigit (suc f) n = elim (Bool-cases (ltb n 10)) [
  | inl small ↦ (48 + n, [], if_eq_true _ _ small, (ground arith, ground arith))
  | inr large ↦
      let (d, rest, e, h) = decimal-StartsDigit f (n / 10) in
      (
        d,
        rest ++ ((48 + n % 10) ∷ []),
        if_eq_false _ _ large ∙ ap (λ (l : List ℕ). l ++ ((48 + n % 10) ∷ [])) e,
        h,
      )
]

scan_digit :
    (n d : ℕ) (rest : List ℕ)
    → d ≤ 9
    → scan_digits n ((48 + d) ∷ rest) ≡ scan_digits (n * 10 + d) rest
unfolding scan_digits
scan_digit n d rest h =
    let digit : is_digit (48 + d) ≡ true = ground arith in
    if_eq_true _ _ digit ∙ ap (λ (k : ℕ). scan_digits k rest) (omega arith)

pub scan_digits-decimal :
    (f n : ℕ) (rest : List ℕ)
    → n < 10 ^ f
    → scan_digits 0 (decimal f n ++ rest) ≡ scan_digits n rest
unfolding decimal
scan_digits-decimal zero n rest h = ap (λ (k : ℕ). scan_digits k rest) (omega arith)
scan_digits-decimal (suc f) n rest h = elim (Bool-cases (ltb n 10)) [
  | inl small ↦
      ap (λ (l : List ℕ). scan_digits 0 (l ++ rest)) (if_eq_true _ _ small)
      ∙ scan_digit 0 n rest (ground arith)
      ∙ ap (λ (k : ℕ). scan_digits k rest) (omega arith)
  | inr large ↦
      ap (λ (l : List ℕ). scan_digits 0 (l ++ rest)) (if_eq_false _ _ large)
      ∙ ap (scan_digits 0) (append_assoc (decimal f (n / 10)) ((48 + n % 10) ∷ []) rest)
      ∙ scan_digits-decimal f (n / 10) ((48 + n % 10) ∷ rest) (omega (arith, pow-suc 10 f))
      ∙ scan_digit (n / 10) (n % 10) rest (omega arith)
      ∙ ap (λ (k : ℕ). scan_digits k rest) (omega arith)
]

-- A text that has no digit in front ends a number.
abbrev pub EndsNumber : List ℕ → Type 0
EndsNumber [] = Unit
EndsNumber (c ∷ cs) = is_digit c ≡ false

scan_digits-EndsNumber : (n : ℕ) (rest : List ℕ) → EndsNumber rest → scan_digits n rest ≡ (n, rest)
unfolding scan_digits
scan_digits-EndsNumber n [] h = refl
scan_digits-EndsNumber n (c ∷ cs) h = if_eq_false _ _ h

digit_not_space : (c : ℕ) → IsDigit c → is_space c ≡ false
digit_not_space c h = ground arith

pub skip_space_digit : (text : List ℕ) → StartsDigit text → skip_space text ≡ text
unfolding skip_space
skip_space_digit text (d, rest, e, h) =
    ap skip_space e ∙ if_eq_false _ _ (digit_not_space d h) ∙ sym e

scan_signed_digit :
    (fmt : Format) (text : List ℕ)
    → StartsDigit text
    → scan_signed fmt text ≡ checked fmt.limit (scan_digits 0 text)
unfolding scan_signed scan_unsigned
scan_signed_digit fmt text (d, rest, e, h) =
    let minus : (d == 45) ≡ false = ground arith in
    let plus : (d == 43) ≡ false = ground arith in
    let digit : is_digit d ≡ true = ground arith in
    ap (scan_signed fmt) e
    ∙ if_eq_false _ _ minus
    ∙ if_eq_false _ _ plus
    ∙ if_eq_true _ _ digit
    ∙ ap (λ (l : List ℕ). checked fmt.limit (scan_digits 0 l)) (sym e)

pub StartsDigit-append : (text rest : List ℕ) → StartsDigit text → StartsDigit (text ++ rest)
StartsDigit-append text rest (d, more, e, h) =
    (d, more ++ rest, ap (λ (l : List ℕ). l ++ rest) e, h)

-- A number behind one space, as the conversion reads it.
pub scan_number-decimal :
    (fmt : Format) (f n : ℕ) (rest : List ℕ)
    → n < fmt.limit
    → n < 10 ^ suc f
    → EndsNumber rest
    → scan_number fmt (32 ∷ (decimal (suc f) n ++ rest)) ≡ some (some n, rest)
unfolding scan_number skip_space
scan_number-decimal fmt f n rest small fits ends =
    let text = decimal (suc f) n ++ rest in
    let starts = StartsDigit-append (decimal (suc f) n) rest (decimal-StartsDigit f n) in
    let inside : ltb n fmt.limit ≡ true = ground arith in
    ap (scan_signed fmt) (skip_space_digit text starts)
    ∙ scan_signed_digit fmt text starts
    ∙ ap (checked fmt.limit)
        (scan_digits-decimal (suc f) n rest fits ∙ scan_digits-EndsNumber n rest ends)
    ∙ if_eq_true _ _ inside

-- Numbers, each behind a space.
unfoldable pub decimals : ℕ → List ℕ → List ℕ
decimals f [] = []
decimals f (n ∷ ns) = 32 ∷ (decimal f n ++ decimals f ns)

pub EndsNumber-decimals : (f : ℕ) (ns rest : List ℕ) → EndsNumber (decimals f ns ++ (10 ∷ rest))
unfolding decimals
EndsNumber-decimals f [] rest = refl
EndsNumber-decimals f (n ∷ ns) rest = refl

-- What a list of conversions makes of the outcome of the first.
abbrev then_more : Format → ℕ → Option (Option ℕ × List ℕ) → Option (List ℕ × List ℕ)
then_more fmt n o = elim o [
  | none ↦ none
  | some (none, rest) ↦ some ([], rest)
  | some (some a, rest) ↦ elim (scan_numbers fmt n rest) [
    | none ↦ none
    | some (more, rest') ↦ some (a ∷ more, rest')
  ]
]

pub scan_numbers-decimals :
    (fmt : Format) (f : ℕ) (ns rest : List ℕ)
    → All (λ n. (n < fmt.limit) × (n < 10 ^ suc f)) ns
    → scan_numbers fmt (length ns) (decimals (suc f) ns ++ (10 ∷ rest)) ≡ some (ns, 10 ∷ rest)
unfolding scan_numbers decimals
scan_numbers-decimals fmt f [] rest h = refl
scan_numbers-decimals fmt f (n ∷ ns) rest h =
    let tail = decimals (suc f) ns ++ (10 ∷ rest) in
    ap (λ (l : List ℕ). scan_numbers fmt (suc (length ns)) (32 ∷ l))
      (append_assoc (decimal (suc f) n) (decimals (suc f) ns) (10 ∷ rest))
    ∙ ap (then_more fmt (length ns))
        (scan_number-decimal fmt f n tail h.0.0 h.0.1 (EndsNumber-decimals (suc f) ns rest))
    ∙ ap
        (λ (o : Option (List ℕ × List ℕ)). elim o [
          | none ↦ none
          | some (more, rest') ↦ some (n ∷ more, rest')
        ])
        (scan_numbers-decimals fmt f ns rest h.1)

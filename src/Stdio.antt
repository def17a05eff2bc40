-- ===== src/Stdio.antt =====
-- The functions of the C library that loader.c and os.c read their files with, as far as their
-- formats go, on a text without NUL. `none` is what C leaves undefined: a number that its type does not hold.
pub mod Scan
pub mod Line
use os_assignment.Base.{
  ℕ, zero, suc, ◌+◌, ◌-◌, ◌*◌, ◌%◌, ◌^◌, Bool, ◌&&◌, ◌||◌, Option, none, some, List, [], ◌∷◌, ltb,
  leb, ◌==◌, if◌then◌else◌,
}

-- `isspace` and `isdigit`
abbrev pub is_space : ℕ → Bool
is_space c = c == 32 || (leb 9 c && leb c 13)

abbrev pub is_digit : ℕ → Bool
is_digit c = leb 48 c && leb c 57

-- White space in a format, and in front of a conversion.
unfoldable pub skip_space : List ℕ → List ℕ
skip_space [] = []
skip_space (c ∷ cs) = let later = skip_space cs in if is_space c then later else c ∷ cs

-- `%s` behind the white space: the word and the rest.
unfoldable pub take_word : List ℕ → List ℕ × List ℕ
take_word [] = ([], [])
take_word (c ∷ cs) =
    let later = take_word cs in if is_space c then ([], c ∷ cs) else (c ∷ later.0, later.1)

-- The digits of a number, behind `n`.
unfoldable pub scan_digits : ℕ → List ℕ → ℕ × List ℕ
scan_digits n [] = (n, [])
scan_digits n (c ∷ cs) =
    let later = scan_digits (n * 10 + (c - 48)) cs in if is_digit c then later else (n, c ∷ cs)

-- The formats of numbers: below what a number is, without a sign and behind `-`, and the modulus
-- of the type.
pub record Format : Type 0 where
  pub limit : ℕ
  pub minus : ℕ
  pub modulus : ℕ

-- `%d`, `%u`, and `%lu` or `%llu`
abbrev pub int : Format
int = record { limit = 2 ^ 31; minus = 2 ^ 31 + 1; modulus = 2 ^ 32 }

abbrev pub uint : Format
uint = record { limit = 2 ^ 32; minus = 2 ^ 32; modulus = 2 ^ 32 }

abbrev pub ulong : Format
ulong = record { limit = 2 ^ 64; minus = 2 ^ 64; modulus = 2 ^ 64 }

-- A conversion behind the sign, from the sign on, and in whole. The `none` inside is a conversion
-- that fails.
abbrev pub checked : ℕ → ℕ × List ℕ → Option (Option ℕ × List ℕ)
checked limit (n, rest) = if ltb n limit then some (some n, rest) else none

unfoldable pub scan_unsigned : ℕ → List ℕ → Option (Option ℕ × List ℕ)
scan_unsigned limit [] = some (none, [])
scan_unsigned limit (c ∷ cs) =
    if is_digit c then checked limit (scan_digits 0 (c ∷ cs)) else some (none, c ∷ cs)

abbrev pub negated : ℕ → Option (Option ℕ × List ℕ) → Option (Option ℕ × List ℕ)
negated modulus none = none
negated modulus (some (none, rest)) = some (none, rest)
negated modulus (some (some n, rest)) = some (some ((modulus - n) % modulus), rest)

unfoldable pub scan_signed : Format → List ℕ → Option (Option ℕ × List ℕ)
scan_signed fmt [] = some (none, [])
scan_signed fmt (c ∷ cs) =
    if c == 45
    then negated fmt.modulus (scan_unsigned fmt.minus cs)
    else if c == 43
    then scan_unsigned fmt.limit cs
    else scan_unsigned fmt.limit (c ∷ cs)

unfoldable pub scan_number : Format → List ℕ → Option (Option ℕ × List ℕ)
scan_number fmt text = scan_signed fmt (skip_space text)

-- `n` conversions in a row, up to the first that fails: the numbers that are stored.
unfoldable pub scan_numbers : Format → ℕ → List ℕ → Option (List ℕ × List ℕ)
scan_numbers fmt zero text = some ([], text)
scan_numbers fmt (suc n) text = elim (scan_number fmt text) [
  | none ↦ none
  | some (none, rest) ↦ some ([], rest)
  | some (some a, rest) ↦ elim (scan_numbers fmt n rest) [
    | none ↦ none
    | some (more, rest') ↦ some (a ∷ more, rest')
  ]
]

-- `fgets` for a buffer of one byte more than its first argument.
unfoldable pub take_line : ℕ → List ℕ → List ℕ × List ℕ
take_line zero text = ([], text)
take_line (suc n) [] = ([], [])
take_line (suc n) (c ∷ cs) =
    let later = take_line n cs in if c == 10 then (c ∷ [], cs) else (c ∷ later.0, later.1)

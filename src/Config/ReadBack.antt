-- ===== src/Config/ReadBack.antt =====
-- read_config: what it reads back from a printed configuration.
use os_assignment.Base.{
  ℕ, suc, ◌^◌, ◌<◌, ◌≡◌, refl, ap, ◌∙◌, Option, none, some, List, [], ◌∷◌, ◌++◌, length, All, arith,
  Bool-cases, if_eq_true, if_eq_false, inl, inr, sym, rounds,
}
use mathlib.Core.List.{append_assoc}
use os_assignment.Stdio.{int, is_space, skip_space, scan_signed, scan_number, scan_numbers}
use os_assignment.Stdio.Scan.{
  decimal, decimals, decimal-StartsDigit, StartsDigit-append, skip_space_digit, EndsNumber-decimals,
  scan_number-decimal, scan_numbers-decimals,
}
use os_assignment.Config.{
  Job, Config, or_zero, read_sizes, read_jobs, with_sizes, with_ram, with_counts, read_config,
}
use os_assignment.Config.Entries.{
  Entry, jobs_of, IsEntry, print_entries, skip_space-print_entries, scan_number_here,
  read_jobs-print_entries,
}

skip_space-skip_space : (text : List ℕ) → skip_space (skip_space text) ≡ skip_space text
unfolding skip_space
skip_space-skip_space [] = refl
skip_space-skip_space (c ∷ cs) = elim (Bool-cases (is_space c)) [
  | inl space ↦
      ap skip_space (if_eq_true _ _ space)
      ∙ skip_space-skip_space cs
      ∙ sym (if_eq_true {b = is_space c} (skip_space cs) (c ∷ cs) space)
  | inr other ↦ ap skip_space (if_eq_false _ _ other)
]

-- What the loop over the swaps makes of the outcome of a conversion.
abbrev then_sizes : ℕ → Option (Option ℕ × List ℕ) → Option (List ℕ × List ℕ)
then_sizes n o = elim o [
  | none ↦ none
  | some (size, rest) ↦ elim (read_sizes n rest) [
    | none ↦ none
    | some (sizes, rest') ↦ some (or_zero size ∷ sizes, rest')
  ]
]

read_sizes-skip_space :
    (n : ℕ) (text : List ℕ) → read_sizes (suc n) (skip_space text) ≡ read_sizes (suc n) text
unfolding read_sizes scan_number
read_sizes-skip_space n text =
    ap (λ (l : List ℕ). then_sizes n (scan_signed int l)) (skip_space-skip_space text)

-- A size that an `int` holds.
abbrev pub IsInt : ℕ → Type 0
IsInt n = n < 2 ^ 31

read_sizes-decimals :
    (ns rest : List ℕ)
    → All IsInt ns
    → read_sizes (length ns) (decimals 10 ns ++ (10 ∷ rest)) ≡ some (ns, 10 ∷ rest)
unfolding read_sizes decimals
read_sizes-decimals [] rest h = refl
read_sizes-decimals (n ∷ ns) rest h =
    ap (λ (l : List ℕ). read_sizes (suc (length ns)) (32 ∷ l))
      (append_assoc (decimal 10 n) (decimals 10 ns) (10 ∷ rest))
    ∙ ap (then_sizes (length ns)) (
        scan_number-decimal int 9 n (decimals 10 ns ++ (10 ∷ rest)) h.0 (omega (arith, h.0))
          (EndsNumber-decimals 10 ns rest))
    ∙ ap
        (λ (o : Option (List ℕ × List ℕ)). elim o [
          | none ↦ none
          | some (sizes, rest') ↦ some (n ∷ sizes, rest')
        ])
        (read_sizes-decimals ns rest h.1)

-- The text of a configuration, and what `read_config` makes of it.
abbrev pub print_sizes : ℕ → List ℕ → List Entry → List ℕ
print_sizes memramsz sizes es =
    decimal 10 memramsz ++ (decimals 10 sizes ++ (10 ∷ print_entries es))

abbrev pub print_config : ℕ → ℕ → ℕ → List ℕ → List Entry → List ℕ
print_config time_slot num_cpus memramsz sizes es =
    (decimal 10 time_slot ++ decimals 10 (num_cpus ∷ length es ∷ []))
    ++ (10 ∷ print_sizes memramsz sizes es)

abbrev pub config_of : ℕ → ℕ → ℕ → List ℕ → List Entry → Config
config_of time_slot num_cpus memramsz sizes es = record {
  time_slot = time_slot;
  num_cpus = num_cpus;
  num_processes = length es;
  memramsz = memramsz;
  memswpsz = sizes;
  ld_processes = jobs_of es;
}

read_counts :
    (time_slot num_cpus n : ℕ) (rest : List ℕ)
    → IsInt time_slot
    → IsInt num_cpus
    → IsInt n
    → scan_numbers int 3 ((decimal 10 time_slot ++ decimals 10 (num_cpus ∷ n ∷ [])) ++ (10 ∷ rest))
      ≡ some (time_slot ∷ num_cpus ∷ n ∷ [], 10 ∷ rest)
unfolding scan_numbers scan_number skip_space decimals
read_counts time_slot num_cpus n rest h h' h'' =
    scan_numbers-decimals int 9 (time_slot ∷ num_cpus ∷ n ∷ []) rest
      ((h, omega (arith, h)), ((h', omega (arith, h')), ((h'', omega (arith, h'')), tt)))

read_ram :
    (ns : List ℕ) (memramsz : ℕ) (sizes : List ℕ) (es : List Entry)
    → IsInt memramsz
    → length sizes ≡ 4
    → All IsInt sizes
    → with_ram ns (scan_number int (skip_space (10 ∷ print_sizes memramsz sizes es)))
      ≡ with_sizes ns memramsz (some (sizes, 10 ∷ print_entries es))
unfolding skip_space
read_ram ns memramsz sizes es h four small =
    let tail = decimals 10 sizes ++ (10 ∷ print_entries es) in
    let starts = StartsDigit-append (decimal 10 memramsz) tail (decimal-StartsDigit 9 memramsz) in
    ap (λ (l : List ℕ). with_ram ns (scan_number int l))
      (skip_space_digit (decimal 10 memramsz ++ tail) starts)
    ∙ ap (with_ram ns) (
        scan_number_here int 9 memramsz tail h (omega (arith, h))
          (EndsNumber-decimals 10 sizes (print_entries es)))
    ∙ ap (with_sizes ns memramsz) (
        read_sizes-skip_space 3 tail
        ∙ ap (λ (n : ℕ). read_sizes n tail) (sym four)
        ∙ read_sizes-decimals sizes (print_entries es) small)

-- `read_config` reads back a printed configuration of four swaps: as long as the sizes and counts
-- are below 2 ^ 31, the times and priorities below 2 ^ 64, and every name has 1 to 88 bytes and no
-- white space, it neither exits nor runs into undefined behaviour, and every variable has the
-- printed value, each path being the name behind "input/proc/".
pub read_config-print_config :
    (time_slot num_cpus memramsz : ℕ) (sizes : List ℕ) (es : List Entry)
    → IsInt time_slot
    → IsInt num_cpus
    → IsInt memramsz
    → length sizes ≡ 4
    → All IsInt sizes
    → IsInt (length es)
    → All IsEntry es
    → read_config (some (print_config time_slot num_cpus memramsz sizes es))
      ≡ some (some (config_of time_slot num_cpus memramsz sizes es))
unfolding read_config skip_space
read_config-print_config time_slot num_cpus memramsz sizes es h h' h'' four small few entries =
    let ns = time_slot ∷ num_cpus ∷ length es ∷ [] in
    let all_of_them : rounds (length es) ≡ length es = ground arith in
    let jobs : read_jobs (rounds (length es)) (skip_space (10 ∷ print_entries es))
        ≡ some (jobs_of es) =
      ap (λ (n : ℕ). read_jobs n (skip_space (10 ∷ print_entries es))) all_of_them
      ∙ ap (read_jobs (length es)) (skip_space-print_entries es)
      ∙ read_jobs-print_entries es entries in
    ap with_counts
      (read_counts time_slot num_cpus (length es) (print_sizes memramsz sizes es) h h' few)
    ∙ read_ram ns memramsz sizes es h'' four small
    ∙ ap
        (λ (o : Option (List Job)). elim o [
          | none ↦ none
          | some jobs ↦ some (
              some (record {
                time_slot = time_slot;
                num_cpus = num_cpus;
                num_processes = length es;
                memramsz = memramsz;
                memswpsz = sizes;
                ld_processes = jobs;
              }))
        ])
        jobs

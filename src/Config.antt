-- ===== src/Config.antt =====
-- os.c: reading the configuration of a simulation, a list of bytes without NUL. The outer `none` is
-- what C leaves undefined, also a line of a process that is not complete, since it leaves an array
-- uninitialised; the inner `none` is `exit`.
pub mod Entries
pub mod ReadBack
use os_assignment.Base.{
  ℕ, zero, suc, Option, none, some, List, [], ◌∷◌, ◌++◌, leb, ◌==◌, if◌then◌else◌, length, rounds,
}
use os_assignment.Stdio.{int, ulong, skip_space, take_word, scan_number, scan_numbers}

-- An entry of `ld_processes`.
pub record Job : Type 0 where
  pub start_time : ℕ
  pub path : List ℕ
  pub prio : ℕ

-- The static variables that `read_config` sets.
pub record Config : Type 0 where
  pub time_slot : ℕ
  pub num_cpus : ℕ
  pub num_processes : ℕ
  pub memramsz : ℕ
  pub memswpsz : List ℕ
  pub ld_processes : List Job

-- A static variable that is not set is 0.
abbrev pub or_zero : Option ℕ → ℕ
or_zero none = 0
or_zero (some n) = n

abbrev pub nth : List ℕ → ℕ → ℕ
nth [] i = 0
nth (n ∷ ns) zero = n
nth (n ∷ ns) (suc i) = nth ns i

-- The loop over `memswpsz` with `n` rounds left.
pub read_sizes : ℕ → List ℕ → Option (List ℕ × List ℕ)
read_sizes zero text = some ([], text)
read_sizes (suc n) text = elim (scan_number int text) [
  | none ↦ none
  | some (size, rest) ↦ elim (read_sizes n rest) [
    | none ↦ none
    | some (sizes, rest') ↦ some (or_zero size ∷ sizes, rest')
  ]
]

-- "input/proc/"
abbrev pub proc_dir : List ℕ
proc_dir = b'i' ∷ b'n' ∷ b'p' ∷ b'u' ∷ b't' ∷ b'/' ∷ b'p' ∷ b'r' ∷ b'o' ∷ b'c' ∷ b'/' ∷ []

-- A line of a process from its name on: `path` has room for 99 bytes, 11 of which are taken.
abbrev pub with_prio : ℕ → List ℕ → Option (Option ℕ × List ℕ) → Option (Job × List ℕ)
with_prio start_time proc none = none
with_prio start_time proc (some (none, rest)) = none
with_prio start_time proc (some (some prio, rest)) =
    some (record { start_time = start_time; path = proc_dir ++ proc; prio = prio }, skip_space rest)

abbrev pub with_name : ℕ → List ℕ × List ℕ → Option (Job × List ℕ)
with_name start_time ([], rest) = none
with_name start_time (c ∷ cs, rest) =
    if leb 89 (length (c ∷ cs))
    then none
    else with_prio start_time (c ∷ cs) (scan_number ulong rest)

abbrev pub with_start : Option (Option ℕ × List ℕ) → Option (Job × List ℕ)
with_start none = none
with_start (some (none, rest)) = none
with_start (some (some start_time, rest)) = with_name start_time (take_word (skip_space rest))

unfoldable pub read_job : List ℕ → Option (Job × List ℕ)
read_job text = with_start (scan_number ulong text)

-- The loop over the processes with `n` rounds left.
pub read_jobs : ℕ → List ℕ → Option (List Job)
read_jobs zero text = some []
read_jobs (suc n) text = elim (read_job text) [
  | none ↦ none
  | some (job, rest) ↦ elim (read_jobs n rest) [ none ↦ none | some jobs ↦ some (job ∷ jobs) ]
]

-- The rest of `read_config` from the size of the RAM on, and from the sizes of the swaps on.
abbrev pub with_sizes : List ℕ → ℕ → Option (List ℕ × List ℕ) → Option (Option Config)
with_sizes ns memramsz none = none
with_sizes ns memramsz (some (sizes, rest)) =
    elim (read_jobs (rounds (nth ns 2)) (skip_space rest)) [
      | none ↦ none
      | some jobs ↦ some (
          some (record {
            time_slot = nth ns 0;
            num_cpus = nth ns 1;
            num_processes = nth ns 2;
            memramsz = memramsz;
            memswpsz = sizes;
            ld_processes = jobs;
          }))
    ]

abbrev pub with_ram : List ℕ → Option (Option ℕ × List ℕ) → Option (Option Config)
with_ram ns none = none
with_ram ns (some (none, rest)) = with_sizes ns 0 (read_sizes 4 rest)
with_ram ns (some (some memramsz, rest)) = with_sizes ns memramsz (read_sizes 4 (skip_space rest))

abbrev pub with_counts : Option (List ℕ × List ℕ) → Option (Option Config)
with_counts none = none
with_counts (some (ns, rest)) =
    with_ram ns (scan_number int (if length ns == 3 then skip_space rest else rest))

-- `read_config` on the file that `fopen` gives.
unfoldable pub read_config : Option (List ℕ) → Option (Option Config)
read_config none = some none
read_config (some file) = with_counts (scan_numbers int 3 file)

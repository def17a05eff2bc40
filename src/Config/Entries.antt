-- ===== src/Config/Entries.antt =====
-- The lines of the processes of a configuration, printed and read back.
use os_assignment.Base.{
  ℕ, suc, ◌^◌, ◌<◌, ◌≤◌, ◌≡◌, refl, ap, ◌∙◌, false, some, List, [], ◌∷◌, ◌++◌, leb, length, All,
  arith, if_eq_false,
}
use os_assignment.Stdio.{Format, ulong, is_space, skip_space, take_word, scan_number}
use os_assignment.Stdio.Scan.{
  decimal, decimal-StartsDigit, StartsDigit-append, skip_space_digit, EndsNumber,
  scan_number-decimal,
}
use os_assignment.Config.{Job, proc_dir, with_prio, with_name, with_start, read_job, read_jobs}

-- A line of a process: the time, the name of the file and the priority.
pub record Entry : Type 0 where
  pub start_time : ℕ
  pub proc : List ℕ
  pub prio : ℕ

abbrev pub job_of : Entry → Job
job_of e = record { start_time = e.start_time; path = proc_dir ++ e.proc; prio = e.prio }

abbrev pub jobs_of : List Entry → List Job
jobs_of [] = []
jobs_of (e ∷ es) = job_of e ∷ jobs_of es

-- The times and priorities fit 64 bits, and the name has 1 to 88 bytes and no white space.
pub record IsEntry (e : Entry) : Type 0 where
  pub start_lt : e.start_time < 2 ^ 64
  pub prio_lt : e.prio < 2 ^ 64
  pub name : All (λ c. is_space c ≡ false) e.proc
  pub not_empty : 1 ≤ length e.proc
  pub short : length e.proc < 89

abbrev pub line : Entry → List ℕ → List ℕ
line e rest =
    decimal 20 e.start_time ++ (32 ∷ (e.proc ++ (32 ∷ (decimal 20 e.prio ++ (10 ∷ rest)))))

unfoldable pub print_entries : List Entry → List ℕ
print_entries [] = []
print_entries (e ∷ es) = line e (print_entries es)

skip_space-line : (e : Entry) (rest : List ℕ) → skip_space (line e rest) ≡ line e rest
skip_space-line e rest =
    skip_space_digit (line e rest)
      (StartsDigit-append (decimal 20 e.start_time) _ (decimal-StartsDigit 19 e.start_time))

pub skip_space-print_entries : (es : List Entry) → skip_space (print_entries es) ≡ print_entries es
unfolding print_entries skip_space
skip_space-print_entries [] = refl
skip_space-print_entries (e ∷ es) = skip_space-line e (print_entries es)

take_word-append :
    (word rest : List ℕ)
    → All (λ c. is_space c ≡ false) word
    → take_word (word ++ (32 ∷ rest)) ≡ (word, 32 ∷ rest)
unfolding take_word
take_word-append [] rest h = refl
take_word-append (c ∷ cs) rest h =
    if_eq_false _ _ h.0
    ∙ ap (λ (t : List ℕ × List ℕ). (c ∷ t.0, t.1)) (take_word-append cs rest h.1)

take_name :
    (word rest : List ℕ)
    → All (λ c. is_space c ≡ false) word
    → 1 ≤ length word
    → take_word (skip_space (32 ∷ (word ++ (32 ∷ rest)))) ≡ (word, 32 ∷ rest)
unfolding skip_space
take_name [] rest h l = absurd (omega arith)
take_name (c ∷ cs) rest h l = ap take_word (if_eq_false _ _ h.0) ∙ take_word-append (c ∷ cs) rest h

with_name_short :
    (start_time : ℕ) (word rest : List ℕ)
    → 1 ≤ length word
    → length word < 89
    → with_name start_time (word, rest) ≡ with_prio start_time word (scan_number ulong rest)
with_name_short start_time [] rest h l = absurd (omega arith)
with_name_short start_time (c ∷ cs) rest h l =
    let room : leb 89 (length (c ∷ cs)) ≡ false = ground arith in if_eq_false _ _ room

-- A number that is read without the space in front of it.
pub scan_number_here :
    (fmt : Format) (f n : ℕ) (rest : List ℕ)
    → n < fmt.limit
    → n < 10 ^ suc f
    → EndsNumber rest
    → scan_number fmt (decimal (suc f) n ++ rest) ≡ some (some n, rest)
unfolding scan_number skip_space
scan_number_here fmt f n rest h h' ends = scan_number-decimal fmt f n rest h h' ends

read_job-line :
    (e : Entry) (es : List Entry)
    → IsEntry e
    → read_job (line e (print_entries es)) ≡ some (job_of e, print_entries es)
unfolding read_job skip_space
read_job-line e es i =
    let tail = decimal 20 e.prio ++ (10 ∷ print_entries es) in
    ap with_start (
      scan_number_here ulong 19 e.start_time (32 ∷ (e.proc ++ (32 ∷ tail))) i.start_lt
        (omega (arith, i.start_lt)) refl)
    ∙ ap (with_name e.start_time) (take_name e.proc tail i.name i.not_empty)
    ∙ with_name_short e.start_time e.proc (32 ∷ tail) i.not_empty i.short
    ∙ ap (with_prio e.start_time e.proc) (
        scan_number-decimal ulong 19 e.prio (10 ∷ print_entries es) i.prio_lt
          (omega (arith, i.prio_lt)) refl)
    ∙ ap (λ (l : List ℕ). some (job_of e, l)) (skip_space-print_entries es)

pub read_jobs-print_entries :
    (es : List Entry)
    → All IsEntry es
    → read_jobs (length es) (print_entries es) ≡ some (jobs_of es)
unfolding read_jobs print_entries
read_jobs-print_entries [] h = refl
read_jobs-print_entries (e ∷ es) h =
    rw (read_jobs, read_job-line e es h.0, read_jobs-print_entries es h.1) refl

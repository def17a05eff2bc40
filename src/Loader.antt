-- ===== src/Loader.antt =====
-- loader.c: reading a process from a text file, a list of bytes without NUL. The outer `none` is
-- what C leaves undefined: an uninitialised variable, an overflow of a buffer, or a number that
-- its type does not hold. The inner `none` is `exit`. What `malloc` leaves in `text` is an
-- argument.
pub mod Lines
pub mod File
pub mod Life
use os_assignment.Base.{
  ℕ, zero, suc, ◌+◌, ◌%◌, ◌^◌, Bool, true, false, ◌&&◌, Option, none, some, List, [], ◌∷◌, leb,
  ◌==◌, if◌then◌else◌, length, update,
}
use os_assignment.Stdio.{ulong, uint, skip_space, take_word, scan_numbers, take_line}
use os_assignment.Instruction.{Opcode, Inst, CodeSeg, calc, alloc, free, read, write, syscall}

-- The words of the opcodes.
abbrev pub opt_calc : List ℕ
opt_calc = b'c' ∷ b'a' ∷ b'l' ∷ b'c' ∷ []

abbrev pub opt_alloc : List ℕ
opt_alloc = b'a' ∷ b'l' ∷ b'l' ∷ b'o' ∷ b'c' ∷ []

abbrev pub opt_free : List ℕ
opt_free = b'f' ∷ b'r' ∷ b'e' ∷ b'e' ∷ []

abbrev pub opt_read : List ℕ
opt_read = b'r' ∷ b'e' ∷ b'a' ∷ b'd' ∷ []

abbrev pub opt_write : List ℕ
opt_write = b'w' ∷ b'r' ∷ b'i' ∷ b't' ∷ b'e' ∷ []

abbrev pub opt_syscall : List ℕ
opt_syscall = b's' ∷ b'y' ∷ b's' ∷ b'c' ∷ b'a' ∷ b'l' ∷ b'l' ∷ []

-- `!strcmp(s, t)`
abbrev pub same_text : List ℕ → List ℕ → Bool
same_text [] [] = true
same_text [] (d ∷ ds) = false
same_text (c ∷ cs) [] = false
same_text (c ∷ cs) (d ∷ ds) = c == d && same_text cs ds

-- `get_opcode`, where `none` is `exit`.
unfoldable pub get_opcode : List ℕ → Option Opcode
get_opcode opt =
    if same_text opt opt_calc
    then some calc
    else if same_text opt opt_alloc
    then some alloc
    else if same_text opt opt_free
    then some free
    else if same_text opt opt_read
    then some read
    else if same_text opt opt_write
    then some write
    else if same_text opt opt_syscall
    then some syscall
    else none

-- What the loop of `load` carries along: the rest of the file, and the arrays `opcode` and `buf`
-- if they hold a text.
pub record Reader : Type 0 where
  pub rest : List ℕ
  pub opcode : Option (List ℕ)
  pub buf : Option (List ℕ)

-- `fscanf(file, "%s", opcode)`: at the end of the file `opcode` stays as it is. The array has
-- room for 9 bytes.
abbrev pub into_opcode : Reader → List ℕ × List ℕ → Option (List ℕ × Reader)
into_opcode r ([], rest) = elim r.opcode [
  | none ↦ none
  | some word ↦ some (word, record r { rest = rest })
]
into_opcode r (c ∷ cs, rest) =
    if leb 10 (length (c ∷ cs))
    then none
    else some (c ∷ cs, record r { rest = rest; opcode = some (c ∷ cs) })

unfoldable pub read_opcode : Reader → Option (List ℕ × Reader)
read_opcode r = into_opcode r (take_word (skip_space r.rest))

-- The numbers that are stored go to the first fields.
abbrev pub set_args : List ℕ → Inst → Inst
set_args [] ins = ins
set_args (a ∷ []) ins = record ins { arg_0 = a }
set_args (a ∷ b ∷ []) ins = record ins { arg_0 = a; arg_1 = b }
set_args (a ∷ b ∷ c ∷ []) ins = record ins { arg_0 = a; arg_1 = b; arg_2 = c }
set_args (a ∷ b ∷ c ∷ d ∷ more) ins = record ins { arg_0 = a; arg_1 = b; arg_2 = c; arg_3 = d }

-- `fscanf` with `n` conversions and the white space behind the last, which is read only when no
-- conversion fails.
abbrev pub stored : ℕ → Inst → Reader → Option (List ℕ × List ℕ) → Option (Inst × Reader)
stored n ins r none = none
stored n ins r (some (args, rest)) =
    some (set_args args ins, record r { rest = if length args == n then skip_space rest else rest })

unfoldable pub read_args : ℕ → Inst → Reader → Option (Inst × Reader)
read_args n ins r = stored n ins r (scan_numbers ulong n r.rest)

-- `fgets` and `sscanf`: `buf` stays as it is at the end of the file, and has room for 199 bytes.
abbrev pub parsed : Inst → Reader → Option (List ℕ × List ℕ) → Option (Inst × Reader)
parsed ins r none = none
parsed ins r (some (args, rest)) = some (set_args args ins, r)

abbrev pub into_buf : Inst → Reader → List ℕ × List ℕ → Option (Inst × Reader)
into_buf ins r ([], rest) = elim r.buf [
  | none ↦ none
  | some line ↦ parsed ins r (scan_numbers ulong 4 line)
]
into_buf ins r (c ∷ cs, rest) =
    parsed ins (record r { rest = rest; buf = some (c ∷ cs) }) (scan_numbers ulong 4 (c ∷ cs))

unfoldable pub read_line : Inst → Reader → Option (Inst × Reader)
read_line ins r = into_buf ins r (take_line 199 r.rest)

-- The `switch` of `load`.
unfoldable pub fill : Opcode → Inst → Reader → Option (Inst × Reader)
fill calc ins r = some (ins, r)
fill alloc ins r = read_args 2 ins r
fill free ins r = read_args 1 ins r
fill read ins r = read_args 3 ins r
fill write ins r = read_args 3 ins r
fill syscall ins r = read_line ins r

-- One round of the loop, on what `malloc` has left in the instruction.
unfoldable pub load_inst : Inst → Reader → Option (Option (Inst × Reader))
load_inst ins r = elim (read_opcode r) [
  | none ↦ none
  | some (word, r') ↦ elim (get_opcode word) [
    | none ↦ some none
    | some opcode ↦ elim (fill opcode (record ins { opcode = opcode }) r') [
      | none ↦ none
      | some (ins', r'') ↦ some (some (ins', r''))
    ]
  ]
]

-- The loop at `i` with `n` rounds left.
unfoldable pub load_from : ℕ → ℕ → (ℕ → Inst) → Reader → Option (Option (ℕ → Inst))
load_from zero i text r = some (some text)
load_from (suc n) i text r = elim (load_inst (text i) r) [
  | none ↦ none
  | some none ↦ some none
  | some (some (ins, r')) ↦ load_from n (i + 1) (update text i ins) r'
]

-- The fields of `struct pcb_t` that `load` sets.
pub record Pcb : Type 0 where
  pub pid : ℕ
  pub priority : ℕ
  pub path : List ℕ
  pub code : CodeSeg
  pub pc : ℕ
  pub bp : ℕ

-- `snprintf` of at most 16 bytes, as a pointer has 8.
unfoldable pub take : ℕ → List ℕ → List ℕ
take zero text = []
take (suc n) [] = []
take (suc n) (c ∷ cs) = c ∷ take n cs

-- `load` on the file that `fopen` gives, with `avail_pid`: the process and the next `avail_pid`.
-- A size that is not read is not initialised.
unfoldable pub load : (ℕ → Inst) → ℕ → List ℕ → Option (List ℕ) → Option (Option (Pcb × ℕ))
load junk avail_pid path none = some none
load junk avail_pid path (some file) = elim (scan_numbers uint 2 file) [
  | some (priority ∷ size ∷ [], rest) ↦
      elim (load_from size 0 junk (record { rest = rest; opcode = none; buf = none })) [
        | none ↦ none
        | some none ↦ some none
        | some (some text) ↦ some (
            some (
              record {
                pid = avail_pid;
                priority = priority;
                path = take 16 path;
                code = record { text = text; size = size };
                pc = 0;
                bp = 2 ^ 10;
              },
              (avail_pid + 1) % 2 ^ 32,
            ))
      ]
  | _ ↦ none
]

-- ===== src/Loader/Lines.antt =====
-- The lines of a program, printed and read back one by one.
use os_assignment.Base.{
  ℕ, ◌^◌, ◌<◌, ◌≡◌, refl, ap, ◌∙◌, true, Option, some, List, [], ◌∷◌, ◌++◌, ◌==◌, length, All,
  arith, if_eq_true,
}
use os_assignment.Instruction.{Opcode, Inst, calc, alloc, free, read, write, syscall}
use os_assignment.Stdio.{ulong, skip_space, take_word, scan_numbers, take_line}
use os_assignment.Loader.{
  opt_calc, opt_alloc, opt_free, opt_read, opt_write, opt_syscall, get_opcode, Reader, into_opcode,
  read_opcode, set_args, stored, read_args, parsed, into_buf, read_line, fill, load_inst,
}
use os_assignment.Stdio.Scan.{decimals, scan_numbers-decimals}
use os_assignment.Stdio.Line.{decimals-IsOneLine, length-decimals, take_line-IsOneLine}

-- The word of an opcode, and the arguments that belong to it.
abbrev pub word : Opcode → List ℕ
word calc = opt_calc
word alloc = opt_alloc
word free = opt_free
word read = opt_read
word write = opt_write
word syscall = opt_syscall

abbrev pub args : Opcode → Inst → List ℕ
args calc ins = []
args alloc ins = ins.arg_0 ∷ ins.arg_1 ∷ []
args free ins = ins.arg_0 ∷ []
args read ins = ins.arg_0 ∷ ins.arg_1 ∷ ins.arg_2 ∷ []
args write ins = ins.arg_0 ∷ ins.arg_1 ∷ ins.arg_2 ∷ []
args syscall ins = ins.arg_0 ∷ ins.arg_1 ∷ ins.arg_2 ∷ ins.arg_3 ∷ []

-- The text of the instructions: a line for each.
abbrev pub line : Opcode → Inst → List ℕ → List ℕ
line opcode ins rest = word opcode ++ (decimals 20 (args opcode ins) ++ (10 ∷ rest))

unfoldable pub print : List Inst → List ℕ
print [] = []
print (ins ∷ more) = line ins.opcode ins (print more)

-- The arguments fit 64 bits.
abbrev pub AreWords : List ℕ → Type 0
AreWords = All (λ n. n < 2 ^ 64)

-- What `load` makes of an instruction in `text` that `malloc` has left as `junk`.
abbrev pub filled : Inst → Inst → Inst
filled junk ins = set_args (args ins.opcode ins) (record junk { opcode = ins.opcode })

get_opcode-word : (opcode : Opcode) → get_opcode (word opcode) ≡ some opcode
unfolding get_opcode
get_opcode-word calc = refl
get_opcode-word alloc = refl
get_opcode-word free = refl
get_opcode-word read = refl
get_opcode-word write = refl
get_opcode-word syscall = refl

take_word-line :
    (opcode : Opcode) (ins : Inst) (rest : List ℕ)
    → take_word (line opcode ins rest) ≡ (word opcode, decimals 20 (args opcode ins) ++ (10 ∷ rest))
unfolding take_word decimals
take_word-line calc ins rest = refl
take_word-line alloc ins rest = refl
take_word-line free ins rest = refl
take_word-line read ins rest = refl
take_word-line write ins rest = refl
take_word-line syscall ins rest = refl

skip_space-line :
    (opcode : Opcode) (ins : Inst) (rest : List ℕ)
    → skip_space (line opcode ins rest) ≡ line opcode ins rest
unfolding skip_space
skip_space-line calc ins rest = refl
skip_space-line alloc ins rest = refl
skip_space-line free ins rest = refl
skip_space-line read ins rest = refl
skip_space-line write ins rest = refl
skip_space-line syscall ins rest = refl

skip_space-print : (more : List Inst) → skip_space (print more) ≡ print more
unfolding print skip_space
skip_space-print [] = refl
skip_space-print (ins ∷ more) = skip_space-line ins.opcode ins (print more)

into_opcode-word :
    (r : Reader) (opcode : Opcode) (rest : List ℕ)
    → into_opcode r (word opcode, rest)
      ≡ some (word opcode, record r { rest = rest; opcode = some (word opcode) })
into_opcode-word r calc rest = refl
into_opcode-word r alloc rest = refl
into_opcode-word r free rest = refl
into_opcode-word r read rest = refl
into_opcode-word r write rest = refl
into_opcode-word r syscall rest = refl

Fits : (ns : List ℕ) → AreWords ns → All (λ n. (n < 2 ^ 64) × (n < 10 ^ 20)) ns
Fits [] h = tt
Fits (n ∷ ns) h = ((h.0, omega (arith, h.0)), Fits ns h.1)

-- The next instructions are `more`, behind white space.
abbrev pub IsAt : List Inst → Reader → Type 0
IsAt more r = skip_space r.rest ≡ print more

-- An outcome is the instruction `ins'`, with the reader at `more`.
abbrev Reads : Inst → List Inst → Option (Inst × Reader) → Type 0
Reads ins' more o = (r : Reader) × (o ≡ some (ins', r)) × IsAt more r

pub past_line : (more : List Inst) → skip_space (10 ∷ print more) ≡ print more
unfolding skip_space
past_line more = skip_space-print more

read_args-Reads :
    (ns : List ℕ) (junk : Inst) (more : List Inst) (r : Reader)
    → AreWords ns
    → r.rest ≡ decimals 20 ns ++ (10 ∷ print more)
    → Reads (set_args ns junk) more (read_args (length ns) junk r)
unfolding read_args
read_args-Reads ns junk more r h e =
    let same : (length ns == length ns) ≡ true = ground arith in
    (
      record r { rest = skip_space (10 ∷ print more) },
      ap (stored (length ns) junk r) (
            ap (scan_numbers ulong (length ns)) e
            ∙ scan_numbers-decimals ulong 19 ns (print more) (Fits ns h))
          ∙ ap (λ (l : List ℕ). some (set_args ns junk, record r { rest = l }))
              (if_eq_true _ _ same),
      ap skip_space (past_line more) ∙ skip_space-print more,
    )

read_line-Reads :
    (ins junk : Inst) (more : List Inst) (r : Reader)
    → AreWords (args syscall ins)
    → r.rest ≡ decimals 20 (args syscall ins) ++ (10 ∷ print more)
    → Reads (set_args (args syscall ins) junk) more (read_line junk r)
unfolding read_line decimals
read_line-Reads ins junk more r h e =
    let ns = args syscall ins in
    let text = decimals 20 ns in
    let room : length text < 199 = omega (arith, length-decimals 20 ns) in
    let after : Reader = record r { rest = print more; buf = some (text ++ (10 ∷ [])) } in
    (
      after,
      ap (into_buf junk r) (
            ap (take_line 199) e
            ∙ take_line-IsOneLine 199 text (print more) (decimals-IsOneLine 20 ns) room)
          ∙ ap (parsed junk after) (scan_numbers-decimals ulong 19 ns [] (Fits ns h)),
      skip_space-print more,
    )

fill-Reads :
    (opcode : Opcode) (ins junk : Inst) (more : List Inst) (r : Reader)
    → AreWords (args opcode ins)
    → r.rest ≡ decimals 20 (args opcode ins) ++ (10 ∷ print more)
    → Reads (set_args (args opcode ins) junk) more (fill opcode junk r)
unfolding fill decimals
fill-Reads calc ins junk more r h e = (r, refl, ap skip_space e ∙ past_line more)
fill-Reads alloc ins junk more r h e = read_args-Reads (args alloc ins) junk more r h e
fill-Reads free ins junk more r h e = read_args-Reads (args free ins) junk more r h e
fill-Reads read ins junk more r h e = read_args-Reads (args read ins) junk more r h e
fill-Reads write ins junk more r h e = read_args-Reads (args write ins) junk more r h e
fill-Reads syscall ins junk more r h e = read_line-Reads ins junk more r h e

pub load_inst_line :
    (ins junk : Inst) (more : List Inst) (r : Reader)
    → AreWords (args ins.opcode ins)
    → IsAt (ins ∷ more) r
    → (r' : Reader) × (load_inst junk r ≡ some (some (filled junk ins, r'))) × IsAt more r'
unfolding load_inst read_opcode print
load_inst_line ins junk more r h e =
    let op = ins.opcode in
    let rest = decimals 20 (args op ins) ++ (10 ∷ print more) in
    let next : Reader = record r { rest = rest; opcode = some (word op) } in
    let got : read_opcode r ≡ some (word op, next) =
      ap (λ (l : List ℕ). into_opcode r (take_word l)) e
      ∙ ap (into_opcode r) (take_word-line op ins (print more))
      ∙ into_opcode-word r op rest in
    let (r', ran, at) = fill-Reads op ins (record junk { opcode = op }) more next h refl in
    (r', rw (load_inst, got, get_opcode-word op, ran) refl, at)

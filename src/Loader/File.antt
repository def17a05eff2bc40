-- ===== src/Loader/File.antt =====
-- load: what it reads back from a printed program.
use os_assignment.Base.{
  ℕ, ◌+◌, ◌%◌, ◌^◌, ◌<◌, ◌≡◌, refl, ap, ◌∙◌, none, some, List, [], ◌∷◌, ◌++◌, length, All, arith,
  update, window, window_ext, ap₂,
}
use os_assignment.Instruction.{Inst}
use os_assignment.Stdio.{uint, scan_number, skip_space, scan_numbers}
use os_assignment.Loader.{Reader, load_from, Pcb, take, load}
use os_assignment.Stdio.Scan.{decimal, decimals, scan_numbers-decimals}
use os_assignment.Loader.Lines.{args, print, AreWords, filled, IsAt, past_line, load_inst_line}

-- Instructions on top of what the array held before.
abbrev pub fill_all : List Inst → List Inst → List Inst
fill_all [] insts = []
fill_all (junk ∷ before) [] = []
fill_all (junk ∷ before) (ins ∷ more) = filled junk ins ∷ fill_all before more

-- `text'` holds the instructions from `i` on, and before `i` what `text` holds.
record IsLoaded (insts : List Inst) (i : ℕ) (text text' : ℕ → Inst) : Type 0 where
  loaded : window text' i (length insts) ≡ fill_all (window text i (length insts)) insts
  before : (j : ℕ) → j < i → text' j ≡ text j

load_from-IsLoaded :
    (insts : List Inst) (i : ℕ) (text : ℕ → Inst) (r : Reader)
    → All (λ ins. AreWords (args ins.opcode ins)) insts
    → IsAt insts r
    → (text' : ℕ → Inst) × (load_from (length insts) i text r ≡ some (some text'))
      × IsLoaded insts i text text'
unfolding load_from
load_from-IsLoaded [] i text r h e = (text, refl, record { loaded = refl; before = λ j l. refl })
load_from-IsLoaded (ins ∷ more) i text r h e =
    let (r', ran, at) = load_inst_line ins (text i) more r h.0 e in
    let next = update text i (filled (text i) ins) in
    let (text', ran', l) = load_from-IsLoaded more (i + 1) next r' h.1 at in
    let here : text' i ≡ filled (text i) ins = l.before i (omega arith) ∙ ground arith in
    let beyond : window next (i + 1) (length more) ≡ window text (i + 1) (length more) =
      window_ext next text (i + 1) (i + 1) (length more) (λ k p. ground arith) in
    (
      text',
      rw (ran, load_from) ran',
      record {
        loaded = ap₂ ◌∷◌ here (l.loaded ∙ ap (λ (w : List Inst). fill_all w more) beyond);
        before = λ j p. l.before j (omega arith) ∙ ground arith;
      },
    )

-- The text of a process file: the priority and the number of instructions, and the instructions.
abbrev pub print_file : ℕ → List Inst → List ℕ
print_file priority insts =
    (decimal 10 priority ++ decimals 10 (length insts ∷ [])) ++ (10 ∷ print insts)

header_numbers :
    (priority : ℕ) (insts : List Inst)
    → priority < 2 ^ 32
    → length insts < 2 ^ 32
    → scan_numbers uint 2 (print_file priority insts)
      ≡ some (priority ∷ length insts ∷ [], 10 ∷ print insts)
unfolding scan_numbers scan_number skip_space decimals
header_numbers priority insts h h' =
    scan_numbers-decimals uint 9 (priority ∷ length insts ∷ []) (print insts)
      ((h, omega (arith, h)), ((h', omega (arith, h')), tt))

-- `load` reads back a printed program, as long as the priority and the number of instructions fit
-- 32 bits and the arguments 64: it neither exits nor runs into undefined behaviour, and the
-- process has the priority, as many instructions, each with its opcode and its arguments on top of
-- what the memory held, the program counter 0, and `avail_pid` as its id.
pub load-print_file :
    (junk : ℕ → Inst) (avail_pid : ℕ) (path : List ℕ) (priority : ℕ) (insts : List Inst)
    → priority < 2 ^ 32
    → length insts < 2 ^ 32
    → All (λ ins. AreWords (args ins.opcode ins)) insts
    → (proc : Pcb) × (load junk avail_pid path (some (print_file priority insts))
        ≡ some (some (proc, (avail_pid + 1) % 2 ^ 32)))
      × (proc.pid ≡ avail_pid)
      × (proc.priority ≡ priority)
      × (proc.pc ≡ 0)
      × (proc.code.size ≡ length insts)
      × (window proc.code.text 0 (length insts) ≡ fill_all (window junk 0 (length insts)) insts)
unfolding load
load-print_file junk avail_pid path priority insts h h' words =
    let begun : Reader = record { rest = 10 ∷ print insts; opcode = none; buf = none } in
    let (text, ran, l) = load_from-IsLoaded insts 0 junk begun words (past_line insts) in
    (
      record {
        pid = avail_pid;
        priority = priority;
        path = take 16 path;
        code = record { text = text; size = length insts };
        pc = 0;
        bp = 2 ^ 10;
      },
      rw (load, header_numbers priority insts h h', ran) refl,
      refl,
      refl,
      refl,
      refl,
      l.loaded,
    )

-- ===== src/Tests/Loading.antt =====
-- loader.c on the file of a program of four instructions, and os.c on a configuration of one process.
use os_assignment.Base.{
  ℕ, ◌%◌, ◌^◌, ◌≡◌, refl, true, some, List, [], ◌∷◌, window, All, arith, ltb, ◌==◌, if◌then◌else◌,
}
use os_assignment.Memphy.{Memphy}
use os_assignment.Table.{sign_extend, table_base}
use os_assignment.Process.{init_mm}
use os_assignment.Process.Fresh.{with_frame_cleared}
use os_assignment.Process.Dump.{IsPrintable}
use os_assignment.Region.{Mm}
use os_assignment.Syscall.{Kernel}
use os_assignment.Instruction.{
  Opcode, Inst, State, run, run_times, calc, alloc, free, write, syscall,
}
use os_assignment.Instruction.Program.{Finished}
use os_assignment.Stdio.Scan.{decimal, decimals}
use os_assignment.Config.{read_config}
use os_assignment.Config.Entries.{Entry, IsEntry}
use os_assignment.Config.ReadBack.{print_config, config_of, read_config-print_config}
use os_assignment.Loader.{Pcb, load}
use os_assignment.Loader.Lines.{args, AreWords, print}
use os_assignment.Loader.File.{fill_all, print_file, load-print_file}
use os_assignment.Loader.Life.{with_process, load-init_mm-run_times}

abbrev inst : Opcode → ℕ → ℕ → ℕ → Inst
inst opcode arg_0 arg_1 arg_2 = record {
  opcode = opcode;
  arg_0 = arg_0;
  arg_1 = arg_1;
  arg_2 = arg_2;
  arg_3 = 0;
}

abbrev insts : List Inst
insts = inst alloc 300 0 0 ∷ inst calc 0 0 0 ∷ inst write 65 0 20 ∷ inst syscall 3 7 0 ∷ []

insts-AreWords : All (λ ins. AreWords (args ins.opcode ins)) insts
insts-AreWords = (
  (omega arith, (omega arith, tt)),
  (
    tt,
    (
      (omega arith, (omega arith, (omega arith, tt))),
      ((omega arith, (omega arith, (omega arith, (omega arith, tt)))), tt),
    ),
  ),
)

-- What is in the memory before.
abbrev before : ℕ → Inst
before i = inst free 9 9 9

run_print :
    print (inst free 12 0 0 ∷ inst calc 0 0 0 ∷ [])
    ≡ b'f' ∷ b'r' ∷ b'e' ∷ b'e' ∷ 32 ∷ b'1' ∷ b'2' ∷ 10 ∷ b'c' ∷ b'a' ∷ b'l' ∷ b'c' ∷ 10 ∷ []
unfolding print decimals decimal
run_print = refl

load-print_file_example :
    (proc : Pcb) × (load before 1 [] (some (print_file 2 insts)) ≡ some (some (proc, 2 % 2 ^ 32)))
    × (proc.pid ≡ 1)
    × (proc.priority ≡ 2)
    × (proc.pc ≡ 0)
    × (proc.code.size ≡ 4)
    × (window proc.code.text 0 4 ≡ fill_all (window before 0 4) insts)
load-print_file_example =
    load-print_file before 1 [] 2 insts (omega arith) (omega arith) insts-AreWords

-- The entry at 0 names the frame 1, which is free; every byte behind it is 77.
abbrev ram : Memphy
ram = record {
  storage = λ i. if i == 0 then 1 else if ltb i 4 then 0 else 77;
  maxsz = 8192;
  rdmflg = true;
  cursor = 0;
  free_fp_list = 1 ∷ [];
}

ram-IsPrintable : IsPrintable (with_frame_cleared 1 ram)
unfolding table_base sign_extend
ram-IsPrintable = record { first = omega arith; second = omega arith }

abbrev kernel : Kernel
kernel = record {
  running_list = record { proc = λ i. 0; size = 0 };
  ready_queue = record { proc = λ i. 0; size = 0 };
  pid = λ p. p;
  mm = λ p. record {
    pgd = 0;
    mmap = [];
    symrgtbl = λ i. record { rg_start = 0; rg_end = 0 };
    fifo_pgn = [];
  };
  mram = ram;
  active_mswp = ram;
}

load-init_mm-run_times_example :
    (p : Pcb) × (mm : Mm) × (n : Memphy) × (t : State) × (load before 1 []
        (some (print_file 2 insts))
      ≡ some (some (p, 2 % 2 ^ 32)))
    × (init_mm [] ram ≡ some (some mm, n))
    × (run_times 4 0 p.code (with_process kernel (λ q. 0) 7 mm n) 7 ≡ some t)
    × (run 0 p.code t 7 ≡ some (1, t))
    × Finished (with_process kernel (λ q. 0) 7 mm n) 7 4 t
load-init_mm-run_times_example =
    load-init_mm-run_times before 0 1 2 1 7 [] insts [] [] kernel (λ q. 0) (omega arith)
      (omega arith) insts-AreWords (omega arith, (tt, (omega arith, ((λ e. omega arith), tt))))
      (record { random = refl; size = omega arith }) refl (omega arith) ram-IsPrintable

abbrev one_entry : Entry
one_entry = record { start_time = 5; proc = b'p' ∷ []; prio = 15 }

one_entry-IsEntry : IsEntry one_entry
one_entry-IsEntry = record {
  start_lt = omega arith;
  prio_lt = omega arith;
  name = (refl, tt);
  not_empty = omega arith;
  short = omega arith;
}

-- 2 1 1, 1024 512 0 0 0, 5 p 15
read_config-print_config_example :
    read_config (some (print_config 2 1 1024 (512 ∷ 0 ∷ 0 ∷ 0 ∷ []) (one_entry ∷ [])))
    ≡ some (some (config_of 2 1 1024 (512 ∷ 0 ∷ 0 ∷ 0 ∷ []) (one_entry ∷ [])))
read_config-print_config_example =
    read_config-print_config 2 1 1024 (512 ∷ 0 ∷ 0 ∷ 0 ∷ []) (one_entry ∷ []) (omega arith)
      (omega arith) (omega arith) refl
      (omega arith, (omega arith, (omega arith, (omega arith, tt)))) (omega arith)
      (one_entry-IsEntry, tt)

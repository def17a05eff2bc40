-- ===== src/Tests/Programs.antt =====
-- sys_mem.c and cpu.c at a kernel of two processes and a program of six instructions.
use os_assignment.Base.{
  ℕ, zero, suc, ◌%◌, ◌^◌, ◌≡◌, ◌⊎◌, refl, true, none, some, [], ◌∷◌, ◌==◌, if◌then◌else◌, arith,
}
use os_assignment.Memphy.{Memphy, done}
use os_assignment.Table.{sign_extend, table_base}
use os_assignment.Sched.{Sched}
use os_assignment.Process.Fresh.{IsFresh}
use os_assignment.Process.Dump.{IsPrintable}
use os_assignment.Processor.{Setup}
use os_assignment.Syscall.{Kernel, find_pcb_by_pid, pid_from, io_read, io_write, sys_memmap}
use os_assignment.Syscall.Find.{IsFirst, NoneHas, find_pcb_by_pid-IsFirst}
use os_assignment.Syscall.Calls.{io_read-io_write}
use os_assignment.Instruction.{
  Opcode, Inst, CodeSeg, State, run, run_times, calc, alloc, free, read, write, syscall,
}
use os_assignment.Instruction.Program.{AllTame, Finished, run_times_end}

abbrev ram : Memphy
ram = record { storage = λ i. 0; maxsz = 8192; rdmflg = true; cursor = 0; free_fp_list = 1 ∷ [] }

-- The running list holds the processes 7 and 8, with the ids 1 and 2.
abbrev kernel : Kernel
kernel = record {
  running_list = record { proc = λ i. if i == 0 then 7 else 8; size = 2 };
  ready_queue = record { proc = λ i. 0; size = 0 };
  pid = λ p. if p == 7 then 1 else 2;
  mm = λ p. record {
    pgd = 4096;
    mmap = record { vm_id = 0; vm_start = 0; vm_end = 0; sbrk = 0; vm_freerg_list = [] } ∷ [];
    symrgtbl = λ i. record { rg_start = 0; rg_end = 0 };
    fifo_pgn = [];
  };
  mram = ram;
  active_mswp = ram;
}

find_pcb_by_pid-IsFirst_example :
    IsFirst kernel.pid 2 kernel.running_list (find_pcb_by_pid kernel 2)
    ⊎ (NoneHas kernel.pid 2 kernel.running_list 2
        × (IsFirst kernel.pid 2 kernel.ready_queue (find_pcb_by_pid kernel 2)
            ⊎ ((find_pcb_by_pid kernel 2 ≡ none) × NoneHas kernel.pid 2 kernel.ready_queue 0)))
find_pcb_by_pid-IsFirst_example = find_pcb_by_pid-IsFirst kernel 2

finds_first : find_pcb_by_pid kernel 1 ≡ some 7
unfolding find_pcb_by_pid pid_from
finds_first = refl

finds_second : find_pcb_by_pid kernel 2 ≡ some 8
unfolding find_pcb_by_pid pid_from
finds_second = refl

-- The first process writes 449 to the address 20, and the second reads it there as -63.
io_read-io_write_example :
    (after : Kernel) × (sys_memmap 0 kernel 1 (record { a1 = io_write; a2 = 20; a3 = 449 })
      ≡ some (done, record { a1 = io_write; a2 = 20; a3 = 449 }, after))
    × (sys_memmap 0 after 2 (record { a1 = io_read; a2 = 20; a3 = 0 })
        ≡ some (
          done,
          record {
            a1 = io_read;
            a2 = 20;
            a3 = sign_extend (if 20 == 20 then 449 % 2 ^ 8 else ram.storage 20);
          },
          after,
        ))
io_read-io_write_example =
    io_read-io_write 0 kernel 1 2 7 8 20 20 449 0 finds_first finds_second refl (omega arith)
      (omega arith)

abbrev inst : Opcode → ℕ → ℕ → ℕ → Inst
inst opcode arg_0 arg_1 arg_2 = record {
  opcode = opcode;
  arg_0 = arg_0;
  arg_1 = arg_1;
  arg_2 = arg_2;
  arg_3 = 0;
}

-- alloc 300 0; write 65 0 20; read 0 20 5; free 0; calc; syscall 3
abbrev text : ℕ → Inst
text zero = inst alloc 300 0 0
text (suc zero) = inst write 65 0 20
text (suc (suc zero)) = inst read 0 20 5
text (suc (suc (suc zero))) = inst free 0 0 0
text (suc (suc (suc (suc zero)))) = inst calc 0 0 0
text (suc (suc (suc (suc (suc i))))) = inst syscall 3 0 0

abbrev program : CodeSeg
program = record { text = text; size = 6 }

abbrev begun : State
begun = record { kernel = kernel; pc = λ p. 0 }

program-AllTame : AllTame program
program-AllTame zero h = omega arith
program-AllTame (suc zero) h = omega arith
program-AllTame (suc (suc zero)) h = omega arith
program-AllTame (suc (suc (suc zero))) h = λ e. omega arith
program-AllTame (suc (suc (suc (suc zero)))) h = tt
program-AllTame (suc (suc (suc (suc (suc i))))) h = λ e. omega arith

kernel-IsFresh : IsFresh (kernel.mm 7) ram
kernel-IsFresh = record {
  ram = record { random = refl; size = omega arith };
  room = omega arith;
  cleared = λ a h. refl;
  pages = refl;
  area = (_, [], refl);
}

ram-IsPrintable : IsPrintable ram
unfolding table_base sign_extend
ram-IsPrintable = record { first = omega arith; second = omega arith }

run_times_end_example :
    (t : State) × (run_times 6 0 program begun 7 ≡ some t)
    × (run 0 program t 7 ≡ some (1, t))
    × Finished begun 7 6 t
run_times_end_example =
    run_times_end 0 program begun 7 kernel-IsFresh ram-IsPrintable program-AllTame (omega arith)

abbrev setup : Setup
setup = record { prio = λ p. 0; code_size = λ p. 6; time_slot = 2 }

abbrev no_sched : Sched
no_sched = record {
  mlq_ready_queue = λ i. kernel.ready_queue;
  slot = λ i. 0;
  mlq_inited = true;
  ready_queue = kernel.ready_queue;
  run_queue = kernel.ready_queue;
  running_list = kernel.running_list;
  attached = λ p. true;
}

-- The fifth instruction, a calculation, as `run` leaves it.
abbrev at_calc : State
at_calc = record { kernel = kernel; pc = λ p. 4 }

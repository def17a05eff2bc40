-- ===== src/Lib.antt =====
-- The memory manager and the scheduler of the simulated operating system under os_lamiaatrium, as
-- it is configured in os_lamiaatrium/include/os-cfg.h: MLQ_SCHED, MM_PAGING and MM64 defined.
--
-- Processors take processes from the scheduler (sched.c), which keeps them in 140 queues
-- (queue.c). The instructions of a process allocate, free, read and write regions of its virtual
-- memory (libmem.c, mm-vm.c). The pages of the memory are found through a page table of five
-- levels (mm64.c), which lies itself in the frames of a simulated RAM (mm-memphy.c); a second
-- such device is the swap. An instruction can also be a system call (syscall.c, sys_mem.c). A
-- loader (loader.c) brings in the processes that a configuration lists (os.c), and a timer
-- (timer.c) keeps the threads of the processors and of the loader in step.
--
-- The files, each with the sources under os_lamiaatrium that it models:
--   Base     the names, lists, arrays and bits that all parts share
--   Queue    src/queue.c: enqueue, dequeue, purgequeue on an array and its size
--   Sched    src/sched.c: the static variables as a record, get_mlq_proc, put_mlq_proc,
--            add_mlq_proc, init_scheduler
--   Memphy   src/mm-memphy.c: a device as a record, its operations MEMPHY_* as steps on it
--   Pte      include/mm.h, include/bitops.h: the fields of an entry; init_pte of src/mm64.c
--   Address  include/mm64.h: the indices of the five levels
--   Table    src/mm64.c: reading and writing entries, walking, pte_set_fpn, translate_address
--   Map      src/mm64.c: alloc_pages_range, vmap_page_range, vm_map_ram, __swap_cp_page
--   Region   src/libmem.c, src/mm-vm.c: the regions of a process, __alloc, __free,
--            get_free_vmrg_area, find_victim_page
--   Process  src/mm64.c, src/libmem.c: init_mm, pg_getpage, __read, __write
--   Processor  src/os.c, src/cpu.c: a time slot of cpu_routine, the program counter of run;
--            runs of several processors with the arrivals of ld_routine
--   Syscall  src/syscall.c, src/sys_mem.c, src/libstd.c: find_pcb_by_pid, the operations of
--            sys_memmap, libsyscall, on a state that holds the memories of all processes
--   Instruction  src/cpu.c: run with the effect of each instruction on those memories
--   Stdio    the conversions of fscanf, and fgets, that the loader and os.c use
--   Loader   src/loader.c: get_opcode, load
--   Config   src/os.c: read_config
--   Boot     src/os.c: main up to the creation of the threads
--   Simulation  src/os.c: cpu_routine with the whole effect of run, ld_routine, and the calls of
--            the timer, in one state that holds the scheduler, the memories and the threads, from
--            main on
--   Ready, Segment, Flat  code that the configuration leaves out: the scheduler of src/sched.c
--            without MLQ_SCHED; src/mem.c with alloc, free_data, read and write of src/cpu.c; the
--            entries of src/mm.c
--   Timer    src/timer.c: attach_event; the threads of the timer and of the devices as a step
--            relation, where each critical section is a step
--   Tests    runs at concrete inputs
-- A function of the source keeps its name, without leading underscores and without the prefix
-- MEMPHY_. A loop is a function of its own with the rounds left as first number, called with
-- the number of rounds of the source. A loop over a text or a list ends with it. Only
-- the loop of MEMPHY_mv_csr has no fixed number: it passes one of at most maxsz steps in each
-- round, so maxsz is the fuel. A pointer to a process
-- is a number with NULL as 0. What the C language leaves undefined is the result none: an access
-- outside an array or through NULL, by print_pgtbl too, which the instructions of a process call
-- at their end. BYTE is a signed char, an int has 32 bits and an addr_t 64;
-- arithmetic on addresses wraps. malloc is taken to succeed.
--
-- In Simulation a thread makes one step between two calls of the timer, and malloc gives load any
-- block that is not allocated, also one that cpu_routine has freed before.
--
-- Not modelled: the locks outside timer.c, as every operation under such a lock is one step;
-- printing, save for what print_pgtbl reads from the RAM; free_pcb_memph of src/libmem.c, which reads
-- a simulated address as a pointer; the functions of src/mm.c that only print that they are
-- deprecated; src/paging.c, a small program of its own; freeing the devices in stop_timer.
pub mod Base
pub mod Queue
pub mod Sched
pub mod Ready
pub mod Memphy
pub mod Pte
pub mod Address
pub mod Table
pub mod Map
pub mod Region
pub mod Process
pub mod Processor
pub mod Syscall
pub mod Instruction
pub mod Stdio
pub mod Loader
pub mod Config
pub mod Boot
pub mod Segment
pub mod Flat
pub mod Simulation
pub mod Timer
pub mod Tests

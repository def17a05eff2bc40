-- ===== src/Instruction.antt =====
-- cpu.c, common.h: what an instruction of a process does to the memories and to the program counter.
-- An `int` is its 32-bit pattern. What C leaves undefined gives `none`; what an uninitialised
-- variable holds is an argument, `junk`.
pub mod Steps
pub mod Program
use os_assignment.Base.{
  ℕ, zero, suc, ◌+◌, ◌-◌, ◌%◌, ◌^◌, Option, none, some, leb, ◌==◌, if◌then◌else◌, update,
}
use os_assignment.Memphy.{Memphy, Status, done, failed}
use os_assignment.Table.{print_pgtbl}
use os_assignment.Region.{Mm, liballoc, libfree}
use os_assignment.Process.{Krnl, libread, libwrite}
use os_assignment.Syscall.{Kernel, krnl_of, set_krnl, libsyscall}

-- `enum ins_opcode_t`. The `default` of `run` is for other values, which the loader never makes.
pub data Opcode : Type 0 where
  calc alloc free read write syscall : Opcode

-- `struct inst_t`
pub record Inst : Type 0 where
  pub opcode : Opcode
  pub arg_0 : ℕ
  pub arg_1 : ℕ
  pub arg_2 : ℕ
  pub arg_3 : ℕ

-- `struct code_seg_t`
pub record CodeSeg : Type 0 where
  pub text : ℕ → Inst
  pub size : ℕ

-- The memories, and the field `pc` of every process.
pub record State : Type 0 where
  pub kernel : Kernel
  pub pc : ℕ → ℕ

-- 0 and -1 as an `int`.
abbrev pub stat_of : Status → ℕ
stat_of done = 0
stat_of failed = 2 ^ 32 - 1

-- A result that comes with the memory of the process, or with the kernel.
abbrev pub with_mm : Kernel → ℕ → Option (Status × Mm) → Option (ℕ × Kernel)
with_mm k proc none = none
with_mm k proc (some (status, mm)) = some (stat_of status, record k { mm = update k.mm proc mm })

abbrev pub with_krnl : Kernel → ℕ → Option (Status × Krnl) → Option (ℕ × Kernel)
with_krnl k proc none = none
with_krnl k proc (some (status, p)) = some (stat_of status, set_krnl k proc p)

abbrev pub with_kernel : Option (Status × Kernel) → Option (ℕ × Kernel)
with_kernel none = none
with_kernel (some (status, k)) = some (stat_of status, k)

-- The value that `libread` stores goes to the copy of the instruction that `run` has made.
abbrev pub without_value : Option (Status × ℕ × Krnl) → Option (Status × Krnl)
without_value none = none
without_value (some (status, value, p)) = some (status, p)

-- The `print_pgtbl` at the end of `liballoc`, `libfree`, `libread` and `libwrite`, which os-cfg.h
-- switches on. Only `libread` comes to it after an error.
abbrev pub after_print : ℕ → Kernel → Option (Unit {0} × Memphy) → Option (ℕ × Kernel)
after_print stat k none = none
after_print stat k (some (u, mram)) = some (stat, record k { mram = mram })

abbrev pub printed : ℕ → Option (ℕ × Kernel) → Option (ℕ × Kernel)
printed proc none = none
printed proc (some (stat, k)) = after_print stat k (print_pgtbl (k.mm proc).pgd 0 k.mram)

abbrev pub printed_on_success : ℕ → Option (ℕ × Kernel) → Option (ℕ × Kernel)
printed_on_success proc none = none
printed_on_success proc (some (stat, k)) =
    if stat == stat_of failed then some (stat, k) else printed proc (some (stat, k))

-- The `switch` of `run`: `stat` and the memories. A register is passed as an `uint32_t`, the byte
-- to write as a `BYTE`.
unfoldable pub switch : ℕ → Kernel → ℕ → Inst → Opcode → Option (ℕ × Kernel)
switch junk k proc ins calc = some (0, k)
switch junk k proc ins alloc =
    printed_on_success proc (with_mm k proc (liballoc (k.mm proc) ins.arg_0 (ins.arg_1 % 2 ^ 32)))
switch junk k proc ins free =
    printed_on_success proc (with_mm k proc (libfree (k.mm proc) (ins.arg_0 % 2 ^ 32)))
switch junk k proc ins read = printed proc (
    with_krnl k proc (without_value (libread junk (krnl_of k proc) (ins.arg_0 % 2 ^ 32) ins.arg_1)))
switch junk k proc ins write = printed_on_success proc (
    with_krnl k proc (libwrite (krnl_of k proc) (ins.arg_0 % 2 ^ 8) (ins.arg_1 % 2 ^ 32) ins.arg_2))
switch junk k proc ins syscall =
    with_kernel (libsyscall junk k proc ins.arg_0 ins.arg_1 ins.arg_2 ins.arg_3)

-- What `run` gives when the `switch` has come to an end: the program counter has moved before it.
abbrev pub advanced : State → ℕ → Option (ℕ × Kernel) → Option (ℕ × State)
advanced s proc none = none
advanced s proc (some (stat, k)) =
    some (stat, record { kernel = k; pc = update s.pc proc (s.pc proc + 1) })

-- `run`, where the code of the process is `code`.
unfoldable pub run : ℕ → CodeSeg → State → ℕ → Option (ℕ × State)
run junk code s proc =
    if leb code.size (s.pc proc)
    then some (1, s)
    else (let ins = code.text (s.pc proc) in
        advanced s proc (switch junk s.kernel proc ins ins.opcode))

-- `n` calls of `run` in a row.
pub run_times : ℕ → ℕ → CodeSeg → State → ℕ → Option State
run_times zero junk code s proc = some s
run_times (suc n) junk code s proc = elim (run junk code s proc) [
  | none ↦ none
  | some (stat, t) ↦ run_times n junk code t proc
]

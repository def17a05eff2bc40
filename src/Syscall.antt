-- ===== src/Syscall.antt =====
-- syscall.c, sys_mem.c, libstd.c: the system calls. The memory of all processes is one state here,
-- since a call finds the process that it works for by its id. What an uninitialised variable
-- holds is an argument, `junk`; the messages that are printed do not appear.
pub mod Find
pub mod Calls
use os_assignment.Base.{
  ℕ, zero, suc, ◌+◌, ◌%◌, ◌^◌, not, ◌&&◌, Option, none, some, ltb, ◌==◌, if◌then◌else◌, update,
  rounds,
}
use os_assignment.Queue.{Queue, null}
use os_assignment.Memphy
use os_assignment.Memphy.{Memphy, Status, done, failed, write}
use os_assignment.Table.{sign_extend, vmap_pgd_memset}
use os_assignment.Map.{swap_cp_page}
use os_assignment.Region.{Mm, inc_vma_limit}
use os_assignment.Process.{Krnl}

-- The lists that the scheduler has put into the `struct krnl_t` of every process, the id and the
-- memory of every process, and the devices that all processes share.
pub record Kernel : Type 0 where
  pub running_list : Queue
  pub ready_queue : Queue
  pub pid : ℕ → ℕ
  pub mm : ℕ → Mm
  pub mram : Memphy
  pub active_mswp : Memphy

-- The memory of one process, and the kernel with that memory changed.
abbrev pub krnl_of : Kernel → ℕ → Krnl
krnl_of k proc = record { mm = k.mm proc; mram = k.mram; active_mswp = k.active_mswp }

abbrev pub set_krnl : Kernel → ℕ → Krnl → Kernel
set_krnl k proc p = record k {
  mm = update k.mm proc p.mm;
  mram = p.mram;
  active_mswp = p.active_mswp;
}

-- One of the loops of `find_pcb_by_pid`, at index `i` with `n` rounds left.
unfoldable pub pid_from : (ℕ → ℕ) → ℕ → (ℕ → ℕ) → ℕ → ℕ → Option ℕ
pid_from pid_of pid proc zero i = none
pid_from pid_of pid proc (suc n) i =
    let later = pid_from pid_of pid proc n (i + 1) in
    if not (proc i == null) && pid_of (proc i) == pid then some (proc i) else later

-- `find_pcb_by_pid`, where `none` is NULL.
unfoldable pub find_pcb_by_pid : Kernel → ℕ → Option ℕ
find_pcb_by_pid k pid = elim (pid_from k.pid pid k.running_list.proc k.running_list.size 0) [
  | some proc ↦ some proc
  | none ↦ pid_from k.pid pid k.ready_queue.proc k.ready_queue.size 0
]

-- `struct sc_regs`, its first three fields.
pub record Regs : Type 0 where
  pub a1 : ℕ
  pub a2 : ℕ
  pub a3 : ℕ

-- `SYSMEM_MAP_OP` and the other codes.
abbrev pub map_op : ℕ
map_op = 1

abbrev pub inc_op : ℕ
inc_op = 2

abbrev pub swp_op : ℕ
swp_op = 3

abbrev pub io_read : ℕ
io_read = 4

abbrev pub io_write : ℕ
io_write = 5

-- What a case of the `switch` makes of the outcome of its operation.
abbrev pub mapped : Kernel → Regs → Option (Option (Unit {0}) × Memphy) → Option (Regs × Kernel)
mapped k regs none = none
mapped k regs (some (result, mram)) = some (regs, record k { mram = mram })

abbrev pub swapped : Kernel → Regs → Option (Memphy × Memphy) → Option (Regs × Kernel)
swapped k regs none = none
swapped k regs (some (mram, mswp)) = some (regs, record k { mram = mram; active_mswp = mswp })

abbrev pub fetched : ℕ → Kernel → Regs → Option (Option ℕ × Memphy) → Option (Regs × Kernel)
fetched junk k regs none = none
fetched junk k regs (some (none, mram)) =
    some (record regs { a3 = sign_extend junk }, record k { mram = mram })
fetched junk k regs (some (some value, mram)) =
    some (record regs { a3 = sign_extend value }, record k { mram = mram })

abbrev pub written : Kernel → Regs → Option (Status × Memphy) → Option (Regs × Kernel)
written k regs none = none
written k regs (some (status, mram)) = some (regs, record k { mram = mram })

-- The `switch` of `__sys_memmap` for the process `caller`; the results of the operations are
-- dropped.
unfoldable pub memmap_switch : ℕ → Kernel → ℕ → Regs → Option (Regs × Kernel)
memmap_switch junk k caller regs =
    let memop = regs.a1 % 2 ^ 32 in
    if memop == map_op
    then mapped k regs (vmap_pgd_memset (k.mm caller).pgd regs.a2 (rounds regs.a3) k.mram)
    else if memop == inc_op
    then some
        (regs, record k { mm = update k.mm caller (inc_vma_limit (k.mm caller) regs.a2 regs.a3) })
    else if memop == swp_op
    then swapped k regs (swap_cp_page junk regs.a2 regs.a3 k.mram k.active_mswp)
    else if memop == io_read
    then fetched junk k regs (Memphy.read regs.a2 k.mram)
    else if memop == io_write
    then written k regs (write regs.a2 (regs.a3 % 2 ^ 8) k.mram)
    else some (regs, k)

-- `__sys_memmap`
unfoldable pub sys_memmap : ℕ → Kernel → ℕ → Regs → Option (Status × Regs × Kernel)
sys_memmap junk k pid regs = elim (find_pcb_by_pid k pid) [
  | none ↦ some (failed, regs, k)
  | some caller ↦ elim (memmap_switch junk k caller regs) [
    | none ↦ none
    | some (regs', k') ↦ some (done, regs', k')
  ]
]

-- `syscall` with the table of syscalltbl.lst: 17 is `sys_memmap`; 0, `sys_listsyscall`, prints;
-- any other number is `sys_ni_syscall`.
unfoldable pub syscall : ℕ → Kernel → ℕ → ℕ → Regs → Option (Status × Regs × Kernel)
syscall junk k pid nr regs = if nr == 17 then sys_memmap junk k pid regs else some (done, regs, k)

-- `libsyscall`: the registers that the call changes are dropped.
unfoldable pub libsyscall : ℕ → Kernel → ℕ → ℕ → ℕ → ℕ → ℕ → Option (Status × Kernel)
libsyscall junk k caller syscall_idx a1 a2 a3 =
    elim (syscall junk k (k.pid caller) (syscall_idx % 2 ^ 32)
      (record { a1 = a1; a2 = a2; a3 = a3 })) [
        | none ↦ none
        | some (status, regs, k') ↦ some (status, k')
      ]

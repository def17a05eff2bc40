-- ===== src/Syscall/Calls.antt =====
-- __sys_memmap: what the operations do for the process found.
use os_assignment.Base.{ℕ, ◌%◌, ◌^◌, ◌<◌, ◌≡◌, ap, refl, true, some, ◌==◌, if◌then◌else◌, update}
use os_assignment.Memphy.{done}
use os_assignment.Memphy.Laws.{read_random, write_random}
use os_assignment.Table.{sign_extend}
use os_assignment.Syscall.{
  Kernel, find_pcb_by_pid, Regs, io_read, io_write, fetched, written, memmap_switch, sys_memmap,
}

found :
    (junk : ℕ) (k k' : Kernel) (pid caller : ℕ) (regs regs' : Regs)
    → find_pcb_by_pid k pid ≡ some caller
    → memmap_switch junk k caller regs ≡ some (regs', k')
    → sys_memmap junk k pid regs ≡ some (done, regs', k')
unfolding sys_memmap
found junk k k' pid caller regs regs' f r = rw (f, sys_memmap, r) refl

io_write_lem :
    (junk : ℕ) (k : Kernel) (pid caller addr value : ℕ)
    → find_pcb_by_pid k pid ≡ some caller
    → k.mram.rdmflg ≡ true
    → addr < k.mram.maxsz
    → let regs : Regs = record { a1 = io_write; a2 = addr; a3 = value } in
      sys_memmap junk k pid regs
      ≡ some (
        done,
        regs,
        record k {
          mram = record (k.mram) { storage = update k.mram.storage addr (value % 2 ^ 8) };
        },
      )
unfolding memmap_switch
io_write_lem junk k pid caller addr value f r h =
    let regs : Regs = record { a1 = io_write; a2 = addr; a3 = value } in
    found junk k _ pid caller regs regs f
      (ap (written k regs) (write_random k.mram addr (value % 2 ^ 8) r h))

io_read_lem :
    (junk : ℕ) (k : Kernel) (pid caller addr dropped : ℕ)
    → find_pcb_by_pid k pid ≡ some caller
    → k.mram.rdmflg ≡ true
    → addr < k.mram.maxsz
    → sys_memmap junk k pid (record { a1 = io_read; a2 = addr; a3 = dropped })
      ≡ some (done, record { a1 = io_read; a2 = addr; a3 = sign_extend (k.mram.storage addr) }, k)
unfolding memmap_switch
io_read_lem junk k pid caller addr dropped f r h =
    let regs : Regs = record { a1 = io_read; a2 = addr; a3 = dropped } in
    found junk k _ pid caller regs _ f (ap (fetched junk k regs) (read_random k.mram addr r h))

-- What one process writes by `SYSMEM_IO_WRITE` to an address inside a random-access RAM, any
-- process reads back by `SYSMEM_IO_READ`: the low byte of the value with its sign extended. At
-- every other address it reads what was there before. Both calls return 0, as long as both ids
-- are found.
pub io_read-io_write :
    (junk : ℕ) (k : Kernel) (writer reader p q addr other value dropped : ℕ)
    → find_pcb_by_pid k writer ≡ some p
    → find_pcb_by_pid k reader ≡ some q
    → k.mram.rdmflg ≡ true
    → addr < k.mram.maxsz
    → other < k.mram.maxsz
    → (after : Kernel) × (sys_memmap junk k writer (record { a1 = io_write; a2 = addr; a3 = value })
        ≡ some (done, record { a1 = io_write; a2 = addr; a3 = value }, after))
      × (sys_memmap junk after reader (record { a1 = io_read; a2 = other; a3 = dropped })
          ≡ some (
            done,
            record {
              a1 = io_read;
              a2 = other;
              a3 = sign_extend (if other == addr then value % 2 ^ 8 else k.mram.storage other);
            },
            after,
          ))
unfolding find_pcb_by_pid
io_read-io_write junk k writer reader p q addr other value dropped f f' r h h' =
    let after : Kernel = record k {
      mram = record (k.mram) { storage = update k.mram.storage addr (value % 2 ^ 8) };
    } in
    (
      after,
      io_write_lem junk k writer p addr value f r h,
      io_read_lem junk after reader q other dropped f' r h',
    )

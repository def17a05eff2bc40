-- ===== src/Instruction/Steps.antt =====
-- cpu.c: what one call of `run` changes, whatever the instruction is.
use os_assignment.Base.{
  ℕ, ◌%◌, ◌^◌, ◌≤◌, ◌≡◌, ◌≢◌, ◌↔◌, ap, sym, subst, refl, inl, inr, Option-cases, Bool, true, false,
  Option, none, some, ltb, leb, ◌==◌, if◌then◌else◌, arith, Bool-cases, if_eq_true, if_eq_false,
}
use os_assignment.Memphy.{Memphy, Status, done, failed}
use os_assignment.Region.{Mm, liballoc, libfree}
use os_assignment.Process.{Krnl, libread, libwrite}
use os_assignment.Sched.{Sched}
use os_assignment.Processor
use os_assignment.Processor.{Setup}
use os_assignment.Syscall
use os_assignment.Syscall.{
  Kernel, krnl_of, find_pcb_by_pid, Regs, mapped, swapped, fetched, written, memmap_switch,
  sys_memmap, libsyscall, map_op, inc_op, swp_op, io_read, io_write,
}
use os_assignment.Instruction.{
  Opcode, Inst, CodeSeg, State, stat_of, with_mm, with_krnl, with_kernel, after_print, printed,
  printed_on_success, without_value, switch, advanced, run, calc, alloc, free, read, write, syscall,
}

-- The scheduler's lists and the ids of the processes are the same.
pub record SameLists (k k' : Kernel) : Type 0 where
  pub running : k'.running_list ≡ k.running_list
  pub ready : k'.ready_queue ≡ k.ready_queue
  pub ids : k'.pid ≡ k.pid

abbrev unchanged :
    {k : Kernel} {mm : ℕ → Mm} {mram active_mswp : Memphy}
    → SameLists k (record k { mm = mm; mram = mram; active_mswp = active_mswp })
unchanged = record { running = refl; ready = refl; ids = refl }

-- An outcome of the system call, or of the `switch` of `run`, keeps the lists; and the `switch`
-- does not set `stat` to 1.
abbrev KeepsLists : Kernel → Option (Regs × Kernel) → Type 0
KeepsLists k none = Unit
KeepsLists k (some (regs, k')) = SameLists k k'

abbrev Executed : Kernel → Option (ℕ × Kernel) → Type 0
Executed k none = Unit
Executed k (some (stat, k')) = (stat ≢ 1) × SameLists k k'

if_both {ℓ κ} :
    {A : Type ℓ} (P : A → Type κ) (b : Bool) {x y : A} → P x → P y → P (if b then x else y)
if_both P true h h' = h
if_both P false h h' = h'

stat_of-neq : (status : Status) → stat_of status ≢ 1
stat_of-neq done = λ e. omega arith
stat_of-neq failed = λ e. omega arith

with_mm-Executed :
    (k : Kernel) (proc : ℕ) (o : Option (Status × Mm)) → Executed k (with_mm k proc o)
with_mm-Executed k proc none = tt
with_mm-Executed k proc (some (status, mm)) = (stat_of-neq status, unchanged)

with_krnl-Executed :
    (k : Kernel) (proc : ℕ) (o : Option (Status × Krnl)) → Executed k (with_krnl k proc o)
with_krnl-Executed k proc none = tt
with_krnl-Executed k proc (some (status, p)) = (stat_of-neq status, unchanged)

after_print-Executed :
    (k k' : Kernel) (stat : ℕ) (o : Option (Unit {0} × Memphy))
    → Executed k (some (stat, k'))
    → Executed k (after_print stat k' o)
after_print-Executed k k' stat none h = tt
after_print-Executed k k' stat (some (u, mram)) h =
    (h.0, record { running = h.1.running; ready = h.1.ready; ids = h.1.ids })

printed-Executed :
    (k : Kernel) (proc : ℕ) (o : Option (ℕ × Kernel)) → Executed k o → Executed k (printed proc o)
printed-Executed k proc none h = tt
printed-Executed k proc (some (stat, k')) h = after_print-Executed k k' stat _ h

printed_on_success-Executed :
    (k : Kernel) (proc : ℕ) (o : Option (ℕ × Kernel))
    → Executed k o
    → Executed k (printed_on_success proc o)
printed_on_success-Executed k proc none h = tt
printed_on_success-Executed k proc (some (stat, k')) h =
    if_both (Executed k) (stat == stat_of failed) h (printed-Executed k proc (some (stat, k')) h)

mapped-KeepsLists :
    (k : Kernel) (regs : Regs) (o : Option (Option (Unit {0}) × Memphy))
    → KeepsLists k (mapped k regs o)
mapped-KeepsLists k regs none = tt
mapped-KeepsLists k regs (some (result, mram)) = unchanged

swapped-KeepsLists :
    (k : Kernel) (regs : Regs) (o : Option (Memphy × Memphy)) → KeepsLists k (swapped k regs o)
swapped-KeepsLists k regs none = tt
swapped-KeepsLists k regs (some (mram, mswp)) = unchanged

fetched-KeepsLists :
    (junk : ℕ) (k : Kernel) (regs : Regs) (o : Option (Option ℕ × Memphy))
    → KeepsLists k (fetched junk k regs o)
fetched-KeepsLists junk k regs none = tt
fetched-KeepsLists junk k regs (some (none, mram)) = unchanged
fetched-KeepsLists junk k regs (some (some value, mram)) = unchanged

written-KeepsLists :
    (k : Kernel) (regs : Regs) (o : Option (Status × Memphy)) → KeepsLists k (written k regs o)
written-KeepsLists k regs none = tt
written-KeepsLists k regs (some (status, mram)) = unchanged

memmap_switch-KeepsLists :
    (junk : ℕ) (k : Kernel) (caller : ℕ) (regs : Regs)
    → KeepsLists k (memmap_switch junk k caller regs)
unfolding memmap_switch
memmap_switch-KeepsLists junk k caller regs =
    let memop = regs.a1 % 2 ^ 32 in
    let P = KeepsLists k in
    if_both P (memop == map_op) (mapped-KeepsLists k regs _) (
      if_both P (memop == inc_op) unchanged (
        if_both P (memop == swp_op) (swapped-KeepsLists k regs _) (
          if_both P (memop == io_read) (fetched-KeepsLists junk k regs _)
            (if_both P (memop == io_write) (written-KeepsLists k regs _) unchanged))))

-- The same for the outcome of a whole system call.
abbrev KeepsCall : Kernel → Option (Status × Regs × Kernel) → Type 0
KeepsCall k none = Unit
KeepsCall k (some (status, regs, k')) = SameLists k k'

abbrev succeeded : Option (Regs × Kernel) → Option (Status × Regs × Kernel)
succeeded o = elim o [ none ↦ none | some (regs', k') ↦ some (done, regs', k') ]

succeeded-KeepsCall :
    (k : Kernel) (o : Option (Regs × Kernel)) → KeepsLists k o → KeepsCall k (succeeded o)
succeeded-KeepsCall k none h = tt
succeeded-KeepsCall k (some (regs', k')) h = h

sys_memmap-KeepsCall :
    (junk : ℕ) (k : Kernel) (pid : ℕ) (regs : Regs) → KeepsCall k (sys_memmap junk k pid regs)
unfolding sys_memmap
sys_memmap-KeepsCall junk k pid regs = elim (Option-cases (find_pcb_by_pid k pid)) [
  | inl missing ↦
      subst
        (λ (o : Option ℕ). KeepsCall k (elim o [
          | none ↦ some (failed, regs, k)
          | some caller ↦ succeeded (memmap_switch junk k caller regs)
        ]))
        (sym missing) unchanged
  | inr (caller, here) ↦
      subst
        (λ (o : Option ℕ). KeepsCall k (elim o [
          | none ↦ some (failed, regs, k)
          | some caller ↦ succeeded (memmap_switch junk k caller regs)
        ]))
        (sym here) (succeeded-KeepsCall k _ (memmap_switch-KeepsLists junk k caller regs))
]

without_regs-Executed :
    (k : Kernel) (o : Option (Status × Regs × Kernel))
    → KeepsCall k o
    → Executed k
        (with_kernel (elim o [ none ↦ none | some (status, regs, k') ↦ some (status, k') ]))
without_regs-Executed k none h = tt
without_regs-Executed k (some (status, regs, k')) h = (stat_of-neq status, h)

libsyscall-Executed :
    (junk : ℕ) (k : Kernel) (caller nr a1 a2 a3 : ℕ)
    → Executed k (with_kernel (libsyscall junk k caller nr a1 a2 a3))
unfolding libsyscall Syscall.syscall
libsyscall-Executed junk k caller nr a1 a2 a3 = without_regs-Executed k _ (
    if_both (KeepsCall k) (nr % 2 ^ 32 == 17) (sys_memmap-KeepsCall junk k (k.pid caller) _)
      unchanged)

switch-Executed :
    (junk : ℕ) (k : Kernel) (proc : ℕ) (ins : Inst) (opcode : Opcode)
    → Executed k (switch junk k proc ins opcode)
unfolding switch
switch-Executed junk k proc ins calc = ((λ e. omega arith), unchanged)
switch-Executed junk k proc ins alloc =
    let o = liballoc (k.mm proc) ins.arg_0 (ins.arg_1 % 2 ^ 32) in
    printed_on_success-Executed k proc (with_mm k proc o) (with_mm-Executed k proc o)
switch-Executed junk k proc ins free =
    let o = libfree (k.mm proc) (ins.arg_0 % 2 ^ 32) in
    printed_on_success-Executed k proc (with_mm k proc o) (with_mm-Executed k proc o)
switch-Executed junk k proc ins read =
    let o = without_value (libread junk (krnl_of k proc) (ins.arg_0 % 2 ^ 32) ins.arg_1) in
    printed-Executed k proc (with_krnl k proc o) (with_krnl-Executed k proc o)
switch-Executed junk k proc ins write =
    let o = libwrite (krnl_of k proc) (ins.arg_0 % 2 ^ 8) (ins.arg_1 % 2 ^ 32) ins.arg_2 in
    printed_on_success-Executed k proc (with_krnl k proc o) (with_krnl-Executed k proc o)
switch-Executed junk k proc ins syscall = libsyscall-Executed junk k proc _ _ _ _

-- What holds of a result of `run`.
RunEnds : Setup → Sched → CodeSeg → State → ℕ → Option (ℕ × State) → Type 0
RunEnds u sched code s proc none = Unit
RunEnds u sched code s proc (some (stat, t)) =
    (t.pc ≡ (Processor.run u (record { sched = sched; pc = s.pc }) proc).pc)
    × (stat ≡ 1 ↔ code.size ≤ s.pc proc)
    × SameLists s.kernel t.kernel

advanced-RunEnds :
    (u : Setup) (sched : Sched) (code : CodeSeg) (s : State) (proc : ℕ) (o : Option (ℕ × Kernel))
    → u.code_size proc ≡ code.size
    → leb code.size (s.pc proc) ≡ false
    → Executed s.kernel o
    → RunEnds u sched code s proc (advanced s proc o)
unfolding RunEnds Processor.run
advanced-RunEnds u sched code s proc none same left h = tt
advanced-RunEnds u sched code s proc (some (stat, k)) same left h =
    let now : Processor.System = record { sched = sched; pc = s.pc } in
    let inside : ltb (s.pc proc) (u.code_size proc) ≡ true = ground arith in
    (
      ap (λ (t : Processor.System). t.pc) (sym (if_eq_true _ now inside)),
      (λ e. absurd (h.0 e), λ l. absurd (ground arith)),
      h.1,
    )

run-RunEnds :
    (junk : ℕ) (u : Setup) (sched : Sched) (code : CodeSeg) (s : State) (proc : ℕ)
    → u.code_size proc ≡ code.size
    → RunEnds u sched code s proc (run junk code s proc)
unfolding RunEnds Processor.run run
run-RunEnds junk u sched code s proc same = elim (Bool-cases (leb code.size (s.pc proc))) [
  | inl over ↦
      let now : Processor.System = record { sched = sched; pc = s.pc } in
      let outside : ltb (s.pc proc) (u.code_size proc) ≡ false = ground arith in
      subst (RunEnds u sched code s proc) (sym (if_eq_true _ _ over)) (
        ap (λ (t : Processor.System). t.pc) (sym (if_eq_false _ now outside)),
        (λ e. ground arith, λ l. refl),
        unchanged,
      )
  | inr left ↦
      let ins = code.text (s.pc proc) in
      subst (RunEnds u sched code s proc) (sym (if_eq_false _ _ left)) (
        advanced-RunEnds u sched code s proc _ same left
          (switch-Executed junk s.kernel proc ins ins.opcode))
]

-- What `run` does to the program counters is what the model of the processors says, for every
-- instruction that has a defined result; and it returns 1 exactly when the program counter is at
-- or behind the end of the code. It never changes the scheduler's lists or the id of a process.
pub run_pc :
    (junk : ℕ) (u : Setup) (sched : Sched) (code : CodeSeg) (s t : State) (proc stat : ℕ)
    → u.code_size proc ≡ code.size
    → run junk code s proc ≡ some (stat, t)
    → (t.pc ≡ (Processor.run u (record { sched = sched; pc = s.pc }) proc).pc)
      × (stat ≡ 1 ↔ code.size ≤ s.pc proc)
      × SameLists s.kernel t.kernel
unfolding RunEnds
run_pc junk u sched code s t proc stat same ran =
    subst (RunEnds u sched code s proc) ran (run-RunEnds junk u sched code s proc same)

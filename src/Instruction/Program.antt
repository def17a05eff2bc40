-- ===== src/Instruction/Program.antt =====
-- cpu.c: programs whose instructions all have a result, run to their end.
use os_assignment.Base.{
  ℕ, zero, suc, ◌+◌, ◌-◌, ◌%◌, ◌^◌, ◌<◌, ◌≤◌, ◌≡◌, ◌≢◌, refl, ap, sym, subst, ◌∙◌, true, false,
  Option, some, leb, ◌==◌, update, arith, if_eq_true, if_eq_false, Bool-cases, inl, inr,
}
use os_assignment.Memphy.{Memphy, Status, done, failed}
use os_assignment.Region.{Mm, liballoc, libfree}
use os_assignment.Region.Total.{HasResult, SamePages, liballoc_total, libfree_total}
use os_assignment.Process.{Krnl, libread, libwrite}
use os_assignment.Process.Fresh.{IsFresh, libread_fresh, libwrite_fresh}
use os_assignment.Process.Dump.{IsPrintable, print_pgtbl_fresh}
use os_assignment.Syscall
use os_assignment.Syscall.{Kernel, krnl_of, libsyscall}
use os_assignment.Instruction.{
  Opcode, Inst, CodeSeg, State, stat_of, with_mm, with_krnl, with_kernel, without_value,
  after_print, printed, printed_on_success, switch, advanced, run, run_times, calc, alloc, free,
  read, write, syscall,
}

-- ALLOC, READ and WRITE name a register below 30, FREE any but 30, and the system call is not 17.
abbrev pub IsTame : Inst → Opcode → Type 0
IsTame ins calc = Unit
IsTame ins alloc = ins.arg_1 % 2 ^ 32 < 30
IsTame ins free = ins.arg_0 % 2 ^ 32 ≢ 30
IsTame ins read = ins.arg_0 % 2 ^ 32 < 30
IsTame ins write = ins.arg_1 % 2 ^ 32 < 30
IsTame ins syscall = ins.arg_0 % 2 ^ 32 ≢ 17

-- Nothing but the memory management of `proc` may differ, and that has no page as before.
pub record OnlyRegions (k : Kernel) (proc : ℕ) (k' : Kernel) : Type 0 where
  pub fresh : IsFresh (k'.mm proc) k'.mram
  pub ram : k'.mram ≡ k.mram
  pub swap : k'.active_mswp ≡ k.active_mswp
  pub others : (q : ℕ) → q ≢ proc → k'.mm q ≡ k.mm q

-- The `switch` has a result with these properties.
Quiet : Kernel → ℕ → Option (ℕ × Kernel) → Type 0
Quiet k proc o = (stat : ℕ) × (k' : Kernel) × (o ≡ some (stat, k')) × OnlyRegions k proc k'

untouched : (k : Kernel) (proc : ℕ) → IsFresh (k.mm proc) k.mram → OnlyRegions k proc k
untouched k proc f = record { fresh = f; ram = refl; swap = refl; others = λ q ne. refl }

update_at : (f : ℕ → Mm) (i : ℕ) (mm : Mm) → update f i mm i ≡ mm
update_at f i mm = let here : (i == i) ≡ true = ground arith in if_eq_true _ _ here

update_other : (f : ℕ → Mm) (i j : ℕ) (mm : Mm) → j ≢ i → update f i mm j ≡ f j
update_other f i j mm ne = let there : (j == i) ≡ false = ground arith in if_eq_false _ _ there

IsFresh-SamePages : (mm n : Mm) (m : Memphy) → SamePages mm n → IsFresh mm m → IsFresh n m
IsFresh-SamePages mm n m same f = record {
  ram = f.ram;
  room = omega (arith, f.room, same.pgd);
  cleared = λ a h. ap (λ (p : ℕ). m.storage (p + a)) same.pgd ∙ f.cleared a h;
  pages = same.pages ∙ f.pages;
  area = same.area;
}

with_mm-Quiet :
    (k : Kernel) (proc : ℕ) (o : Option (Status × Mm))
    → IsFresh (k.mm proc) k.mram
    → HasResult (k.mm proc) o
    → Quiet k proc (with_mm k proc o)
unfolding Quiet
with_mm-Quiet k proc o f (status, n, e, same) = (
  stat_of status,
  record k { mm = update k.mm proc n },
  ap (with_mm k proc) e,
  record {
    fresh =
        subst (λ (t : Mm). IsFresh t k.mram) (sym (update_at k.mm proc n))
          (IsFresh-SamePages (k.mm proc) n k.mram same f);
    ram = refl;
    swap = refl;
    others = λ q ne. update_other k.mm proc q n ne;
  },
)

-- A result that gives the memory of the process back as it was.
with_krnl-Quiet :
    (k : Kernel) (proc : ℕ) (o : Option (Status × Krnl))
    → IsFresh (k.mm proc) k.mram
    → o ≡ some (done, krnl_of k proc)
    → Quiet k proc (with_krnl k proc o)
unfolding Quiet
with_krnl-Quiet k proc o f e =
    let n = k.mm proc in
    (
      0,
      record k { mm = update k.mm proc n },
      ap (with_krnl k proc) e,
      record {
        fresh = subst (λ (t : Mm). IsFresh t k.mram) (sym (update_at k.mm proc n)) f;
        ram = refl;
        swap = refl;
        others = λ q ne. update_other k.mm proc q n ne;
      },
    )

-- A `print_pgtbl` after such a result changes nothing.
printed-Quiet :
    (k : Kernel) (proc : ℕ) (o : Option (ℕ × Kernel))
    → IsPrintable k.mram
    → Quiet k proc o
    → Quiet k proc (printed proc o)
unfolding Quiet
printed-Quiet k proc o p (stat, n, e, only) =
    let table =
      print_pgtbl_fresh (n.mm proc) n.mram only.fresh (subst IsPrintable (sym only.ram) p) in
    (stat, n, ap (printed proc) e ∙ ap (after_print stat n) table, only)

printed_on_success-Quiet :
    (k : Kernel) (proc : ℕ) (o : Option (ℕ × Kernel))
    → IsPrintable k.mram
    → Quiet k proc o
    → Quiet k proc (printed_on_success proc o)
unfolding Quiet
printed_on_success-Quiet k proc o p (stat, n, e, only) =
    elim (Bool-cases (stat == stat_of failed)) [
      | inl wrong ↦ (stat, n, ap (printed_on_success proc) e ∙ if_eq_true _ _ wrong, only)
      | inr right ↦
          let (stat', n', e', only') =
            printed-Quiet k proc (some (stat, n)) p (stat, n, refl, only) in
          (stat', n', ap (printed_on_success proc) e ∙ if_eq_false _ _ right ∙ e', only')
    ]

libsyscall_other :
    (junk : ℕ) (k : Kernel) (caller nr a1 a2 a3 : ℕ)
    → nr % 2 ^ 32 ≢ 17
    → libsyscall junk k caller nr a1 a2 a3 ≡ some (done, k)
unfolding libsyscall Syscall.syscall
libsyscall_other junk k caller nr a1 a2 a3 h =
    let not_memmap : (nr % 2 ^ 32 == 17) ≡ false = ground arith in
    rw (libsyscall, Syscall.syscall, not_memmap) refl

switch-Quiet :
    (junk : ℕ) (k : Kernel) (proc : ℕ) (ins : Inst) (opcode : Opcode)
    → IsFresh (k.mm proc) k.mram
    → IsPrintable k.mram
    → IsTame ins opcode
    → Quiet k proc (switch junk k proc ins opcode)
unfolding switch Quiet
switch-Quiet junk k proc ins calc f p tame = (0, k, refl, untouched k proc f)
switch-Quiet junk k proc ins alloc f p tame =
    let (vma, rest, e) = f.area in
    let o = liballoc (k.mm proc) ins.arg_0 (ins.arg_1 % 2 ^ 32) in
    printed_on_success-Quiet k proc (with_mm k proc o) p
      (with_mm-Quiet k proc o f (liballoc_total (k.mm proc) vma rest ins.arg_0 _ e tame))
switch-Quiet junk k proc ins free f p tame =
    let (vma, rest, e) = f.area in
    let o = libfree (k.mm proc) (ins.arg_0 % 2 ^ 32) in
    printed_on_success-Quiet k proc (with_mm k proc o) p
      (with_mm-Quiet k proc o f (libfree_total (k.mm proc) vma rest _ e tame))
switch-Quiet junk k proc ins read f p tame =
    let o = without_value (libread junk (krnl_of k proc) (ins.arg_0 % 2 ^ 32) ins.arg_1) in
    printed-Quiet k proc (with_krnl k proc o) p (
      with_krnl-Quiet k proc o f
        (ap without_value (libread_fresh junk (krnl_of k proc) _ ins.arg_1 f tame)))
switch-Quiet junk k proc ins write f p tame =
    let o = libwrite (krnl_of k proc) (ins.arg_0 % 2 ^ 8) (ins.arg_1 % 2 ^ 32) ins.arg_2 in
    printed_on_success-Quiet k proc (with_krnl k proc o) p
      (with_krnl-Quiet k proc o f (libwrite_fresh (krnl_of k proc) _ _ ins.arg_2 f tame))
switch-Quiet junk k proc ins syscall f p tame = (
  0,
  k,
  ap with_kernel (libsyscall_other junk k proc _ ins.arg_1 ins.arg_2 ins.arg_3 tame),
  untouched k proc f,
)

-- Every instruction of the code is tame.
abbrev pub AllTame : CodeSeg → Type 0
AllTame code = (i : ℕ) → i < code.size → IsTame (code.text i) (code.text i).opcode

run_inside :
    (junk : ℕ) (code : CodeSeg) (s : State) (proc : ℕ)
    → IsFresh (s.kernel.mm proc) s.kernel.mram
    → IsPrintable s.kernel.mram
    → AllTame code
    → s.pc proc < code.size
    → (stat : ℕ) × (k : Kernel) × (run junk code s proc
        ≡ some (stat, record { kernel = k; pc = update s.pc proc (s.pc proc + 1) }))
      × OnlyRegions s.kernel proc k
unfolding run Quiet
run_inside junk code s proc f p tame h =
    let ins = code.text (s.pc proc) in
    let left : leb code.size (s.pc proc) ≡ false = ground arith in
    let (stat, k, e, only) =
      switch-Quiet junk s.kernel proc ins ins.opcode f p (tame (s.pc proc) h) in
    (stat, k, if_eq_false _ _ left ∙ ap (advanced s proc) e, only)

OnlyRegions-trans :
    (k k' k'' : Kernel) (proc : ℕ)
    → OnlyRegions k proc k'
    → OnlyRegions k' proc k''
    → OnlyRegions k proc k''
OnlyRegions-trans k k' k'' proc a b = record {
  fresh = b.fresh;
  ram = b.ram ∙ a.ram;
  swap = b.swap ∙ a.swap;
  others = λ q ne. b.others q ne ∙ a.others q ne;
}

-- `t` is what `s` becomes when `proc` runs to the end of its code.
pub record Finished (s : State) (proc size : ℕ) (t : State) : Type 0 where
  pub at_end : t.pc proc ≡ size
  pub other_pc : (q : ℕ) → q ≢ proc → t.pc q ≡ s.pc q
  pub memory : OnlyRegions s.kernel proc t.kernel

run_times-Finished :
    (junk n : ℕ) (code : CodeSeg) (s : State) (proc : ℕ)
    → IsFresh (s.kernel.mm proc) s.kernel.mram
    → IsPrintable s.kernel.mram
    → AllTame code
    → n + s.pc proc ≡ code.size
    → (t : State) × (run_times n junk code s proc ≡ some t) × Finished s proc code.size t
unfolding run_times
run_times-Finished junk zero code s proc f p tame h = (
  s,
  refl,
  record { at_end = omega arith; other_pc = λ q ne. refl; memory = untouched s.kernel proc f },
)
run_times-Finished junk (suc n) code s proc f p tame h =
    let (stat, k, e, only) = run_inside junk code s proc f p tame (omega arith) in
    let next : State = record { kernel = k; pc = update s.pc proc (s.pc proc + 1) } in
    let moved : next.pc proc ≡ s.pc proc + 1 = ground arith in
    let (t, ran, finished) =
      run_times-Finished junk n code next proc only.fresh (subst IsPrintable (sym only.ram) p) tame
        (omega arith) in
    (
      t,
      rw (e, run_times) ran,
      record {
        at_end = finished.at_end;
        other_pc = λ q ne. finished.other_pc q ne ∙ ground arith;
        memory = OnlyRegions-trans s.kernel k t.kernel proc only finished.memory;
      },
    )

-- A program of tame instructions (ALLOC, READ and WRITE with a register below 30, FREE with any but
-- 30, SYSCALL with a number other than 17) ends, when no page has been mapped for the process,
-- whose empty page table lies in a random-access RAM below 2 ^ 31 bytes, and the first entries of
-- the two tables that `print_pgtbl` reaches through the first bytes of the RAM lie inside it: as
-- many calls of `run` as instructions are left lead to the end of the code, and there `run`
-- returns 1 and changes nothing. Until then no byte of the RAM or of the swap has changed,
-- whatever the program wrote, and no other process's memory or program counter.
pub run_times_end :
    (junk : ℕ) (code : CodeSeg) (s : State) (proc : ℕ)
    → IsFresh (s.kernel.mm proc) s.kernel.mram
    → IsPrintable s.kernel.mram
    → AllTame code
    → s.pc proc ≤ code.size
    → (t : State) × (run_times (code.size - s.pc proc) junk code s proc ≡ some t)
      × (run junk code t proc ≡ some (1, t))
      × Finished s proc code.size t
unfolding run
run_times_end junk code s proc f p tame h =
    let (t, ran, finished) =
      run_times-Finished junk (code.size - s.pc proc) code s proc f p tame (omega arith) in
    let over : leb code.size (t.pc proc) ≡ true = ground (arith, finished.at_end) in
    (t, ran, if_eq_true _ _ over, finished)

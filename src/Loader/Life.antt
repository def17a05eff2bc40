-- ===== src/Loader/Life.antt =====
-- loader.c, mm64.c, cpu.c together: a process from its file to the end of its program.
use os_assignment.Base.{
  ℕ, zero, suc, ◌+◌, ◌*◌, ◌%◌, ◌^◌, ◌<◌, ◌≤◌, ◌≡◌, refl, ap, ◌∙◌, some, List, [], ◌∷◌, length,
  window, All, arith, sym, subst, update,
}
use os_assignment.Memphy.{Memphy}
use os_assignment.Table.{pagesz}
use os_assignment.Table.Entry.{IsRam}
use os_assignment.Map.{Region}
use os_assignment.Region.{Mm}
use os_assignment.Process.{init_mm}
use os_assignment.Process.Fresh.{IsFresh, with_frame_cleared, init_mm-IsFresh}
use os_assignment.Process.Dump.{IsPrintable, IsPrintable-same}
use os_assignment.Syscall.{Kernel}
use os_assignment.Instruction.{
  Opcode, Inst, State, run, run_times, calc, alloc, free, read, write, syscall,
}
use os_assignment.Instruction.Program.{IsTame, AllTame, Finished, run_times_end}
use os_assignment.Loader.{set_args, Pcb, load}
use os_assignment.Loader.Lines.{args, AreWords, filled}
use os_assignment.Loader.File.{fill_all, print_file, load-print_file}

-- An instruction that `load` has read is tame if the printed one is.
IsTame-set_args :
    (opcode : Opcode) (junk ins : Inst)
    → IsTame ins opcode
    → IsTame (set_args (args opcode ins) junk) opcode
IsTame-set_args calc junk ins h = h
IsTame-set_args alloc junk ins h = h
IsTame-set_args free junk ins h = h
IsTame-set_args read junk ins h = h
IsTame-set_args write junk ins h = h
IsTame-set_args syscall junk ins h = h

set_args-opcode :
    (opcode : Opcode) (junk ins : Inst)
    → (set_args (args opcode ins) (record junk { opcode = opcode })).opcode ≡ opcode
set_args-opcode calc junk ins = refl
set_args-opcode alloc junk ins = refl
set_args-opcode free junk ins = refl
set_args-opcode read junk ins = refl
set_args-opcode write junk ins = refl
set_args-opcode syscall junk ins = refl

IsTame-filled :
    (junk ins : Inst) → IsTame ins ins.opcode → IsTame (filled junk ins) (filled junk ins).opcode
IsTame-filled junk ins h =
    subst (IsTame (filled junk ins)) (sym (set_args-opcode ins.opcode junk ins))
      (IsTame-set_args ins.opcode (record junk { opcode = ins.opcode }) ins h)

IsTame-fill_all :
    (before insts : List Inst)
    → All (λ ins. IsTame ins ins.opcode) insts
    → All (λ ins. IsTame ins ins.opcode) (fill_all before insts)
IsTame-fill_all [] insts h = tt
IsTame-fill_all (junk ∷ before) [] h = tt
IsTame-fill_all (junk ∷ before) (ins ∷ more) h =
    (IsTame-filled junk ins h.0, IsTame-fill_all before more h.1)

window-All :
    (P : Inst → Type 0) (text : ℕ → Inst) (i n k : ℕ)
    → All P (window text i n)
    → k < n
    → P (text (i + k))
window-All P text i zero k h l = absurd (omega arith)
window-All P text i (suc n) zero h l = subst (λ (j : ℕ). P (text j)) (omega arith) h.0
window-All P text i (suc n) (suc k) h l =
    subst (λ (j : ℕ). P (text j)) (omega arith) (window-All P text (i + 1) n k h.1 (omega arith))

-- The state in which `proc` has been loaded: its memory and the RAM are what `init_mm` has left.
abbrev pub with_process : Kernel → (ℕ → ℕ) → ℕ → Mm → Memphy → State
with_process k pc proc mm mram = record {
  kernel = record k { mm = update k.mm proc mm; mram = mram };
  pc = update pc proc 0;
}

-- A process from its file to its end: when the file is a printed program of tame instructions, as
-- in `run_times_end`, whose numbers fit their types, and the first free frame of a random-access
-- RAM below 2 ^ 31 bytes lies inside it, and so do, with that frame cleared, the first entries of
-- the two tables that `print_pgtbl` reaches through the first bytes of the RAM, `load` and
-- `init_mm` succeed, and as many calls of `run` as the program has instructions lead to its end, where `run` returns 1 and changes nothing. No
-- byte of the RAM or of the swap has changed since `init_mm`, and no other process's memory or
-- program counter.
pub load-init_mm-run_times :
    (text : ℕ → Inst) (junk avail_pid priority f proc : ℕ) (path : List ℕ) (insts : List Inst)
    (gaps : List Region) (rest : List ℕ) (k : Kernel) (pc : ℕ → ℕ)
    → priority < 2 ^ 32
    → length insts < 2 ^ 32
    → All (λ ins. AreWords (args ins.opcode ins)) insts
    → All (λ ins. IsTame ins ins.opcode) insts
    → IsRam k.mram
    → k.mram.free_fp_list ≡ f ∷ rest
    → f * pagesz + pagesz ≤ k.mram.maxsz
    → IsPrintable (with_frame_cleared f k.mram)
    → (p : Pcb) × (mm : Mm) × (n : Memphy) × (t : State) × (load text avail_pid path
          (some (print_file priority insts))
        ≡ some (some (p, (avail_pid + 1) % 2 ^ 32)))
      × (init_mm gaps k.mram ≡ some (some mm, n))
      × (run_times (length insts) junk p.code (with_process k pc proc mm n) proc ≡ some t)
      × (run junk p.code t proc ≡ some (1, t))
      × Finished (with_process k pc proc mm n) proc (length insts) t
load-init_mm-run_times text junk avail_pid priority f proc path insts gaps rest k pc h h' words tame
      ram listed room dump =
    let (p, loaded, id, prio, start, size, code) =
      load-print_file text avail_pid path priority insts h h' words in
    let (mm, n, made, fresh, bytes, same) = init_mm-IsFresh gaps k.mram f rest ram listed room in
    let s = with_process k pc proc mm n in
    let own : s.kernel.mm proc ≡ mm = ground arith in
    let zero_pc : s.pc proc ≡ 0 = ground arith in
    let all_tame : AllTame p.code = λ i l.
      subst (λ (j : ℕ). IsTame (p.code.text j) (p.code.text j).opcode) (omega arith)
        (window-All (λ ins. IsTame ins ins.opcode) p.code.text 0 (length insts) i
          (subst (All (λ ins. IsTame ins ins.opcode)) (sym code)
            (IsTame-fill_all (window text 0 (length insts)) insts tame))
          (omega (arith, size))) in
    let (t, ran, over, finished) =
      run_times_end junk p.code s proc (subst (λ (m : Mm). IsFresh m n) (sym own) fresh)
        (IsPrintable-same (with_frame_cleared f k.mram) n bytes same dump) all_tame (omega arith) in
    (
      p,
      mm,
      n,
      t,
      loaded,
      made,
      ap (λ (r : ℕ). run_times r junk p.code s proc) (omega (arith, size)) ∙ ran,
      over,
      subst (λ (r : ℕ). Finished s proc r t) size finished,
    )

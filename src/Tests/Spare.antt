-- ===== src/Tests/Spare.antt =====
-- The code that the configuration leaves out: sched.c without MLQ_SCHED, mem.c, and mm.c.
use os_assignment.Base.{ℕ, ◌%◌, ◌^◌, ◌≡◌, ◌≢◌, refl, true, none, some, update, arith}
use os_assignment.Queue.{Queue, empty, null}
use os_assignment.Table.{sign_extend}
use os_assignment.Ready.{
  Ready, ready_empty, init_ready, get_ready_proc, put_ready_proc, add_ready_proc,
}
use os_assignment.Ready.Turns.{IsReady, get_ready_proc-put_ready_proc}
use os_assignment.Segment.{
  Owner, Segments, init_mem, free_mem, free_data, alloc_data, read_data, write_data,
}
use os_assignment.Segment.Unmapped.{segment_access}
use os_assignment.Pte.{init_pte}
use os_assignment.Flat.{init_pte32, set_swap32, set_fpn32, set_entry32}
use os_assignment.Flat.Entries.{IsOnline, IsSwapped, flat_table}

abbrev no_queue : Queue
no_queue = record { proc = λ i. 9; size = 0 }

-- The process 8 is new, and 7 runs.
abbrev one_new : Ready
one_new = record {
  ready_queue = record { proc = λ i. 8; size = 1 };
  run_queue = no_queue;
  running_list = record { proc = λ i. 7; size = 1 };
  attached = λ p. true;
}

one_new-IsReady : IsReady one_new
one_new-IsReady = record { ready = ((λ e. omega arith), tt); run = tt }

run_empty : ready_empty (init_ready one_new) ≡ true
unfolding ready_empty init_ready empty
run_empty = refl

run_add : add_ready_proc one_new null ≡ none
unfolding add_ready_proc
run_add = refl

get_ready_proc-put_ready_proc_example :
    (t : Ready) × (put_ready_proc one_new 7 ≡ some t)
    × ((get_ready_proc (λ p. 5) t).1 ≢ null)
    × ((get_ready_proc (λ p. 5) t).0.ready_queue ≡ one_new.ready_queue)
get_ready_proc-put_ready_proc_example =
    get_ready_proc-put_ready_proc (λ p. 5) one_new 7 one_new-IsReady (λ e. omega arith)
      (omega arith)

abbrev owner : Owner
owner = record {
  regs = λ i. 100;
  page_table = record { v_index = λ i. 0; next_lv = λ i. none; size = 3 };
  bp = 1024;
}

abbrev memory : Segments
memory = record { ram = λ i. 7; mem_stat = λ i. record { proc = 7; index = 7; next = 7 } }

run_init : (init_mem memory).ram 5 ≡ 0
unfolding init_mem
run_init = refl

run_free : free_data owner 3 ≡ some 0
unfolding free_data free_mem
run_free = refl

segment_access_example :
    (alloc_data owner 300 2 ≡ some (1, owner))
    × (write_data 0 owner 65 2 20 memory ≡ some (1, memory))
    × (read_data 0 200 owner 1 20 2 memory
        ≡ some (0, record owner { regs = update owner.regs 2 (sign_extend 200) }))
segment_access_example = segment_access 0 200 300 65 1 2 20 owner memory (omega arith) (omega arith)

flat_table_example :
    (init_pte32 77 1 5 0 0 3 9 ≡ init_pte 77 1 5 0 0 3 9)
    × IsOnline (set_fpn32 (λ i. 77) 4 5 4) 5
    × IsSwapped (set_swap32 (λ i. 77) 4 3 9 4) 3 9
    × ((pte_val : ℕ) → set_entry32 (λ i. 77) 4 pte_val 4 ≡ pte_val % 2 ^ 32)
    × ((other pte_val : ℕ)
        → other ≢ 4
        → (set_fpn32 (λ i. 77) 4 5 other ≡ 77)
          × (set_swap32 (λ i. 77) 4 3 9 other ≡ 77)
          × (set_entry32 (λ i. 77) 4 pte_val other ≡ 77))
flat_table_example = flat_table (λ i. 77) 4 1 5 0 0 3 9

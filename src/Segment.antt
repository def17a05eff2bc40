-- ===== src/Segment.antt =====
-- mem.c, and the functions of cpu.c that use it without MM_PAGING: the memory of segments, which the
-- configuration leaves out. The code says of itself that it is obsolete. What an uninitialised
-- variable holds is an argument, `junk`; `none` is an access outside an array.
pub mod Unmapped
use os_assignment.Base.{
  ℕ, zero, suc, ◌+◌, ◌-◌, ◌*◌, ◌/◌, ◌%◌, ◌^◌, Bool, true, false, Option, none, some, ltb, ◌==◌,
  if◌then◌else◌, update, rounds,
}
use os_assignment.Table.{sign_extend}

-- `OFFSET_LEN`, `PAGE_LEN`, `PAGE_SIZE`, `NUM_PAGES` and `RAM_SIZE`
abbrev pub offset_len : ℕ
offset_len = 10

abbrev pub page_len : ℕ
page_len = 5

abbrev pub page_size : ℕ
page_size = 2 ^ 10

abbrev pub num_pages : ℕ
num_pages = 2 ^ 10

abbrev pub ram_size : ℕ
ram_size = 2 ^ 20

-- `struct trans_table_t` and `struct page_table_t`
pub record TransTable : Type 0 where
  pub v_index : ℕ → ℕ
  pub p_index : ℕ → ℕ
  pub size : ℕ

pub record PageTable : Type 0 where
  pub v_index : ℕ → ℕ
  pub next_lv : ℕ → Option TransTable
  pub size : ℕ

-- The fields of `struct pcb_t` that belong to this memory.
pub record Owner : Type 0 where
  pub regs : ℕ → ℕ
  pub page_table : PageTable
  pub bp : ℕ

-- An entry of `_mem_stat`, and the static variables.
pub record PageStat : Type 0 where
  pub proc : ℕ
  pub index : ℕ
  pub next : ℕ

pub record Segments : Type 0 where
  pub ram : ℕ → ℕ
  pub mem_stat : ℕ → PageStat

-- `memset` to 0 of the first `n` cells.
abbrev pub zeroed {ℓ} : {A : Type ℓ} → A → ℕ → (ℕ → A) → ℕ → A
zeroed blank n a i = if ltb i n then blank else a i

unfoldable pub init_mem : Segments → Segments
init_mem m = record {
  ram = zeroed 0 ram_size m.ram;
  mem_stat = zeroed (record { proc = 0; index = 0; next = 0 }) num_pages m.mem_stat;
}

pub get_first_lv : ℕ → ℕ
get_first_lv addr = addr / 2 ^ (offset_len + page_len)

pub get_second_lv : ℕ → ℕ
get_second_lv addr =
    (addr / 2 ^ offset_len + 2 ^ 64 - get_first_lv addr * 2 ^ page_len % 2 ^ 64) % 2 ^ 64

-- The loop of `get_trans_table`, whose body is empty, with `n` rounds left; then it returns NULL.
pub trans_from : ℕ → Option TransTable
trans_from zero = none
trans_from (suc n) = trans_from n

pub get_trans_table : ℕ → PageTable → Option TransTable
get_trans_table index page_table = trans_from (rounds page_table.size)

-- The loop of `translate`, at `i` with `n` rounds left.
pub index_in : ℕ → (ℕ → ℕ) → ℕ → ℕ → Bool
index_in second_lv v_index zero i = false
index_in second_lv v_index (suc n) i =
    let later = index_in second_lv v_index n (i + 1) in
    if v_index i == second_lv then true else later

-- `translate`, which never writes the physical address.
abbrev pub found_in : ℕ → Option TransTable → Bool
found_in second_lv none = false
found_in second_lv (some t) = index_in second_lv t.v_index (rounds t.size) 0

pub translate : ℕ → Owner → Bool
translate virtual_addr proc =
    found_in (get_second_lv virtual_addr)
      (get_trans_table (get_first_lv virtual_addr) proc.page_table)

-- The number of pages that `alloc_mem` computes, and the rest of it: `mem_avail` is 0.
pub pages_for : ℕ → ℕ
pages_for size = if size % page_size == 0 then size / page_size + 1 else size / page_size

pub alloc_mem : ℕ → Owner → ℕ × Owner
alloc_mem size proc =
    let mem_avail : ℕ = 0 in
    if mem_avail == 0
    then (0, proc)
    else (proc.bp, record proc { bp = (proc.bp + pages_for size * page_size) % 2 ^ 32 })

-- The result of a function is 0 or 1 from here on.
unfoldable pub free_mem : ℕ → Owner → ℕ
free_mem address proc = 0

pub read_mem : ℕ → ℕ → Owner → Segments → Option (ℕ × Option ℕ)
read_mem junk address proc m =
    if translate address proc
    then if ltb junk ram_size then some (0, some (m.ram junk)) else none
    else some (1, none)

pub write_mem : ℕ → ℕ → Owner → ℕ → Segments → Option (ℕ × Segments)
write_mem junk address proc byte m =
    if translate address proc
    then if ltb junk ram_size then some (0, record m { ram = update m.ram junk byte }) else none
    else some (1, m)

-- `alloc`, `free_data`, `read` and `write` of cpu.c, with the ten registers of a process.
pub set_reg : Owner → ℕ → ℕ → Option (ℕ × Owner)
set_reg proc i value =
    if ltb i 10 then some (0, record proc { regs = update proc.regs i value }) else none

pub alloc_data : Owner → ℕ → ℕ → Option (ℕ × Owner)
alloc_data proc size reg_index =
    let r = alloc_mem size proc in if r.0 == 0 then some (1, r.1) else set_reg r.1 reg_index r.0

unfoldable pub free_data : Owner → ℕ → Option ℕ
free_data proc reg_index =
    if ltb reg_index 10 then some (free_mem (proc.regs reg_index) proc) else none

-- `data` is the variable that `read_mem` has written or not.
abbrev pub or_junk : ℕ → Option ℕ → ℕ
or_junk junk none = junk
or_junk junk (some byte) = byte

abbrev pub with_data : ℕ → Owner → ℕ → Option (ℕ × Option ℕ) → Option (ℕ × Owner)
with_data junk proc destination none = none
with_data junk proc destination (some (stat, byte)) =
    if stat == 0 then some (1, proc) else set_reg proc destination (sign_extend (or_junk junk byte))

pub read_data : ℕ → ℕ → Owner → ℕ → ℕ → ℕ → Segments → Option (ℕ × Owner)
read_data physical junk proc source offset destination m =
    if ltb source 10
    then with_data junk proc destination
        (read_mem physical ((proc.regs source + offset) % 2 ^ 64) proc m)
    else none

pub write_data : ℕ → Owner → ℕ → ℕ → ℕ → Segments → Option (ℕ × Segments)
write_data physical proc byte destination offset m =
    if ltb destination 10
    then write_mem physical ((proc.regs destination + offset) % 2 ^ 64) proc byte m
    else none

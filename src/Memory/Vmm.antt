-- ===== src/Memory/Vmm.antt =====
-- The virtual memory manager, QKMemory/src/QKMemVMM.cpp, the indices of QKMemory/include/QKMemPaging.h
-- and the page allocator of kernel/Boot/Memory/EarlyMemory.cpp. Memory is a function from the physical
-- addresses of 64-bit words; the source reaches it through `phys_to_virt`, which adds a constant. The
-- translation cache of the processor is not modelled.
pub mod Tree
pub mod Leads
pub mod Create
pub mod Map
pub mod Steps
pub mod Refine
pub mod Unmap
pub mod Pages
pub mod Ranges
pub mod Release
pub mod Space
mod Tests
use qaiosplus.Base.{
  ℕ, zero, suc, ◌+◌, ◌-◌, ◌*◌, ◌/◌, ◌%◌, ◌^◌, Bool, true, false, not, ◌&&◌, ◌||◌, Option, none,
  some, ltb, leb, ◌==◌, if◌then◌else◌, update, u64, bit_or,
}
use qaiosplus.Memory.Pmm.{Pmm, allocate_page, free_page}

abbrev pub Words : Type 0
Words = ℕ → ℕ

-- The sizes of a page and of `g_earlyDmaBuffer`.
abbrev pub page_size : ℕ
page_size = 4096

abbrev pub dma_size : ℕ
dma_size = 1048576

-- `root` is the register CR3, `dma_base` the physical address of `g_earlyDmaBuffer`.
pub record Vmm : Type 0 where
  pub words : Words
  pub root : ℕ
  pub dma_base : ℕ
  pub dma_offset : ℕ
  pub pmm : Pmm
  pub kernel_root : ℕ
  pub next_virtual : ℕ

pub data Status : Type 0 where
  success out_of_memory not_found : Status

unfoldable pub pml4_index : ℕ → ℕ
pml4_index v = v / 2 ^ 39 % 512

unfoldable pub pdpt_index : ℕ → ℕ
pdpt_index v = v / 2 ^ 30 % 512

unfoldable pub pd_index : ℕ → ℕ
pd_index v = v / 2 ^ 21 % 512

unfoldable pub pt_index : ℕ → ℕ
pt_index v = v / 2 ^ 12 % 512

unfoldable pub page_offset : ℕ → ℕ
page_offset v = v % 4096

-- `table[index]`.
abbrev pub cell : ℕ → ℕ → ℕ
cell table index = table + 8 * index

-- `entry & 1` and `entry & ~0xFFF`.
unfoldable pub is_present : ℕ → Bool
is_present entry = entry % 2 == 1

unfoldable pub frame : ℕ → ℕ
frame entry = entry / 4096 * 4096

pub early_allocate_page : Vmm → Vmm × ℕ
early_allocate_page s =
    if ltb dma_size (s.dma_offset + 4096)
    then (s, 0)
    else (record s { dma_offset = s.dma_offset + 4096 }, u64 (s.dma_base + s.dma_offset))

-- The words of the bytes that are set to 0.
unfoldable pub zero_page : Words → ℕ → Words
zero_page w p a = if leb p a && ltb a (p + page_size) then 0 else w a

-- The new memory, and the table; `none` is the null pointer.
pub get_or_create_table : Vmm → ℕ → ℕ → Vmm × Option ℕ
unfolding early_allocate_page
get_or_create_table s parent index =
    let entry = s.words (cell parent index) in
    let (s', table) = early_allocate_page s in
    let created : Vmm × Option ℕ = if table == 0 then (s', none) else (
      record s' { words = update (zero_page s'.words table) (cell parent index) (bit_or table 3) },
      some table,
    ) in
    if is_present entry then (s, some (frame entry)) else created

set_entry : Vmm → ℕ → ℕ → ℕ → Vmm × Status
set_entry s pt index entry = (record s { words = update s.words (cell pt index) entry }, success)

-- `map`, from the table on that the step before has given.
map_in_pd : Vmm × Option ℕ → ℕ → ℕ → ℕ → Vmm × Status
unfolding set_entry
map_in_pd (s, none) virt phys flags = (s, out_of_memory)
map_in_pd (s, some pt) virt phys flags = set_entry s pt (pt_index virt) (bit_or phys flags)

map_in_pdpt : Vmm × Option ℕ → ℕ → ℕ → ℕ → Vmm × Status
unfolding get_or_create_table map_in_pd
map_in_pdpt (s, none) virt phys flags = (s, out_of_memory)
map_in_pdpt (s, some pd) virt phys flags =
    map_in_pd (get_or_create_table s pd (pd_index virt)) virt phys flags

map_in_pml4 : Vmm × Option ℕ → ℕ → ℕ → ℕ → Vmm × Status
unfolding get_or_create_table map_in_pdpt
map_in_pml4 (s, none) virt phys flags = (s, out_of_memory)
map_in_pml4 (s, some pdpt) virt phys flags =
    map_in_pdpt (get_or_create_table s pdpt (pdpt_index virt)) virt phys flags

pub map : Vmm → ℕ → ℕ → ℕ → Vmm × Status
unfolding get_or_create_table map_in_pml4
map s virt phys flags = map_in_pml4 (get_or_create_table s s.root (pml4_index virt)) virt phys flags

-- The table that an entry points to, if it is present.
unfoldable pub next_table : Words → ℕ → ℕ → Option ℕ
next_table w table index =
    if is_present (w (cell table index)) then some (frame (w (cell table index))) else none

abbrev pub bind : Option ℕ → (ℕ → Option ℕ) → Option ℕ
bind none k = none
bind (some x) k = k x

-- The page table of an address, down the three levels above it.
unfoldable pub find_pt : Words → ℕ → ℕ → Option ℕ
find_pt w root virt =
    bind (next_table w root (pml4_index virt))
      λ pdpt. bind (next_table w pdpt (pdpt_index virt)) λ pd. next_table w pd (pd_index virt)

pub unmap : Vmm → ℕ → Vmm × Status
unfolding find_pt
unmap s virt = elim (find_pt s.words s.root virt) [
  | none ↦ (s, not_found)
  | some pt ↦ (record s { words = update s.words (cell pt (pt_index virt)) 0 }, success)
]

pub translate : Vmm → ℕ → ℕ
unfolding find_pt
translate s virt = elim (find_pt s.words s.root virt) [
  | none ↦ 0
  | some pt ↦
      let entry = s.words (cell pt (pt_index virt)) in
      if is_present entry then bit_or (frame entry) (page_offset virt) else 0
]

pub is_mapped : Vmm → ℕ → Bool
unfolding translate
is_mapped s virt = not (translate s virt == 0)

-- `(size + PAGE_SIZE - 1) / PAGE_SIZE`.
abbrev pub pages_of : ℕ → ℕ
pages_of size = u64 (size + 4095) / 4096

-- The loops: the rounds left, and the page of the round.
pub unmap_from : ℕ → ℕ → Vmm → ℕ → Vmm
unmap_from zero i s virt = s
unmap_from (suc n) i s virt = unmap_from n (i + 1) (unmap s (u64 (virt + i * page_size))).0 virt

pub unmap_range : Vmm → ℕ → ℕ → Vmm
unfolding unmap_from
unmap_range s virt size = unmap_from (pages_of size) 0 s virt

unfoldable pub is_success : Status → Bool
is_success success = true
is_success _ = false

-- A failure takes back the pages before it.
map_from : ℕ → ℕ → Vmm → ℕ → ℕ → ℕ → Vmm × Status
map_from zero i s virt phys flags = (s, success)
map_from (suc n) i s virt phys flags =
    let (s', status) = map s (u64 (virt + i * page_size)) (u64 (phys + i * page_size)) flags in
    let rest = map_from n (i + 1) s' virt phys flags in
    if is_success status then rest else (unmap_from i 0 s' virt, status)

pub map_range : Vmm → ℕ → ℕ → ℕ → ℕ → Vmm × Status
unfolding map_from
map_range s virt phys size flags = map_from (pages_of size) 0 s virt phys flags

-- One page of the rollback of `allocate` and of `free`: `test` says whether a page that is not mapped
-- is passed over.
release_page : Bool → Vmm → ℕ → Vmm
release_page test s virt =
    let phys = translate s virt in
    let s' = (unmap s virt).0 in
    if test && (phys == 0) then s else record s' { pmm = free_page s'.pmm phys }

release_from : Bool → ℕ → ℕ → Vmm → ℕ → Vmm
unfolding release_page
release_from test zero i s addr = s
release_from test (suc n) i s addr =
    release_from test n (i + 1) (release_page test s (u64 (addr + i * page_size))) addr

-- The pages that are left to allocate, and the page of the round.
allocate_from : ℕ → ℕ → Vmm → ℕ → ℕ → Vmm × ℕ
unfolding release_from
allocate_from zero i s addr flags = (s, addr)
allocate_from (suc n) i s addr flags =
    let (pmm, phys) = allocate_page s.pmm in
    let taken : Vmm = record s { pmm = pmm } in
    let rest =
      allocate_from n (i + 1) (map taken (u64 (addr + i * page_size)) phys flags).0 addr flags in
    if phys == 0 then (release_from false i 0 taken addr, 0) else rest

pub allocate : Vmm → ℕ → ℕ → Vmm × ℕ
unfolding allocate_from
allocate s size flags =
    allocate_from (pages_of size) 0
      (record s { next_virtual = u64 (s.next_virtual + pages_of size * page_size) }) s.next_virtual
      flags

pub free : Vmm → ℕ → ℕ → Vmm
unfolding release_from
free s addr size = release_from true (pages_of size) 0 s addr

-- `initialize`: the kernel's own table; without a page it is 0.
pub initialize : Vmm → Vmm
initialize s =
    let (pmm, page) = allocate_page s.pmm in
    let taken : Vmm = record s { pmm = pmm; kernel_root = page } in
    if page == 0 then taken else record taken { words = zero_page s.words page }

-- The upper half of the kernel's table: the entries left, and the index.
copy_entries : ℕ → ℕ → Words → ℕ → ℕ → Words
copy_entries zero i w from to = w
copy_entries (suc n) i w from to =
    copy_entries n (i + 1) (update w (cell to i) (w (cell from i))) from to

pub create_address_space : Vmm → Vmm × ℕ
unfolding copy_entries
create_address_space s =
    let (pmm, page) = allocate_page s.pmm in
    let taken : Vmm = record s { pmm = pmm } in
    if page == 0 then (taken, 0) else (
      record taken { words = copy_entries 256 256 (zero_page s.words page) s.kernel_root page },
      page,
    )

pub destroy_address_space : Vmm → ℕ → Vmm
destroy_address_space s pml4 =
    if (pml4 == 0) || (pml4 == s.kernel_root) then s else record s { pmm = free_page s.pmm pml4 }

-- A write to CR3.
abbrev pub switch_address_space : Vmm → ℕ → Vmm
switch_address_space s pml4 = record s { root = pml4 }

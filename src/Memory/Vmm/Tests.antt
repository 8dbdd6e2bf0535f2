-- ===== src/Memory/Vmm/Tests.antt =====
-- Runs of the virtual memory manager, and the theorems at inputs that meet their hypotheses.
use qaiosplus.Base.{
  ℕ, ◌+◌, ◌%◌, ◌^◌, ◌≤◌, ◌<◌, ◌≡◌, refl, ==→eq, true, not, ◌&&◌, arith, ◌==◌, byte_bit,
  if◌then◌else◌,
}
use qaiosplus.Memory.Pmm.{allocate_page, find_page, first_clear}
use qaiosplus.Memory.Vmm.{
  Vmm, is_success, is_present, pml4_index, pdpt_index, pd_index, pt_index, zero_page, frame,
  page_offset, next_table, pages_of, map, map_range, unmap, translate, free,
}
use qaiosplus.Memory.Vmm.Tree.{Shape, IsTree, page_of}
use qaiosplus.Memory.Vmm.Refine.{map_refines, map_room}
use qaiosplus.Memory.Vmm.Unmap.{unmap_refines}
use qaiosplus.Memory.Vmm.Pages.{in_pages, distance}
use qaiosplus.Memory.Vmm.Ranges.{map_range_refines}
use qaiosplus.Memory.Vmm.Release.{page_start, give_back, frames_of, free_refines}

-- An empty table at 4096, the buffer from 8192 on, and pages 0 and 1 in use.
abbrev empty_machine : Vmm
empty_machine = record {
  words = λ a. 0;
  root = 4096;
  dma_base = 8192;
  dma_offset = 0;
  pmm = record {
    bitmap = λ i. if i == 0 then 3 else 255;
    bitmap_size = 1;
    total_memory = 32768;
    free_memory = 24576;
    total_pages = 8;
    free_pages = 6;
  };
  kernel_root = 4096;
  next_virtual = 65536;
}

abbrev one_table : Shape
one_table = record { level = λ a. if a == 4096 then 3 else 4; prefix = λ a. 0 }

aligned_one : (t : ℕ) → one_table.level t < 4 → t % 4096 ≡ 0
aligned_one t h = ground arith

fresh_one : (t : ℕ) → 8192 ≤ t → one_table.level t ≡ 4
fresh_one t h = ground arith

empty_machine-IsTree : IsTree empty_machine one_table
unfolding is_present
empty_machine-IsTree = record {
  root_level = refl;
  root_prefix = refl;
  aligned = aligned_one;
  child = λ l t i small at inside here. absurd (omega (arith, ==→eq 0 1 here));
  fresh = λ t a b. fresh_one t (omega (arith, a));
  dma_aligned = refl;
  offset_aligned = refl;
  dma_placed = omega arith;
  dma_fits = omega arith;
}

abbrev mapped : Vmm
mapped = (map empty_machine 20480 40960 3).0

map_run : translate mapped 20487 ≡ 40967
unfolding translate map is_present pml4_index pdpt_index pd_index pt_index zero_page frame
    page_offset next_table
map_run = refl

range_run : translate (map_range empty_machine 20480 40960 5000 3).0 24583 ≡ 45063
unfolding translate map_range map is_success is_present pml4_index pdpt_index pd_index pt_index
    zero_page frame page_offset next_table
range_run = refl

-- Bit 63 of an entry, which forbids execution, comes back in the address.
no_execute_run : translate (map empty_machine 20480 40960 (2 ^ 63 + 3)).0 20480 ≡ 2 ^ 63 + 40960
unfolding translate map is_present pml4_index pdpt_index pd_index pt_index zero_page frame
    page_offset next_table
no_execute_run = refl

map_refines_example :
    ((g' : Shape) × IsTree mapped g')
    × ((v' : ℕ)
        → translate mapped v' ≡ (
            if is_success (map empty_machine 20480 40960 3).1 && (page_of v' == page_of 20480)
            then 40960 + v' % 4096
            else translate empty_machine v'))
map_refines_example =
    map_refines empty_machine one_table 20480 40960 3 empty_machine-IsTree refl (omega arith) refl

map_room_example : is_success (map empty_machine 20480 40960 3).1 ≡ true
map_room_example = map_room empty_machine one_table 20480 40960 3 empty_machine-IsTree (omega arith)

unmap_refines_example :
    IsTree (unmap empty_machine 20480).0 one_table
    × ((v' : ℕ)
        → translate (unmap empty_machine 20480).0 v'
          ≡ (if page_of v' == page_of 20480 then 0 else translate empty_machine v'))
unmap_refines_example = unmap_refines empty_machine one_table 20480 empty_machine-IsTree

-- The windows of memory-mapped devices and of the allocator.
abbrev mmio_base : ℕ
mmio_base = 18446708889337462784

abbrev window : ℕ
window = 18446620928407240704

map_range_refines_example :
    ((g' : Shape) × IsTree (map_range empty_machine mmio_base 40960 5000 3).0 g')
    × ((k : ℕ) × (k ≤ pages_of 5000)
        × ((v : ℕ)
            → translate (map_range empty_machine mmio_base 40960 5000 3).0 v ≡ (
                if is_success (map_range empty_machine mmio_base 40960 5000 3).1
                then (if in_pages mmio_base (pages_of 5000) v
                    then 40960 + distance mmio_base v
                    else translate empty_machine v)
                else (if in_pages mmio_base k v then 0 else translate empty_machine v))))
map_range_refines_example =
    map_range_refines empty_machine one_table mmio_base 40960 5000 3 empty_machine-IsTree refl refl
      (omega arith) refl (omega arith) (omega arith)

page_two : (allocate_page empty_machine.pmm).1 ≡ 8192
unfolding allocate_page find_page first_clear byte_bit
page_two = refl

abbrev filled : Vmm
filled = (map empty_machine window 40960 3).0

filled-IsTree : (g' : Shape) × IsTree filled g'
filled-IsTree =
    (map_refines empty_machine one_table window 40960 3 empty_machine-IsTree refl (omega arith)
      refl).0

filled_run : translate filled window ≡ 40960
unfolding translate map is_present pml4_index pdpt_index pd_index pt_index zero_page frame
    page_offset next_table
filled_run = refl

free_refines_example :
    IsTree (free filled window 4096) filled-IsTree.0
    × ((v : ℕ)
        → translate (free filled window 4096) v ≡ (
            if in_pages window (pages_of 4096) v
              && not (translate filled (page_start window v) == 0)
            then 0
            else translate filled v))
    × ((free filled window 4096).pmm
        ≡ give_back (pages_of 4096) 0 (frames_of filled window) filled.pmm)
free_refines_example =
    free_refines filled filled-IsTree.0 window 4096 filled-IsTree.1 refl (omega arith)

-- ===== src/Memory/Pmm.antt =====
-- The physical memory manager, QKMemory/src/QKMemPMM.cpp. The bitmap is the memory that `m_bitmap`
-- points to, a function of the byte index. A call that changes the manager returns the new one.
pub mod Bitmap
pub mod Single
pub mod Runs
pub mod Regions
mod Tests
use qaiosplus.Base.{
  ℕ, zero, suc, ◌+◌, ◌-◌, ◌*◌, ◌/◌, ◌%◌, Bool, true, false, not, ◌&&◌, List, [], ◌∷◌, Option, none,
  some, ltb, leb, ◌==◌, if◌then◌else◌, update, byte_bit, set_bit, clear_bit, u64, sub64,
}

abbrev pub page_size : ℕ
page_size = 4096

pub data RegionType : Type 0 where
  available reserved acpi nvs bad_memory kernel bootloader_reclaimable : RegionType

pub record MemoryRegion : Type 0 where
  pub base : ℕ
  pub size : ℕ
  pub kind : RegionType

pub record Pmm : Type 0 where
  pub bitmap : ℕ → ℕ
  pub bitmap_size : ℕ
  pub total_memory : ℕ
  pub free_memory : ℕ
  pub total_pages : ℕ
  pub free_pages : ℕ

abbrev pub is_available : RegionType → Bool
is_available available = true
is_available _ = false

-- `(m_bitmap[page / 8] & (1 << page % 8)) != 0`.
unfoldable pub used : (ℕ → ℕ) → ℕ → Bool
used m page = byte_bit (m (page / 8)) (page % 8)

unfoldable pub set_page : (ℕ → ℕ) → ℕ → ℕ → ℕ
set_page m page = update m (page / 8) (set_bit (m (page / 8)) (page % 8))

unfoldable pub clear_page : (ℕ → ℕ) → ℕ → ℕ → ℕ
clear_page m page = update m (page / 8) (clear_bit (m (page / 8)) (page % 8))

-- The body of the loop of `markRegion`, and the loop: the rounds left, and the page of the round.
pub mark_page : ℕ → Bool → Pmm → Pmm
mark_page page taken p =
    if ltb (page / 8) p.bitmap_size
    then (if taken
        then record p { bitmap = set_page p.bitmap page }
        else record p { bitmap = clear_page p.bitmap page; free_pages = u64 (p.free_pages + 1) })
    else p

pub mark_pages : ℕ → ℕ → Bool → Pmm → Pmm
unfolding mark_page
mark_pages zero page taken p = p
mark_pages (suc n) page taken p = mark_pages n (page + 1) taken (mark_page page taken p)

pub mark_region : ℕ → ℕ → Bool → Pmm → Pmm
unfolding mark_pages
mark_region base size taken p = mark_pages (size / page_size) (base / page_size) taken p

-- The loop of `allocatePage` over the bits of one byte.
unfoldable pub first_clear : ℕ → ℕ → ℕ → Option ℕ
first_clear zero bit b = none
first_clear (suc n) bit b =
    let rest = first_clear n (bit + 1) b in if byte_bit b bit then rest else some bit

-- The loop of `allocatePage` over the bytes: the rounds left, and the index of the round.
unfoldable pub find_page : ℕ → ℕ → (ℕ → ℕ) → Option ℕ
find_page zero i m = none
find_page (suc n) i m =
    let rest = find_page n (i + 1) m in
    if m i == 255
    then rest
    else (elim (first_clear 8 0 (m i)) [ none ↦ rest | some bit ↦ some (i * 8 + bit) ])

-- The writes of `allocatePage` once a clear page is found.
take_page : Pmm → ℕ → Pmm
take_page p page = record p {
  bitmap = set_page p.bitmap page;
  free_pages = sub64 p.free_pages 1;
  free_memory = u64 (sub64 p.free_pages 1 * page_size);
}

-- The new manager and the address; 0 is also the answer of failure.
unfoldable pub allocate_page : Pmm → Pmm × ℕ
unfolding take_page
allocate_page p = elim (find_page p.bitmap_size 0 p.bitmap) [
  | none ↦ (p, 0)
  | some page ↦ (take_page p page, u64 (page * page_size))
]

pub free_page : Pmm → ℕ → Pmm
free_page p addr =
    let page = addr / page_size in
    if ltb (page / 8) p.bitmap_size
    then record p {
      bitmap = clear_page p.bitmap page;
      free_pages = u64 (p.free_pages + 1);
      free_memory = u64 (u64 (p.free_pages + 1) * page_size);
    }
    else p

-- The loop of `allocatePages`: the rounds left, the page, `consecutive` and `startPage`.
unfoldable pub find_run : ℕ → ℕ → ℕ → ℕ → (ℕ → ℕ) → ℕ → Option ℕ
find_run zero page consecutive start m count = none
find_run (suc n) page consecutive start m count =
    let first = if consecutive == 0 then page else start in
    let miss = find_run n (page + 1) 0 start m count in
    let hit = find_run n (page + 1) (consecutive + 1) first m count in
    if used m page then miss else if leb count (consecutive + 1) then some first else hit

-- `for (i = 0; i < count; ++i) m_bitmap[p / 8] |= 1 << (p % 8)`.
unfoldable pub set_pages : ℕ → ℕ → (ℕ → ℕ) → ℕ → ℕ
set_pages zero page m = m
set_pages (suc n) page m = set_pages n (page + 1) (set_page m page)

take_run : Pmm → ℕ → ℕ → Pmm
take_run p count start = record p {
  bitmap = set_pages count start p.bitmap;
  free_pages = sub64 p.free_pages count;
  free_memory = u64 (sub64 p.free_pages count * page_size);
}

allocate_run : Pmm → ℕ → Pmm × ℕ
unfolding take_run
allocate_run p count = elim (find_run p.total_pages 0 0 0 p.bitmap count) [
  | none ↦ (p, 0)
  | some start ↦ (take_run p count start, u64 (start * page_size))
]

pub allocate_pages : Pmm → ℕ → Pmm × ℕ
unfolding allocate_run
allocate_pages p count =
    if count == 0 then (p, 0) else if count == 1 then allocate_page p else allocate_run p count

free_pages_from : ℕ → ℕ → Pmm → ℕ → Pmm
free_pages_from zero i p addr = p
free_pages_from (suc n) i p addr =
    free_pages_from n (i + 1) (free_page p (u64 (addr + u64 (i * page_size)))) addr

pub free_pages : Pmm → ℕ → ℕ → Pmm
unfolding free_pages_from
free_pages p addr count = free_pages_from count 0 p addr

-- The first loop of `initialize`: the memory that is available, and the highest address.
tally : List MemoryRegion → ℕ → ℕ → ℕ × ℕ
tally [] total highest = (total, highest)
tally (r ∷ rs) total highest =
    let end = u64 (r.base + r.size) in
    tally rs (if is_available r.kind then u64 (total + r.size) else total)
      (if is_available r.kind && ltb highest end then end else highest)

mark_regions : List MemoryRegion → Pmm → Pmm
unfolding mark_region
mark_regions [] p = p
mark_regions (r ∷ rs) p = mark_regions rs (mark_region r.base r.size (not (is_available r.kind)) p)

-- The bitmap comes from outside (`initializeBitmap` is empty).
pub initialize : Pmm → List MemoryRegion → Pmm
unfolding tally mark_regions
initialize p rs =
    let (total, highest) = tally rs p.total_memory 0 in
    let pages = highest / page_size in
    let marked =
      mark_regions rs
        (record p { total_memory = total; total_pages = pages; bitmap_size = (pages + 7) / 8 }) in
    record marked { free_memory = u64 (marked.free_pages * page_size) }

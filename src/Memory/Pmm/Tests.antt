-- ===== src/Memory/Pmm/Tests.antt =====
-- Runs of the physical memory manager, and the theorems at inputs that meet their hypotheses.
use qaiosplus.Base.{ℕ, ◌≡◌, refl, [], ◌∷◌, Option, arith, ◌==◌, if◌then◌else◌, byte_bit}
use qaiosplus.Memory.Pmm.{
  Pmm, available, reserved, used, first_clear, find_page, allocate_page, find_run, allocate_run,
  allocate_pages, initialize,
}
use qaiosplus.Memory.Pmm.Bitmap.{IsBytes, count_clear}
use qaiosplus.Memory.Pmm.Single.{IsAccounted, Least, Takes, allocate_page-lowest}
use qaiosplus.Memory.Pmm.Runs.{
  FirstRun, TakesRun, allocate_pages-FirstRun, allocate_pages-IsAccounted,
}

-- Pages 0 and 2 of eight are used.
abbrev two_used : Pmm
two_used = record {
  bitmap = λ i. if i == 0 then 5 else 255;
  bitmap_size = 1;
  total_memory = 32768;
  free_memory = 24576;
  total_pages = 8;
  free_pages = 6;
}

two_used-IsBytes : IsBytes two_used.bitmap
two_used-IsBytes i = ground arith

two_used-IsAccounted : IsAccounted two_used
unfolding count_clear used byte_bit
two_used-IsAccounted = record {
  bytes = two_used-IsBytes;
  small = omega arith;
  covered = omega arith;
  counted = refl;
  memory = refl;
}

page_run : (allocate_page two_used).1 ≡ 4096
unfolding allocate_page find_page first_clear byte_bit
page_run = refl

pages_run : (allocate_pages two_used 3).1 ≡ 12288
unfolding allocate_pages allocate_run find_run used byte_bit
pages_run = refl

boot_run :
    (initialize
      (record two_used { bitmap = λ i. 255; free_pages = 0 })
      (record { base = 0; size = 20480; kind = reserved }
        ∷ record { base = 20480; size = 12288; kind = available }
        ∷ [])).free_memory
    ≡ 12288
unfolding initialize
boot_run = refl

allocate_page-lowest_example :
    (r : Option ℕ) × Least (used two_used.bitmap) 0 8 r × Takes two_used (allocate_page two_used) r
allocate_page-lowest_example = allocate_page-lowest two_used two_used-IsBytes

allocate_pages-FirstRun_example :
    (r : Option ℕ) × FirstRun two_used.bitmap 3 8 r
    × TakesRun two_used 3 (allocate_pages two_used 3) r
allocate_pages-FirstRun_example = allocate_pages-FirstRun two_used 3 two_used-IsBytes (omega arith)

allocate_pages-IsAccounted_example : IsAccounted (allocate_pages two_used 3).0
allocate_pages-IsAccounted_example = allocate_pages-IsAccounted two_used 3 two_used-IsAccounted

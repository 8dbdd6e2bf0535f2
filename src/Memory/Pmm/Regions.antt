-- ===== src/Memory/Pmm/Regions.antt =====
-- Regions of the boot memory map: `markRegion`, and `freePages` as the loop of `freePage`.
use qaiosplus.Base.{
  ℕ, zero, suc, ◌+◌, ◌*◌, ◌/◌, ◌≤◌, ◌<◌, ◌^◌, ◌≡◌, Bool, true, false, ◌&&◌, arith, ◌==◌,
  if◌then◌else◌, ltb, leb, u64,
}
use qaiosplus.Memory.Pmm.{
  Pmm, page_size, used, mark_page, mark_pages, mark_region, free_page, free_pages_from, free_pages,
}
use qaiosplus.Memory.Pmm.Bitmap.{
  IsBytes, set_page-IsBytes, clear_page-IsBytes, used-set_page, used-clear_page,
}
use qaiosplus.Memory.Pmm.Single.{IsAccounted, free_page-IsAccounted}

bitmap_size-mark_page :
    (page : ℕ) (taken : Bool) (p : Pmm) → (mark_page page taken p).bitmap_size ≡ p.bitmap_size
unfolding mark_page
bitmap_size-mark_page page taken p = ground arith

mark_page-IsBytes :
    (page : ℕ) (taken : Bool) (p : Pmm) → IsBytes p.bitmap → IsBytes (mark_page page taken p).bitmap
unfolding mark_page
mark_page-IsBytes page true p v i = ground (arith, v i, set_page-IsBytes p.bitmap page v i)
mark_page-IsBytes page false p v i = ground (arith, v i, clear_page-IsBytes p.bitmap page v i)

used-mark_page :
    (page : ℕ) (taken : Bool) (p : Pmm) (q : ℕ)
    → IsBytes p.bitmap
    → used (mark_page page taken p).bitmap q
      ≡ (if (q == page) && ltb (q / 8) p.bitmap_size then taken else used p.bitmap q)
unfolding mark_page
used-mark_page page true p q v = ground (arith, used-set_page p.bitmap page q v)
used-mark_page page false p q v = ground (arith, used-clear_page p.bitmap page q v)

used-mark_pages :
    (n page : ℕ) (taken : Bool) (p : Pmm) (q : ℕ)
    → IsBytes p.bitmap
    → used (mark_pages n page taken p).bitmap q ≡ (
        if leb page q && ltb q (page + n) && ltb (q / 8) p.bitmap_size
        then taken
        else used p.bitmap q)
unfolding mark_pages
used-mark_pages zero page taken p q v = ground arith
used-mark_pages (suc n) page taken p q v = ground (
  arith,
  used-mark_pages n (page + 1) taken (mark_page page taken p) q (mark_page-IsBytes page taken p v),
  used-mark_page page taken p q v,
  bitmap_size-mark_page page taken p,
)

-- `markRegion` marks the pages that lie whole in the region, counted from the page of its base, and
-- no others; pages beyond the bitmap are passed over.
pub used-mark_region :
    (base size : ℕ) (taken : Bool) (p : Pmm) (q : ℕ)
    → IsBytes p.bitmap
    → used (mark_region base size taken p).bitmap q ≡ (
        if leb (base / page_size) q
          && ltb q (base / page_size + size / page_size)
          && ltb (q / 8) p.bitmap_size
        then taken
        else used p.bitmap q)
unfolding mark_region
used-mark_region base size taken p q v =
    used-mark_pages (size / page_size) (base / page_size) taken p q v

used-free_page :
    (p : Pmm) (addr q : ℕ)
    → IsBytes p.bitmap
    → addr / page_size < p.bitmap_size * 8
    → used (free_page p addr).bitmap q ≡ (if q == addr / page_size then false else used p.bitmap q)
unfolding free_page
used-free_page p addr q v h = ground (arith, used-clear_page p.bitmap (addr / 4096) q v)

bitmap_size-free_page : (p : Pmm) (addr : ℕ) → (free_page p addr).bitmap_size ≡ p.bitmap_size
unfolding free_page
bitmap_size-free_page p addr = ground arith

-- The address of a round is that of its page.
round_page :
    (k i n : ℕ) → k + i < n * 8 → n * 8 < 2 ^ 52 → u64 (k * 4096 + u64 (i * 4096)) / 4096 ≡ k + i
round_page k i n h s = omega arith

free_pages_from-clears :
    (n i k : ℕ) (p : Pmm)
    → IsAccounted p
    → k + i + n ≤ p.bitmap_size * 8
    → ((q : ℕ) → k + i ≤ q → q < k + i + n → used p.bitmap q ≡ true)
    → IsAccounted (free_pages_from n i p (k * page_size))
      × ((q : ℕ)
          → used (free_pages_from n i p (k * page_size)).bitmap q
            ≡ (if leb (k + i) q && ltb q (k + i + n) then false else used p.bitmap q))
unfolding free_pages_from
free_pages_from-clears zero i k p v h u = (v, λ q. ground arith)
free_pages_from-clears (suc n) i k p v h u =
    let here = round_page k i p.bitmap_size (omega arith) v.small in
    let addr = u64 (k * 4096 + u64 (i * 4096)) in
    let at : addr / 4096 ≡ k + i = here in
    let kept = free_page-IsAccounted p addr v (rw at (u (k + i) (omega arith) (omega arith))) in
    let size = bitmap_size-free_page p addr in
    let one = λ (q : ℕ). used-free_page p addr q v.bytes (rw at (omega arith)) in
    let rest =
      free_pages_from-clears n (i + 1) k (free_page p addr) kept (rw size (omega arith))
        (λ q a b. ground (arith, one q, at, u q (omega arith) (omega arith))) in
    (rest.0, λ q. ground (arith, rest.1 q, one q, at))

-- `freePages` on a run of pages in use clears exactly that run, and keeps the counters equal to what
-- the bitmap says.
pub free_pages-clears :
    (p : Pmm) (k count : ℕ)
    → IsAccounted p
    → k + count ≤ p.bitmap_size * 8
    → ((q : ℕ) → k ≤ q → q < k + count → used p.bitmap q ≡ true)
    → IsAccounted (free_pages p (k * page_size) count)
      × ((q : ℕ)
          → used (free_pages p (k * page_size) count).bitmap q
            ≡ (if leb k q && ltb q (k + count) then false else used p.bitmap q))
unfolding free_pages
free_pages-clears p k count v h u =
    let r =
      free_pages_from-clears count 0 k p v (omega arith)
        (λ q a b. u q (omega arith) (omega arith)) in
    (r.0, λ q. ground (arith, r.1 q))

-- ===== src/Memory/Pmm/Single.antt =====
-- One page at a time: `allocatePage`, `freePage`.
use qaiosplus.Base.{
  ℕ, zero, suc, ◌+◌, ◌*◌, ◌/◌, ◌%◌, ◌^◌, ◌≤◌, ◌<◌, ◌≡◌, ap, Bool, true, false, arith, ◌==◌,
  if◌then◌else◌, subst, ==→eq, ==-false→ne, Bool-cases, Option-cases, inl, inr, ◌≢◌, byte_bit,
  eq-full_byte, byte_bit-full_byte, Option, none, some, u64, ltb, ltb→lt, lt→ltb,
}
use qaiosplus.Memory.Pmm.{
  Pmm, page_size, used, set_page, clear_page, first_clear, find_page, take_page, allocate_page,
  free_page,
}
use qaiosplus.Memory.Pmm.Bitmap.{
  IsBytes, set_page-IsBytes, clear_page-IsBytes, used-set_page, used-clear_page, count_clear,
  count_clear-set_page, count_clear-clear_page, count_clear-le, count_clear_zero, count_clear_ext,
}

-- The least `q` from `lo` to `hi` (excluded) at which `P` fails, if there is one.
abbrev pub Least : (ℕ → Bool) → ℕ → ℕ → Option ℕ → Type 0
Least P lo hi none = (q : ℕ) → lo ≤ q → q < hi → P q ≡ true
Least P lo hi (some k) =
    (lo ≤ k) × (k < hi) × (P k ≡ false) × ((q : ℕ) → lo ≤ q → q < k → P q ≡ true)

Least-skip :
    (P : ℕ → Bool) (lo mid hi : ℕ) (r : Option ℕ)
    → lo ≤ mid
    → ((q : ℕ) → lo ≤ q → q < mid → P q ≡ true)
    → Least P mid hi r
    → Least P lo hi r
Least-skip P lo mid hi none h below l = λ q a b. elim (Bool-cases (ltb q mid)) [
  | inl e ↦ below q a (ltb→lt q mid e)
  | inr e ↦ l q (ground arith) b
]
Least-skip P lo mid hi (some k) h below l = (
  omega arith,
  l.1,
  l.2,
  λ q a b. elim (Bool-cases (ltb q mid)) [
    | inl e ↦ below q a (ltb→lt q mid e)
    | inr e ↦ l.3 q (ground arith) b
  ],
)

first_clear-Least : (n bit b : ℕ) → Least (byte_bit b) bit (bit + n) (first_clear n bit b)
unfolding first_clear
first_clear-Least zero bit b = λ q h k. absurd (omega arith)
first_clear-Least (suc n) bit b = elim (Bool-cases (byte_bit b bit)) [
  | inl e ↦ rw e (
      Least-skip (byte_bit b) bit (bit + 1) (bit + suc n) _ (omega arith)
        (λ q h k. let same : bit ≡ q = omega arith in rw (← same) e)
        (let same : bit + 1 + n ≡ bit + suc n = omega arith in
          rw same at (first_clear-Least n (bit + 1) b)))
  | inr e ↦ rw e (omega arith, omega arith, e, λ q h k. absurd (omega arith))
]

-- A byte with a clear bit holds a clear page, and the loop finds the lowest.
byte-Least :
    (m : ℕ → ℕ) (i : ℕ)
    → IsBytes m
    → m i ≢ 255
    → (bit : ℕ) × (first_clear 8 0 (m i) ≡ some bit)
      × Least (used m) (i * 8) (i * 8 + 8) (some (i * 8 + bit))
unfolding used
byte-Least m i v ne = elim (Option-cases (first_clear 8 0 (m i))) [
  | inl e ↦ absurd (
      ne (
        eq-full_byte (m i) (v i) (λ j h.
          (subst (Least (byte_bit (m i)) 0 8) e (first_clear-Least 8 0 (m i))) j (omega arith) h)))
  | inr (bit, e) ↦
      let l = subst (Least (byte_bit (m i)) 0 8) e (first_clear-Least 8 0 (m i)) in
      (
        bit,
        e,
        (
          omega arith,
          omega arith,
          in_byte bit (omega arith) l.2,
          λ q a b.
              let j : i * 8 + q % 8 ≡ q = omega arith in
              subst (λ k. byte_bit (m (k / 8)) (k % 8) ≡ true) j
                (in_byte' (q % 8) (omega arith) (l.3 (q % 8) (omega arith) (omega arith))),
        ),
      )
]
  where
    in_byte :
        (j : ℕ)
        → j < 8
        → byte_bit (m i) j ≡ false
        → byte_bit (m ((i * 8 + j) / 8)) ((i * 8 + j) % 8) ≡ false
    in_byte j h e =
        let d : (i * 8 + j) / 8 ≡ i = omega arith in
        let r : (i * 8 + j) % 8 ≡ j = omega arith in rw (d, r) e

    in_byte' :
        (j : ℕ)
        → j < 8
        → byte_bit (m i) j ≡ true
        → byte_bit (m ((i * 8 + j) / 8)) ((i * 8 + j) % 8) ≡ true
    in_byte' j h e =
        let d : (i * 8 + j) / 8 ≡ i = omega arith in
        let r : (i * 8 + j) % 8 ≡ j = omega arith in rw (d, r) e

full_byte-used : (m : ℕ → ℕ) (i q : ℕ) → m i ≡ 255 → i * 8 ≤ q → q < i * 8 + 8 → used m q ≡ true
unfolding used
full_byte-used m i q e a b =
    let d : q / 8 ≡ i = omega arith in rw (d, e) (byte_bit-full_byte (q % 8) (omega arith))

find_page-Least :
    (n i : ℕ) (m : ℕ → ℕ) → IsBytes m → Least (used m) (i * 8) ((i + n) * 8) (find_page n i m)
unfolding find_page
find_page-Least zero i m v = λ q a b. absurd (omega arith)
find_page-Least (suc n) i m v = elim (Bool-cases (m i == 255)) [
  | inl e ↦ rw e (
      Least-skip (used m) (i * 8) ((i + 1) * 8) ((i + suc n) * 8) _ (omega arith)
        (λ q a b. full_byte-used m i q (==→eq (m i) 255 e) a (omega arith))
        (let same : i + 1 + n ≡ i + suc n = omega arith in
          rw same at (find_page-Least n (i + 1) m v)))
  | inr e ↦
      let (bit, found, l) = byte-Least m i v (==-false→ne (m i) 255 e) in
      rw (e, found) (l.0, omega arith, l.2, l.3)
]

search_all :
    (p : Pmm) (r : Option ℕ)
    → IsBytes p.bitmap
    → find_page p.bitmap_size 0 p.bitmap ≡ r
    → Least (used p.bitmap) 0 (p.bitmap_size * 8) r
search_all p r v e =
    let lo : 0 * 8 ≡ 0 = omega arith in
    let hi : (0 + p.bitmap_size) * 8 ≡ p.bitmap_size * 8 = omega arith in
    subst (Least (used p.bitmap) 0 (p.bitmap_size * 8)) e
      (rw hi at (rw lo at (find_page-Least p.bitmap_size 0 p.bitmap v)))

-- What `allocatePage` has done, by the page that its search found.
abbrev pub Takes : Pmm → Pmm × ℕ → Option ℕ → Type 0
Takes p out none = out ≡ (p, 0)
Takes p out (some k) =
    (out.1 ≡ u64 (k * page_size))
    × ((q : ℕ) → used out.0.bitmap q ≡ (if q == k then true else used p.bitmap q))

-- `allocatePage` hands out the lowest clear page that the bitmap has, by its address, and marks that
-- page used and no other; where every page is used it gives 0 and leaves the manager as it was.
pub allocate_page-lowest :
    (p : Pmm)
    → IsBytes p.bitmap
    → (r : Option ℕ) × Least (used p.bitmap) 0 (p.bitmap_size * 8) r × Takes p (allocate_page p) r
unfolding allocate_page
allocate_page-lowest p v = elim (Option-cases (find_page p.bitmap_size 0 p.bitmap)) [
  | inl e ↦ (none, search_all p none v e, rw (e, allocate_page))
  | inr (k, e) ↦ (
    some k,
    search_all p (some k) v e,
    (rw (e, allocate_page), λ q. rw (e, allocate_page) (used-set_page p.bitmap k q v)),
  )
]

-- The counters agree with the bitmap, and every address is below 2 ^ 64.
pub record IsAccounted (p : Pmm) : Type 0 where
  pub bytes : IsBytes p.bitmap
  pub small : p.bitmap_size * 8 < 2 ^ 52
  pub covered : p.total_pages ≤ p.bitmap_size * 8
  pub counted : p.free_pages ≡ count_clear p.bitmap (p.bitmap_size * 8)
  pub memory : p.free_memory ≡ p.free_pages * page_size

take_page-IsAccounted :
    (p : Pmm) (k : ℕ)
    → IsAccounted p
    → k < p.bitmap_size * 8
    → used p.bitmap k ≡ false
    → IsAccounted (take_page p k)
unfolding take_page
take_page-IsAccounted p k v lt clear =
    let c = count_clear-set_page p.bitmap k (p.bitmap_size * 8) v.bytes lt clear in
    let b = count_clear-le p.bitmap (p.bitmap_size * 8) in
    record {
      bytes = set_page-IsBytes p.bitmap k v.bytes;
      small = v.small;
      covered = v.covered;
      counted = omega (arith, v.small, v.counted);
      memory = omega (arith, v.small, v.counted);
    }

-- `allocatePage` keeps the free-page and free-memory counters equal to what the bitmap says.
pub allocate_page-IsAccounted : (p : Pmm) → IsAccounted p → IsAccounted (allocate_page p).0
unfolding allocate_page
allocate_page-IsAccounted p v = elim (Option-cases (find_page p.bitmap_size 0 p.bitmap)) [
  | inl e ↦ rw (e, allocate_page) v
  | inr (k, e) ↦
      let l = search_all p (some k) v.bytes e in
      rw (e, allocate_page) (take_page-IsAccounted p k v l.1 l.2)
]

drop_page-IsAccounted :
    (p : Pmm) (k : ℕ)
    → IsAccounted p
    → k < p.bitmap_size * 8
    → used p.bitmap k ≡ true
    → IsAccounted (record p {
      bitmap = clear_page p.bitmap k;
      free_pages = u64 (p.free_pages + 1);
      free_memory = u64 (u64 (p.free_pages + 1) * page_size);
    })
drop_page-IsAccounted p k v lt h =
    let c = count_clear-clear_page p.bitmap k (p.bitmap_size * 8) v.bytes lt h in
    let b = count_clear-le (clear_page p.bitmap k) (p.bitmap_size * 8) in
    record {
      bytes = clear_page-IsBytes p.bitmap k v.bytes;
      small = v.small;
      covered = v.covered;
      counted = omega (arith, v.small, v.counted);
      memory = omega (arith, v.small, v.counted);
    }

-- `freePage` of a page in use keeps the counters equal to what the bitmap says.
pub free_page-IsAccounted :
    (p : Pmm) (addr : ℕ)
    → IsAccounted p
    → used p.bitmap (addr / page_size) ≡ true
    → IsAccounted (free_page p addr)
unfolding free_page
free_page-IsAccounted p addr v h = elim (Bool-cases (ltb (addr / 4096 / 8) p.bitmap_size)) [
  | inr e ↦ rw e v
  | inl e ↦
      let lt = ltb→lt (addr / 4096 / 8) p.bitmap_size e in
      rw e (drop_page-IsAccounted p (addr / 4096) v (omega arith) h)
]

-- The page as `freePage` computes it from an address of `allocatePage`.
page_of_addr : (k n : ℕ) → k < n * 8 → n * 8 < 2 ^ 52 → (u64 (k * 4096) / 4096 ≡ k) × (k / 8 < n)
page_of_addr k n h s = omega arith

-- Whatever page `allocatePage` hands out `freePage` gives back: while a page is free, an allocation
-- and the release of its address leave every page and both counters as they were.
pub free_page-allocate_page :
    (p : Pmm)
    → IsAccounted p
    → 0 < p.free_pages
    → let q = free_page (allocate_page p).0 (allocate_page p).1 in
      ((k : ℕ) → used q.bitmap k ≡ used p.bitmap k)
      × (q.free_pages ≡ p.free_pages)
      × (q.free_memory ≡ p.free_memory)
unfolding free_page allocate_page
free_page-allocate_page p v h = elim (Option-cases (find_page p.bitmap_size 0 p.bitmap)) [
  | inl e ↦
      let all_used =
        λ (q : ℕ) (l : q < p.bitmap_size * 8). search_all p none v.bytes e q (omega arith) l in
      absurd (omega (arith, v.counted, count_clear_zero p.bitmap (p.bitmap_size * 8) all_used))
  | inr (k, e) ↦
      let l = search_all p (some k) v.bytes e in
      let at = page_of_addr k p.bitmap_size l.1 v.small in
      let b = count_clear-le p.bitmap (p.bitmap_size * 8) in
      rw (e, allocate_page, at.0, lt→ltb (k / 8) p.bitmap_size at.1)
        (
          (λ q. ground (
            arith,
            used-clear_page (set_page p.bitmap k) k q (set_page-IsBytes p.bitmap k v.bytes),
            used-set_page p.bitmap k q v.bytes,
            l.2,
            λ (e : q ≡ k). ap (used p.bitmap) e,
          )),
          omega (arith, v.small, v.counted),
          omega (arith, v.small, v.counted, v.memory),
        )
]

-- A second `freePage` of a page that is clear already is counted again: the free-page counter then
-- says one page more than the bitmap.
pub free_page_twice :
    (p : Pmm) (addr : ℕ)
    → IsAccounted p
    → addr / page_size < p.bitmap_size * 8
    → used p.bitmap (addr / page_size) ≡ false
    → (free_page p addr).free_pages ≡ count_clear (free_page p addr).bitmap (p.bitmap_size * 8) + 1
unfolding free_page
free_page_twice p addr v lt h =
    let same = λ (q : ℕ). still q in
    let e = lt→ltb (addr / 4096 / 8) p.bitmap_size (omega arith) in
    let b = count_clear-le p.bitmap (p.bitmap_size * 8) in
    rw (e, count_clear_ext (clear_page p.bitmap (addr / 4096)) p.bitmap (p.bitmap_size * 8) same)
      (omega (arith, v.small, v.counted))
  where
    still : (q : ℕ) → used (clear_page p.bitmap (addr / 4096)) q ≡ used p.bitmap q
    still q = ground (
      arith,
      used-clear_page p.bitmap (addr / 4096) q v.bytes,
      h,
      λ (e : q ≡ addr / 4096). ap (used p.bitmap) e,
    )

pub allocate_page_aligned : (p : Pmm) → (allocate_page p).1 % 4096 ≡ 0
unfolding allocate_page
allocate_page_aligned p = elim (Option-cases (find_page p.bitmap_size 0 p.bitmap)) [
  | inl e ↦ rw (allocate_page, e) (omega arith)
  | inr (k, e) ↦ rw (allocate_page, e) (omega arith)
]

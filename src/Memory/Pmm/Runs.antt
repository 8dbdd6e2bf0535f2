-- ===== src/Memory/Pmm/Runs.antt =====
-- Runs of pages: `allocatePages`.
use qaiosplus.Base.{
  ℕ, zero, suc, ◌+◌, ◌*◌, ◌≤◌, ◌<◌, ◌≡◌, refl, sym, true, false, arith, ◌==◌, if◌then◌else◌, subst,
  ne→==-false, Bool-cases, Option-cases, inl, inr, ◌⊎◌, Option, none, some, u64, ltb, leb, ltb→lt,
  ◌&&◌,
}
use qaiosplus.Memory.Pmm.{
  Pmm, page_size, used, set_page, set_pages, find_run, take_run, allocate_run, allocate_pages,
}
use qaiosplus.Memory.Pmm.Bitmap.{
  IsBytes, set_page-IsBytes, used-set_page, count_clear, count_clear-set_page, count_clear-le,
}
use qaiosplus.Memory.Pmm.Single.{IsAccounted, allocate_page-IsAccounted}

-- The `count` pages from `t` on are all clear.
abbrev pub IsClear : (ℕ → ℕ) → ℕ → ℕ → Type 0
IsClear m count t = (q : ℕ) → t ≤ q → q < t + count → used m q ≡ false

-- The first run of `count` clear pages that ends at `hi` or below, if there is one.
abbrev pub FirstRun : (ℕ → ℕ) → ℕ → ℕ → Option ℕ → Type 0
FirstRun m count hi none = (t : ℕ) → t + count ≤ hi → ¬ IsClear m count t
FirstRun m count hi (some r) =
    (r + count ≤ hi) × IsClear m count r × ((t : ℕ) → t < r → ¬ IsClear m count t)

-- `low` is where the current run of clear pages begins: `page` is `low + c`.
find_run-FirstRun :
    (n page c s : ℕ) (m : ℕ → ℕ) (count low : ℕ)
    → page ≡ low + c
    → c < count
    → (c ≡ 0) ⊎ (s ≡ low)
    → ((q : ℕ) → low ≤ q → q < page → used m q ≡ false)
    → ((t : ℕ) → t < low → ¬ IsClear m count t)
    → FirstRun m count (page + n) (find_run n page c s m count)
unfolding find_run
find_run-FirstRun zero page c s m count low pe lt st clear none_below =
    λ t h. none_below t (omega arith)
find_run-FirstRun (suc n) page c s m count low pe lt st clear none_below =
    let hi : page + 1 + n ≡ page + suc n = omega arith in
    elim (Bool-cases (used m page)) [
      | inl e ↦ rw e (
          subst (λ k. FirstRun m count k (find_run n (page + 1) 0 s m count)) hi
            (find_run-FirstRun n (page + 1) 0 s m count (page + 1) (omega arith) (omega arith)
              (inl refl) (λ q a b. absurd (omega arith)) (λ t h. passed t e h)))
      | inr e ↦ elim (Bool-cases (leb count (c + 1))) [
        | inl full ↦
            rw (e, full, find_run)
              (subst (λ k. FirstRun m count (page + suc n) (some k)) (sym first)
                (let k : c + 1 ≡ count = ground arith in
                  (omega arith, λ q a b. grown e q a (omega arith), none_below)))
        | inr more ↦
            rw (e, more)
              (subst
                (λ k.
                  FirstRun m count k
                    (find_run n (page + 1) (c + 1) (if c == 0 then page else s) m count))
                hi
                (find_run-FirstRun n (page + 1) (c + 1) (if c == 0 then page else s) m count low
                  (omega arith) (ground arith) (inr first) (λ q a b. grown e q a b) none_below))
      ]
    ]
  where
    first : (if c == 0 then page else s) ≡ low
    first = ground arith

    grown : used m page ≡ false → (q : ℕ) → low ≤ q → q < page + 1 → used m q ≡ false
    grown e q a b = elim (Bool-cases (ltb q page)) [
      | inl l ↦ clear q a (ltb→lt q page l)
      | inr l ↦ let same : page ≡ q = ground arith in rw (← same) e
    ]

    passed : (t : ℕ) → used m page ≡ true → t < page + 1 → ¬ IsClear m count t
    passed t e h run = elim (Bool-cases (ltb t low)) [
      | inl l ↦ none_below t (ltb→lt t low l) run
      | inr l ↦ ground (arith, run page (omega arith) (ground arith), e)
    ]

search_run :
    (p : Pmm) (count : ℕ)
    → 0 < count
    → (r : Option ℕ) → find_run p.total_pages 0 0 0 p.bitmap count ≡ r
    → FirstRun p.bitmap count p.total_pages r
search_run p count h r e =
    let zeroth : 0 + p.total_pages ≡ p.total_pages = omega arith in
    subst (FirstRun p.bitmap count p.total_pages) e (
      subst (λ k. FirstRun p.bitmap count k (find_run p.total_pages 0 0 0 p.bitmap count)) zeroth
        (find_run-FirstRun p.total_pages 0 0 0 p.bitmap count 0 (omega arith) h (inl refl)
          (λ q a b. absurd (omega arith)) (λ t l. absurd (omega arith))))

set_pages-IsBytes : (n page : ℕ) (m : ℕ → ℕ) → IsBytes m → IsBytes (set_pages n page m)
unfolding set_pages
set_pages-IsBytes zero page m v = v
set_pages-IsBytes (suc n) page m v =
    set_pages-IsBytes n (page + 1) (set_page m page) (set_page-IsBytes m page v)

-- Marking a run marks its pages and no others.
used-set_pages :
    (n page : ℕ) (m : ℕ → ℕ) (q : ℕ)
    → IsBytes m
    → used (set_pages n page m) q ≡ (if leb page q && ltb q (page + n) then true else used m q)
unfolding set_pages
used-set_pages zero page m q v = ground arith
used-set_pages (suc n) page m q v = ground (
  arith,
  used-set_pages n (page + 1) (set_page m page) q (set_page-IsBytes m page v),
  used-set_page m page q v,
)

count_clear-set_pages :
    (n page : ℕ) (m : ℕ → ℕ) (top : ℕ)
    → IsBytes m
    → page + n ≤ top
    → ((q : ℕ) → page ≤ q → q < page + n → used m q ≡ false)
    → count_clear (set_pages n page m) top + n ≡ count_clear m top
unfolding set_pages
count_clear-set_pages zero page m top v h c = omega arith
count_clear-set_pages (suc n) page m top v h c = omega (
  arith,
  count_clear-set_page m page top v (omega arith) (c page (omega arith) (omega arith)),
  count_clear-set_pages n (page + 1) (set_page m page) top (set_page-IsBytes m page v) (omega arith)
      rest,
)
  where
    rest : (q : ℕ) → page + 1 ≤ q → q < page + 1 + n → used (set_page m page) q ≡ false
    rest q a b = ground (arith, used-set_page m page q v, c q (omega arith) (omega arith))

-- What `allocatePages` has done, by the run that its search found.
abbrev pub TakesRun : Pmm → ℕ → Pmm × ℕ → Option ℕ → Type 0
TakesRun p count out none = out ≡ (p, 0)
TakesRun p count out (some r) =
    (out.1 ≡ u64 (r * page_size))
    × ((q : ℕ)
        → used out.0.bitmap q ≡ (if leb r q && ltb q (r + count) then true else used p.bitmap q))

-- For two or more pages `allocatePages` hands out the first run of `count` clear pages below
-- `m_totalPages`, and marks exactly that run; where there is no such run it gives 0 and leaves the
-- manager as it was.
pub allocate_pages-FirstRun :
    (p : Pmm) (count : ℕ)
    → IsBytes p.bitmap
    → 1 < count
    → (r : Option ℕ) × FirstRun p.bitmap count p.total_pages r
      × TakesRun p count (allocate_pages p count) r
unfolding allocate_pages allocate_run
allocate_pages-FirstRun p count v h =
    rw (ne→==-false count 0 (omega arith), ne→==-false count 1 (omega arith))
      (elim (Option-cases (find_run p.total_pages 0 0 0 p.bitmap count)) [
        | inl e ↦ (none, search_run p count (omega arith) none e, rw (e, allocate_run))
        | inr (r, e) ↦ (
          some r,
          search_run p count (omega arith) (some r) e,
          (rw (e, allocate_run), λ q. rw (e, allocate_run) (used-set_pages count r p.bitmap q v)),
        )
      ])

take_run-IsAccounted :
    (p : Pmm) (count r : ℕ)
    → IsAccounted p
    → r + count ≤ p.total_pages
    → IsClear p.bitmap count r
    → IsAccounted (take_run p count r)
unfolding take_run
take_run-IsAccounted p count r v lt clear =
    let inside = v.covered in
    let c =
      count_clear-set_pages count r p.bitmap (p.bitmap_size * 8) v.bytes (omega arith) clear in
    let b = count_clear-le p.bitmap (p.bitmap_size * 8) in
    record {
      bytes = set_pages-IsBytes count r p.bitmap v.bytes;
      small = v.small;
      covered = v.covered;
      counted = omega (arith, v.small, v.counted);
      memory = omega (arith, v.small, v.counted);
    }

allocate_run-IsAccounted :
    (p : Pmm) (count : ℕ) → 0 < count → IsAccounted p → IsAccounted (allocate_run p count).0
unfolding allocate_run
allocate_run-IsAccounted p count h v =
    elim (Option-cases (find_run p.total_pages 0 0 0 p.bitmap count)) [
      | inl e ↦ rw (e, allocate_run) v
      | inr (r, e) ↦
          let l = search_run p count h (some r) e in
          rw (e, allocate_run) (take_run-IsAccounted p count r v l.0 l.1)
    ]

-- `allocatePages` keeps the counters equal to what the bitmap says, for every count.
pub allocate_pages-IsAccounted :
    (p : Pmm) (count : ℕ) → IsAccounted p → IsAccounted (allocate_pages p count).0
unfolding allocate_pages
allocate_pages-IsAccounted p count v = elim (Bool-cases (count == 0)) [
  | inl e ↦ rw e v
  | inr e ↦ elim (Bool-cases (count == 1)) [
    | inl one ↦ rw (e, one) (allocate_page-IsAccounted p v)
    | inr many ↦ rw (e, many) (allocate_run-IsAccounted p count (ground arith) v)
  ]
]

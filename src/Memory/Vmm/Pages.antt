-- ===== src/Memory/Vmm/Pages.antt =====
-- Ranges of pages of virtual addresses, which are the lowest 48 bits of a number.
use qaiosplus.Base.{
  ℕ, suc, ◌+◌, ◌-◌, ◌*◌, ◌%◌, ◌^◌, ◌≤◌, ◌<◌, ◌≡◌, Bool, true, false, ◌&&◌, ◌||◌, arith, ltb, leb,
  ◌==◌, u64, ◌∙◌,
}
use qaiosplus.Memory.Vmm.{page_size}
use qaiosplus.Memory.Vmm.Tree.{page_of}

-- An address is the lowest 48 bits of a number: how far it lies behind `virt`.
abbrev pub distance : ℕ → ℕ → ℕ
distance virt v = (v + (2 ^ 48 - virt % 2 ^ 48)) % 2 ^ 48

-- The addresses of the `n` pages from `virt` on.
unfoldable pub in_pages : ℕ → ℕ → ℕ → Bool
in_pages virt n v = ltb (distance virt v) (n * page_size)

abbrev pub round : ℕ → ℕ → ℕ
round virt i = virt + i * page_size

-- The pages `i` to `i + n - 1` from `virt` on.
unfoldable pub in_run : ℕ → ℕ → ℕ → ℕ → Bool
in_run virt i n v =
    leb (i * page_size) (distance virt v) && ltb (distance virt v) ((i + n) * page_size)

pub distance-lt : (virt v : ℕ) → distance virt v < 2 ^ 48
distance-lt virt v = omega arith

-- Two numbers name one page when the one lies in the page from the other on.
same_page : (a v : ℕ) → a % 4096 ≡ 0 → (page_of v == page_of (u64 a)) ≡ ltb (distance a v) 4096
same_page a v h = ground (arith, h)

distance-round :
    (virt i v : ℕ) → i < 2 ^ 36 → ltb (distance (round virt i) v) 4096 ≡ in_run virt i 1 v
unfolding in_run
distance-round virt i v l = ground (arith, l)

pub page_test :
    (virt i v : ℕ)
    → virt % 4096 ≡ 0
    → i < 2 ^ 36
    → (page_of v == page_of (u64 (round virt i))) ≡ in_run virt i 1 v
page_test virt i v h l = same_page (round virt i) v (omega (arith, h)) ∙ distance-round virt i v l

-- The first page of a run, and those behind it.
pub in_run_more :
    (virt i n v : ℕ) → in_run virt i (suc n) v ≡ (in_run virt i 1 v || in_run virt (i + 1) n v)
unfolding in_run
in_run_more virt i n v = split (distance virt v)
  where
    split :
        (x : ℕ)
        → (leb (i * 4096) x && ltb x ((i + suc n) * 4096)) ≡ (
            (leb (i * 4096) x && ltb x ((i + 1) * 4096))
            || (leb ((i + 1) * 4096) x && ltb x ((i + 1 + n) * 4096)))
    split x = ground arith

pub in_run_none : (virt i v : ℕ) → in_run virt i 0 v ≡ false
unfolding in_run
in_run_none virt i v = none (distance virt v)
  where
    none : (x : ℕ) → (leb (i * 4096) x && ltb x ((i + 0) * 4096)) ≡ false
    none x = ground arith

pub in_run_first : (virt n v : ℕ) → in_run virt 0 n v ≡ in_pages virt n v
unfolding in_run in_pages
in_run_first virt n v = first (distance virt v)
  where
    first : (x : ℕ) → (leb (0 * 4096) x && ltb x ((0 + n) * 4096)) ≡ ltb x (n * 4096)
    first x = ground arith

pub in_run_within :
    (virt i k v : ℕ) → suc i ≤ k → in_run virt i 1 v ≡ true → in_pages virt k v ≡ true
unfolding in_run in_pages
in_run_within virt i k v l h = within (distance virt v) h
  where
    within : (x : ℕ) → (leb (i * 4096) x && ltb x ((i + 1) * 4096)) ≡ true → ltb x (k * 4096) ≡ true
    within x e = ground (arith, e, l)

pub distance_in :
    (virt i v : ℕ)
    → virt % 4096 ≡ 0
    → in_run virt i 1 v ≡ true
    → distance virt v ≡ i * 4096 + v % 4096
unfolding in_run
distance_in virt i v h inside = ground (arith, h, inside)

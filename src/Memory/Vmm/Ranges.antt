-- ===== src/Memory/Vmm/Ranges.antt =====
-- The loops over pages of QKMemory/src/QKMemVMM.cpp, `mapRange` and `unmapRange`, by what `translate`
-- says after them.
use qaiosplus.Base.{
  ℕ, zero, suc, ◌+◌, ◌%◌, ◌^◌, ◌≤◌, ◌<◌, ◌≡◌, Bool, true, false, ◌||◌, refl, arith, if◌then◌else◌,
  u64, Bool-cases, inl, inr, ◌∙◌,
}
use qaiosplus.Memory.Vmm.{
  Vmm, Status, is_success, pages_of, map, map_from, map_range, unmap, unmap_from, unmap_range,
  translate,
}
use qaiosplus.Memory.Vmm.Tree.{Shape, IsTree}
use qaiosplus.Memory.Vmm.Pages.{
  distance, in_pages, round, in_run, page_test, in_run_more, in_run_none, in_run_first,
  in_run_within, distance_in,
}
use qaiosplus.Memory.Vmm.Refine.{map_refines}
use qaiosplus.Memory.Vmm.Unmap.{unmap_refines}

unmap_from_lem :
    (n i : ℕ) (s : Vmm) (g : Shape) (virt : ℕ)
    → IsTree s g
    → virt % 4096 ≡ 0
    → i + n ≤ 2 ^ 36
    → IsTree (unmap_from n i s virt) g
      × ((v : ℕ)
          → translate (unmap_from n i s virt) v ≡ (if in_run virt i n v then 0 else translate s v))
unfolding unmap_from
unmap_from_lem zero i s g virt tree h top = (tree, λ v. rw (in_run_none virt i v) refl)
unmap_from_lem (suc n) i s g virt tree h top =
    let step = unmap_refines s g (u64 (round virt i)) tree in
    let rest =
      unmap_from_lem n (i + 1) (unmap s (u64 (round virt i))).0 g virt step.0 h
        (omega (arith, top)) in
    (
      rest.0,
      λ v.
          let test = page_test virt i v h (omega (arith, top)) in
          rw (rest.1 v, step.1 v, test, in_run_more virt i n v)
            (either (in_run virt i 1 v) (in_run virt (i + 1) n v) (translate s v)),
    )
  where
    either :
        (b c : Bool) (x : ℕ) → (if c then 0 else (if b then 0 else x)) ≡ (if b || c then 0 else x)
    either true true x = refl
    either true false x = refl
    either false c x = refl

-- Where the page tables form a tree and the range begins at a page and has at most 2 ^ 36 pages, the
-- addresses of the pages of `unmapRange` read 0 afterwards, and all others what they read before.
pub unmap_range_refines :
    (s : Vmm) (g : Shape) (virt size : ℕ)
    → IsTree s g
    → virt % 4096 ≡ 0
    → pages_of size ≤ 2 ^ 36
    → IsTree (unmap_range s virt size) g
      × ((v : ℕ)
          → translate (unmap_range s virt size) v
            ≡ (if in_pages virt (pages_of size) v then 0 else translate s v))
unfolding unmap_range
unmap_range_refines s g virt size tree h top =
    let r = unmap_from_lem (pages_of size) 0 s g virt tree h (omega (arith, top)) in
    (r.0, λ v. rw (unmap_range, r.1 v, in_run_first virt (pages_of size) v) refl)

-- What a run of `map_from` from page `i` on leaves: all pages mapped, or those before page `k`
-- unmapped.
abbrev Outcome : ℕ → ℕ → Vmm → Vmm × Status → ℕ → ℕ → Type 0
Outcome n i s r virt phys =
    (k : ℕ) × (i ≤ k)
    × (k ≤ i + n)
    × ((v : ℕ)
        → translate r.0 v ≡ (
            if is_success r.1
            then (if in_run virt i n v then phys + distance virt v else translate s v)
            else (if in_pages virt k v then 0 else translate s v)))

-- What the first round says, seen through the rounds that follow: when all succeed, and when one fails.
later_success :
    (phys virt i n v x : ℕ)
    → virt % 4096 ≡ 0
    → round phys (i + 1) ≤ 2 ^ 64
    → (if in_run virt (i + 1) n v
        then phys + distance virt v
        else (if in_run virt i 1 v then u64 (round phys i) + v % 4096 else x))
      ≡ (if in_run virt i (suc n) v then phys + distance virt v else x)
later_success phys virt i n v x h top = elim (Bool-cases (in_run virt i 1 v)) [
  | inl here ↦
      let mapped : u64 (round phys i) + v % 4096 ≡ phys + distance virt v =
        rw (distance_in virt i v h here) (omega (arith, top)) in
      rw (in_run_more virt i n v, here, mapped) (same (in_run virt (i + 1) n v) _)
  | inr other ↦ rw (in_run_more virt i n v, other) refl
]
  where
    same : (c : Bool) (y : ℕ) → (if c then y else y) ≡ y
    same true y = refl
    same false y = refl

later_failure :
    (virt i k v x y : ℕ)
    → suc i ≤ k
    → (if in_pages virt k v then 0 else (if in_run virt i 1 v then y else x))
      ≡ (if in_pages virt k v then 0 else x)
later_failure virt i k v x y l = elim (Bool-cases (in_run virt i 1 v)) [
  | inl here ↦ rw (in_run_within virt i k v l here) refl
  | inr other ↦ rw other refl
]

map_from_lem :
    (n i : ℕ) (s : Vmm) (g : Shape) (virt phys flags : ℕ)
    → IsTree s g
    → virt % 4096 ≡ 0
    → phys % 4096 ≡ 0
    → flags < 4096
    → flags % 2 ≡ 1
    → i + n ≤ 2 ^ 36
    → round phys (i + n) ≤ 2 ^ 64
    → ((g' : Shape) × IsTree (map_from n i s virt phys flags).0 g')
      × Outcome n i s (map_from n i s virt phys flags) virt phys
unfolding map_from is_success
map_from_lem zero i s g virt phys flags tree h hp small odd top topp =
    ((g, tree), (i, omega arith, omega arith, λ v. rw (in_run_none virt i v) refl))
map_from_lem (suc n) i s g virt phys flags tree h hp small odd top topp =
    let one = map s (u64 (round virt i)) (u64 (round phys i)) flags in
    let step =
      map_refines s g (u64 (round virt i)) (u64 (round phys i)) flags tree (omega (arith, hp, topp))
        small odd in
    elim (Bool-cases (is_success one.1)) [
      | inl ok ↦
          let rest =
            map_from_lem n (i + 1) one.0 step.0.0 virt phys flags step.0.1 h hp small odd
              (omega (arith, top)) (omega (arith, topp)) in
          rw (map_from, ok)
            (
              rest.0,
              (
                rest.1.0,
                omega (arith, rest.1.1),
                omega (arith, rest.1.2),
                λ v.
                    rest.1.3 v
                    ∙ rw (step.1 v, ok, page_test virt i v h (omega (arith, top)))
                        (through (is_success (map_from n (i + 1) one.0 virt phys flags).1) v
                          rest.1.0 rest.1.1),
              ),
            )
      | inr bad ↦
          let undo = unmap_from_lem i 0 one.0 step.0.0 virt step.0.1 h (omega (arith, top)) in
          rw (map_from, bad)
            (
              (step.0.0, undo.0),
              (
                i,
                omega arith,
                omega arith,
                λ v. rw (undo.1 v, step.1 v, bad, in_run_first virt i v) refl,
              ),
            )
    ]
  where
    through :
        (b : Bool) (v k : ℕ)
        → i + 1 ≤ k
        → (if b
            then (if in_run virt (i + 1) n v
                then phys + distance virt v
                else (if in_run virt i 1 v then u64 (round phys i) + v % 4096 else translate s v))
            else (if in_pages virt k v
                then 0
                else (if in_run virt i 1 v then u64 (round phys i) + v % 4096 else translate s v)))
          ≡ (if b
              then (if in_run virt i (suc n) v then phys + distance virt v else translate s v)
              else (if in_pages virt k v then 0 else translate s v))
    through true v k l = later_success phys virt i n v (translate s v) h (omega (arith, topp))
    through false v k l = later_failure virt i k v (translate s v) _ (omega (arith, l))

-- Where the page tables form a tree, the two ranges begin at pages and have at most 2 ^ 36 pages, the
-- physical one lies below 2 ^ 64 and the flags are below 4096, Present among them: when `mapRange`
-- succeeds, the addresses of its pages read the addresses from `phys` on, in order, and all others
-- what they read before. When it fails, there is a page such that all pages of the range before it
-- read 0, and all other addresses what they read before.
pub map_range_refines :
    (s : Vmm) (g : Shape) (virt phys size flags : ℕ)
    → IsTree s g
    → virt % 4096 ≡ 0
    → phys % 4096 ≡ 0
    → flags < 4096
    → flags % 2 ≡ 1
    → pages_of size ≤ 2 ^ 36
    → round phys (pages_of size) ≤ 2 ^ 64
    → ((g' : Shape) × IsTree (map_range s virt phys size flags).0 g')
      × ((k : ℕ) × (k ≤ pages_of size)
          × ((v : ℕ)
              → translate (map_range s virt phys size flags).0 v ≡ (
                  if is_success (map_range s virt phys size flags).1
                  then (if in_pages virt (pages_of size) v
                      then phys + distance virt v
                      else translate s v)
                  else (if in_pages virt k v then 0 else translate s v))))
unfolding map_range
map_range_refines s g virt phys size flags tree h hp small odd top topp =
    let r =
      map_from_lem (pages_of size) 0 s g virt phys flags tree h hp small odd (omega (arith, top))
        (omega (arith, topp)) in
    (r.0, (r.1.0, omega (arith, r.1.2), λ v. rw (← in_run_first virt (pages_of size) v) (r.1.3 v)))

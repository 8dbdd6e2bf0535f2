-- ===== src/Memory/Vmm/Release.antt =====
-- `free` of QKMemory/src/QKMemVMM.cpp by what `translate` says after it.
use qaiosplus.Base.{
  ℕ, zero, suc, ◌+◌, ◌*◌, ◌/◌, ◌%◌, ◌^◌, ◌≤◌, ◌≡◌, refl, ap, ◌∙◌, true, not, ◌&&◌, arith, leb, ltb,
  ◌<◌, false, ◌==◌, if◌then◌else◌, u64, Bool-cases, inl, inr, ne→==-false,
}
use qaiosplus.Memory.Pmm.{Pmm, free_page}
use qaiosplus.Memory.Vmm.{Vmm, pages_of, unmap, translate, release_page, release_from, free}
use qaiosplus.Memory.Vmm.Tree.{Shape, IsTree}
use qaiosplus.Memory.Vmm.Unmap.{unmap_refines}
use qaiosplus.Memory.Vmm.Pages.{
  distance, distance-lt, in_pages, in_run, in_run_more, in_run_none, in_run_first, page_test, round,
}

-- Where the page of the range from `virt` begins that has the address in it.
abbrev pub page_start : ℕ → ℕ → ℕ
page_start virt v = u64 (round virt (distance virt v / 4096))

-- The tables do not depend on the frames that are free.
with_pmm-IsTree : (s : Vmm) (g : Shape) (pmm : Pmm) → IsTree s g → IsTree (record s { pmm = pmm }) g
with_pmm-IsTree s g pmm tree = record {
  root_level = tree.root_level;
  root_prefix = tree.root_prefix;
  aligned = tree.aligned;
  child = tree.child;
  fresh = tree.fresh;
  dma_aligned = tree.dma_aligned;
  offset_aligned = tree.offset_aligned;
  dma_placed = tree.dma_placed;
  dma_fits = tree.dma_fits;
}

translate-with_pmm :
    (s : Vmm) (pmm : Pmm) (v : ℕ) → translate (record s { pmm = pmm }) v ≡ translate s v
unfolding translate
translate-with_pmm s pmm v = refl

-- What is left of the pages `i` to `i + n - 1` from `virt` on: those whose first address does not read
-- 0 are unmapped.
abbrev freed : Vmm → ℕ → ℕ → ℕ → ℕ → ℕ
freed s virt i n v =
    if in_run virt i n v && not (translate s (page_start virt v) == 0) then 0 else translate s v

page_in : (virt i v : ℕ) → in_run virt i 1 v ≡ true → page_start virt v ≡ u64 (round virt i)
unfolding in_run
page_in virt i v inside =
    let same : distance virt v / 4096 ≡ i = ground (arith, inside) in
    ap (λ k. u64 (round virt k)) same

distance_start : (virt j : ℕ) → j < 2 ^ 36 → distance virt (u64 (round virt j)) ≡ j * 4096
distance_start virt j l = omega (arith, l)

start_in : (virt i j : ℕ) → j < 2 ^ 36 → in_run virt i 1 (u64 (round virt j)) ≡ (j == i)
unfolding in_run
start_in virt i j l = rw (distance_start virt j l) (ground arith)

base_in : (virt i n v : ℕ) → in_run virt i n (page_start virt v) ≡ in_run virt i n v
unfolding in_run
base_in virt i n v =
    rw (distance_start virt (distance virt v / 4096) (omega (arith, distance-lt virt v)))
      (part (distance virt v))
  where
    part :
        (x : ℕ)
        → (leb (i * 4096) (x / 4096 * 4096) && ltb (x / 4096 * 4096) ((i + n) * 4096))
          ≡ (leb (i * 4096) x && ltb x ((i + n) * 4096))
    part x = ground arith

unmap-pmm : (s : Vmm) (v : ℕ) → (unmap s v).0.pmm ≡ s.pmm
unfolding unmap
unmap-pmm s v = ground arith

release_page-pmm :
    (s : Vmm) (a : ℕ)
    → (release_page true s a).pmm
      ≡ (if translate s a == 0 then s.pmm else free_page s.pmm (translate s a))
unfolding release_page
release_page-pmm s a = elim (Bool-cases (translate s a == 0)) [
  | inl gone ↦ rw (release_page, gone) refl
  | inr mapped ↦ rw (release_page, mapped, unmap-pmm s a) refl
]

release_page_lem :
    (s : Vmm) (g : Shape) (virt i : ℕ)
    → IsTree s g
    → virt % 4096 ≡ 0
    → i < 2 ^ 36
    → IsTree (release_page true s (u64 (round virt i))) g
      × ((v : ℕ) → translate (release_page true s (u64 (round virt i))) v ≡ freed s virt i 1 v)
unfolding release_page
release_page_lem s g virt i tree h top =
    let a = u64 (round virt i) in
    let step = unmap_refines s g a tree in
    elim (Bool-cases (translate s a == 0)) [
      | inl gone ↦
          rw (release_page, gone)
            (
              tree,
              λ v. elim (Bool-cases (in_run virt i 1 v)) [
                | inl inside ↦
                    let zeroed : (translate s (page_start virt v) == 0) ≡ true =
                      ap (λ x. translate s x == 0) (page_in virt i v inside) ∙ gone in
                    rw (inside, zeroed) refl
                | inr outside ↦ rw outside refl
              ],
            )
      | inr mapped ↦
          rw (release_page, mapped)
            (
              with_pmm-IsTree (unmap s a).0 g _ step.0,
              λ v.
                  translate-with_pmm (unmap s a).0 _ v
                  ∙ step.1 v
                  ∙ elim (Bool-cases (in_run virt i 1 v)) [
                    | inl inside ↦
                        let some_frame : (translate s (page_start virt v) == 0) ≡ false =
                          ap (λ x. translate s x == 0) (page_in virt i v inside) ∙ mapped in
                        rw (page_test virt i v h top, inside, some_frame) refl
                    | inr outside ↦ rw (page_test virt i v h top, outside) refl
                  ],
            )
    ]

in_run_apart : (virt i n v : ℕ) → in_run virt i 1 v ≡ true → in_run virt (i + 1) n v ≡ false
unfolding in_run
in_run_apart virt i n v h = apart (distance virt v) h
  where
    apart :
        (x : ℕ)
        → (leb (i * 4096) x && ltb x ((i + 1) * 4096)) ≡ true
        → (leb ((i + 1) * 4096) x && ltb x ((i + 1 + n) * 4096)) ≡ false
    apart x e = ground (arith, e)

-- The frames that `n` pages from page `i` on have, given back in order; 0 is none.
unfoldable pub give_back : ℕ → ℕ → (ℕ → ℕ) → Pmm → Pmm
give_back zero i frames pmm = pmm
give_back (suc n) i frames pmm =
    give_back n (i + 1) frames (if frames i == 0 then pmm else free_page pmm (frames i))

give_back_ext :
    (n i : ℕ) (f g : ℕ → ℕ) (pmm : Pmm)
    → ((j : ℕ) → i ≤ j → j < i + n → f j ≡ g j)
    → give_back n i f pmm ≡ give_back n i g pmm
unfolding give_back
give_back_ext zero i f g pmm h = refl
give_back_ext (suc n) i f g pmm h =
    give_back_ext n (i + 1) f g (if f i == 0 then pmm else free_page pmm (f i))
      (λ j a b. h j (omega (arith, a)) (omega (arith, b)))
    ∙ ap (λ x. give_back n (i + 1) g (if x == 0 then pmm else free_page pmm x))
        (h i (omega arith) (omega arith))

-- What the pages from `virt` on have for frames.
abbrev pub frames_of : Vmm → ℕ → ℕ → ℕ
frames_of s virt i = translate s (u64 (round virt i))

Released : Vmm → Shape → ℕ → ℕ → ℕ → Vmm → Type 0
Released s g virt i n s' =
    IsTree s' g
    × ((v : ℕ) → translate s' v ≡ freed s virt i n v)
    × (s'.pmm ≡ give_back n i (frames_of s virt) s.pmm)

release_from_lem :
    (n i : ℕ) (s : Vmm) (g : Shape) (virt : ℕ)
    → IsTree s g
    → virt % 4096 ≡ 0
    → i + n ≤ 2 ^ 36
    → Released s g virt i n (release_from true n i s virt)
unfolding release_from Released give_back
release_from_lem zero i s g virt tree h top = (tree, (λ v. rw (in_run_none virt i v) refl), refl)
release_from_lem (suc n) i s g virt tree h top =
    let s' = release_page true s (u64 (round virt i)) in
    let step = release_page_lem s g virt i tree h (omega (arith, top)) in
    let rest = release_from_lem n (i + 1) s' g virt step.0 h (omega (arith, top)) in
    (
      rest.0,
      (λ v. rest.1 v ∙ elim (Bool-cases (in_run virt i 1 v)) [
        | inl inside ↦
            rw (in_run_apart virt i n v inside, step.1 v, in_run_more virt i n v, inside) refl
        | inr outside ↦
            rw
              (
                step.1 v,
                step.1 (page_start virt v),
                base_in virt i 1 v,
                in_run_more virt i n v,
                outside,
              )
              refl
      ]),
      rest.2
          ∙ give_back_ext n (i + 1) (frames_of s' virt) (frames_of s virt) s'.pmm (λ j a b.
            step.1 (u64 (round virt j))
            ∙ rw (start_in virt i j (omega (arith, b, top)), ne→==-false j i (omega (arith, a)))
                refl)
          ∙ ap (give_back n (i + 1) (frames_of s virt)) (release_page-pmm s (u64 (round virt i))),
    )

-- Where the page tables form a tree and the range from `addr`, where a page begins, has at most 2 ^ 36
-- pages, `free` makes the addresses of those of its pages read 0 whose first address did not, and all
-- other addresses read what they read before. The tables stay the tree they were. The frames of those
-- pages, as their first addresses read before the call, are given back to the physical memory manager
-- in order, and no others.
pub free_refines :
    (s : Vmm) (g : Shape) (addr size : ℕ)
    → IsTree s g
    → addr % 4096 ≡ 0
    → pages_of size ≤ 2 ^ 36
    → IsTree (free s addr size) g
      × ((v : ℕ)
          → translate (free s addr size) v ≡ (
              if in_pages addr (pages_of size) v && not (translate s (page_start addr v) == 0)
              then 0
              else translate s v))
      × ((free s addr size).pmm ≡ give_back (pages_of size) 0 (frames_of s addr) s.pmm)
unfolding free Released
free_refines s g addr size tree h top =
    let r = release_from_lem (pages_of size) 0 s g addr tree h (omega (arith, top)) in
    (
      r.0,
      (λ v.
          r.1 v
          ∙ ap (λ b. if b && not (translate s (page_start addr v) == 0) then 0 else translate s v)
              (in_run_first addr (pages_of size) v)),
      r.2,
    )

-- ===== src/Memory/Vmm/Unmap.antt =====
-- `unmap` of QKMemory/src/QKMemVMM.cpp as an update of what `translate` says, and a page mapped and
-- unmapped again.
use qaiosplus.Base.{
  ℕ, suc, ◌<◌, ◌≡◌, refl, ap, sym, ◌∙◌, none, some, arith, ◌==◌, if◌then◌else◌, Bool-cases, inl,
  inr, ==→eq,
}
use qaiosplus.Memory.Vmm.{
  Vmm, Words, cell, is_present, frame, pml4_index, pdpt_index, pd_index, pt_index, next_table,
  find_pt, unmap, translate,
}
use qaiosplus.Memory.Vmm.Tree.{
  Shape, IsTree, index_at, index_at-lt, prefix_at, prefix_step, page_of, page_index, target_zero,
}
use qaiosplus.Memory.Vmm.Map.{Links, Walk, written-IsTree, written-translate}
use qaiosplus.Memory.Vmm.Steps.{prefix_top}

data Found (w : Words) (root v : ℕ) : Type 0 where
  missing : find_pt w root v ≡ none → Found w root v
  found :
      (pdpt pd pt : ℕ)
      → find_pt w root v ≡ some pt
      → Links w root (index_at 3 v) pdpt
      → Links w pdpt (index_at 2 v) pd
      → Links w pd (index_at 1 v) pt
      → Found w root v

find_pt_cases : (w : Words) (root v : ℕ) → Found w root v
unfolding find_pt next_table index_at
find_pt_cases w root v =
    let e3 = w (cell root (pml4_index v)) in
    let e2 = w (cell (frame e3) (pdpt_index v)) in
    let e1 = w (cell (frame e2) (pd_index v)) in
    elim (Bool-cases (is_present e3)) [
      | inr a ↦ missing (rw (find_pt, next_table, a) refl)
      | inl a ↦ elim (Bool-cases (is_present e2)) [
        | inr b ↦ missing (rw (find_pt, next_table, a, b) refl)
        | inl b ↦ elim (Bool-cases (is_present e1)) [
          | inr c ↦ missing (rw (find_pt, next_table, a, b, c) refl)
          | inl c ↦
              found (frame e3) (frame e2) (frame e1) (rw (find_pt, next_table, a, b, c) refl)
                (record { there = a; leads = refl }) (record { there = b; leads = refl })
                (record { there = c; leads = refl })
        ]
      ]
    ]

linked_child :
    (s : Vmm) (g : Shape) (l t c v : ℕ)
    → IsTree s g
    → l < 3
    → g.level t ≡ suc l
    → g.prefix t ≡ prefix_at (suc l) v
    → Links s.words t (index_at (suc l) v) c
    → (g.level c ≡ l) × (g.prefix c ≡ prefix_at l v)
linked_child s g l t c v tree small level prefix link =
    let next = tree.child l t (index_at (suc l) v) small level (index_at-lt (suc l) v) link.there in
    (
      ap g.level (sym link.leads) ∙ next.0,
      ap g.prefix (sym link.leads) ∙ next.1 ∙ omega (arith, prefix, prefix_step l v small),
    )

found_Walk :
    (s : Vmm) (g : Shape) (v pdpt pd pt : ℕ)
    → IsTree s g
    → Links s.words s.root (index_at 3 v) pdpt
    → Links s.words pdpt (index_at 2 v) pd
    → Links s.words pd (index_at 1 v) pt
    → Walk s g v pt
found_Walk s g v pdpt pd pt tree a b c =
    let at2 =
      linked_child s g 2 s.root pdpt v tree (omega arith) tree.root_level
        (tree.root_prefix ∙ sym (prefix_top v)) a in
    let at1 = linked_child s g 1 pdpt pd v tree (omega arith) at2.0 at2.1 b in
    let at0 = linked_child s g 0 pd pt v tree (omega arith) at1.0 at1.1 c in
    record {
      pdpt = pdpt;
      pd = pd;
      from_root = a;
      from_pdpt = b;
      from_pd = c;
      pdpt_level = at2.0;
      pd_level = at1.0;
      pt_level = at0.0;
      pt_prefix = at0.1;
    }

missing_translate : (s : Vmm) (v : ℕ) → find_pt s.words s.root v ≡ none → translate s v ≡ 0
unfolding translate
missing_translate s v e = rw (translate, e) refl

-- The tables on the way to the addresses of one page are the same.
find_pt_page :
    (w : Words) (root v v' : ℕ) → page_of v' ≡ page_of v → find_pt w root v' ≡ find_pt w root v
unfolding find_pt index_at
find_pt_page w root v v' e =
    rw (find_pt, page_index 3 v v' e, page_index 2 v v' e, page_index 1 v v' e) refl

-- Where the page tables form a tree, after unmapping a page `translate` says 0 for the addresses of
-- that page, and for every other address what it said before. The tables stay the tree they were.
pub unmap_refines :
    (s : Vmm) (g : Shape) (v : ℕ)
    → IsTree s g
    → IsTree (unmap s v).0 g
      × ((v' : ℕ)
          → translate (unmap s v).0 v' ≡ (if page_of v' == page_of v then 0 else translate s v'))
unfolding unmap pt_index index_at
unmap_refines s g v tree = elim (find_pt_cases s.words s.root v) [
  | missing e ↦
      rw (unmap, e)
        (
          tree,
          λ v'. elim (Bool-cases (page_of v' == page_of v)) [
            | inl same ↦
                rw
                  (
                    same,
                    missing_translate s v' (find_pt_page s.words s.root v v' (==→eq _ _ same) ∙ e),
                  )
                  refl
            | inr other ↦ rw other refl
          ],
        )
  | found pdpt pd pt e a b c ↦
      let walk = found_Walk s g v pdpt pd pt tree a b c in
      rw (unmap, e)
        (
          written-IsTree s g v pt 0 tree walk,
          λ v'. rw (written-translate s g v pt 0 tree walk v', target_zero v') refl,
        )
]

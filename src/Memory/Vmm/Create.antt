-- ===== src/Memory/Vmm/Create.antt =====
-- One step down: a table that is there already, or a new one.
use qaiosplus.Base.{
  ℕ, suc, ◌+◌, ◌*◌, ◌%◌, ◌≤◌, ◌<◌, ◌≡◌, ◌≢◌, ◌⊎◌, refl, ap, sym, ◌∙◌, true, false, none, some,
  arith, ltb, ◌==◌, if◌then◌else◌, update, u64, bit_or, Bool-cases, inl, inr, ==→eq, ==-false→ne,
  eq→==, ne→==-false,
}
use qaiosplus.Memory.Vmm.{
  Vmm, Words, dma_size, cell, is_present, frame, zero_page, early_allocate_page,
  get_or_create_table,
}
use qaiosplus.Memory.Vmm.Tree.{
  Shape, IsTree, index_at, prefix_at, look, look_absent, look_present, look_same, cell_table,
  absent_zero, entry_of,
}
use qaiosplus.Memory.Vmm.Leads.{
  Leads, found_Leads, present_entry, zero_page_inside, zero_page_outside, look_empty,
}

module _ (s : Vmm) (g : Shape) (t i l : ℕ) (tree : IsTree s g) (at : g.level t ≡ suc l)
    (small : l < 3) (inside : i < 512) (gone : is_present (s.words (cell t i)) ≡ false)
    (room : s.dma_offset + 4096 ≤ dma_size) where
  abbrev new : ℕ
  new = s.dma_base + s.dma_offset

  abbrev grown : Words
  grown = update (zero_page s.words new) (cell t i) (bit_or new 3)

  abbrev after : Vmm
  after = record s { dma_offset = s.dma_offset + 4096; words = grown }

  abbrev with_new : Shape
  with_new = record {
    level = λ a. if a == new then l else g.level a;
    prefix = λ a. if a == new then g.prefix t * 512 + i else g.prefix a;
  }

  new_aligned : new % 4096 ≡ 0
  new_aligned = omega (arith, tree.dma_aligned, tree.offset_aligned)

  new_fresh : g.level new ≡ 4
  new_fresh = tree.fresh new (omega arith) (omega (arith, room))

  old_other : (u : ℕ) → g.level u < 4 → u ≢ new
  old_other u h e = let at_new : g.level u ≡ 4 = ap g.level e ∙ new_fresh in omega (arith, at_new)

  grown_other :
      (u j : ℕ)
      → g.level u < 4
      → j < 512
      → cell u j ≢ cell t i
      → grown (cell u j) ≡ s.words (cell u j)
  grown_other u j h b ne =
      rw (ne→==-false (cell u j) (cell t i) ne)
        (zero_page_outside s.words new u j new_aligned (tree.aligned u h) (old_other u h) b)

  grown_here : grown (cell t i) ≡ bit_or new 3
  grown_here = rw (eq→== (cell t i) (cell t i) refl) refl

  grown-new : (j : ℕ) → j < 512 → grown (cell new j) ≡ 0
  grown-new j b =
      let apart : cell new j ≢ cell t i = λ e. old_other t (omega (arith, at)) (
        sym (cell_table t new i j (tree.aligned t (omega (arith, at))) new_aligned inside b e).0) in
      rw (ne→==-false (cell new j) (cell t i) apart) (zero_page_inside s.words new j b)

  with_new_old :
      (u : ℕ) → g.level u < 4 → (with_new.level u ≡ g.level u) × (with_new.prefix u ≡ g.prefix u)
  with_new_old u h = let ne = ne→==-false u new (old_other u h) in (rw ne refl, rw ne refl)

  with_new_here : (with_new.level new ≡ l) × (with_new.prefix new ≡ g.prefix t * 512 + i)
  with_new_here = let e = eq→== new new refl in (rw e refl, rw e refl)

  new_child :
      (k u j : ℕ)
      → k < 3
      → with_new.level u ≡ suc k
      → j < 512
      → is_present (grown (cell u j)) ≡ true
      → (with_new.level (frame (grown (cell u j))) ≡ k)
        × (with_new.prefix (frame (grown (cell u j))) ≡ with_new.prefix u * 512 + j)
  new_child k u j b e inside' here = elim (Bool-cases (u == new)) [
    | inl is ↦
        let same = ==→eq u new is in
        let none_here : is_present (grown (cell u j)) ≡ false =
          rw (same, grown-new j inside') absent_zero in
        cc (here, none_here)
    | inr other ↦
        let old : g.level u ≡ suc k = rw other at e in
        let low : g.level u < 4 = omega (arith, old) in
        elim (Bool-cases (cell u j == cell t i)) [
          | inl hit ↦
              let (a, b') =
                cell_table t u i j (tree.aligned t (omega (arith, at))) (tree.aligned u low) inside
                  inside' (==→eq _ _ hit) in
              let entry : grown (cell u j) ≡ bit_or new 3 = rw (a, b') grown_here in
              let points = ap frame entry ∙ (present_entry new new_aligned).1 in
              let same : k ≡ l = omega (arith, old, at, ap g.level a) in
              (
                ap with_new.level points ∙ with_new_here.0 ∙ sym same,
                ap with_new.prefix points
                    ∙ with_new_here.1
                    ∙ omega (arith, (with_new_old u low).1, ap g.prefix a, b'),
              )
          | inr miss ↦
              let entry = grown_other u j low inside' (==-false→ne _ _ miss) in
              let next = tree.child k u j b old inside' (rw entry at here) in
              let kept = with_new_old (frame (s.words (cell u j))) (omega (arith, next.0)) in
              (
                ap with_new.level (ap frame entry) ∙ kept.0 ∙ next.0,
                ap with_new.prefix (ap frame entry)
                    ∙ kept.1
                    ∙ omega (arith, next.1, (with_new_old u low).1),
              )
        ]
  ]

  new-IsTree : IsTree after with_new
  new-IsTree = record {
    root_level = (with_new_old s.root (omega (arith, tree.root_level))).0 ∙ tree.root_level;
    root_prefix = (with_new_old s.root (omega (arith, tree.root_level))).1 ∙ tree.root_prefix;
    aligned = λ u h. elim (Bool-cases (u == new)) [
      | inl is ↦ rw (==→eq u new is) new_aligned
      | inr other ↦ tree.aligned u (rw other at h)
    ];
    child = new_child;
    fresh = λ u a b.
        let other : u ≢ new = omega (arith, a) in
        rw (ne→==-false u new other) (tree.fresh u (omega (arith, a)) b);
    dma_aligned = tree.dma_aligned;
    offset_aligned = omega (arith, tree.offset_aligned);
    dma_placed = tree.dma_placed;
    dma_fits = tree.dma_fits;
  }

  new_ends : (v : ℕ) → entry_of after v ≡ entry_of s v
  unfolding prefix_at
  new_ends v =
      look_same s g tree grown t i (suc l) at (omega arith) inside grown_other v
        (λ k p.
          let here : cell t (index_at (suc l) v) ≡ cell t i = ap (cell t) k in
          let entry = ap grown here ∙ grown_here in
          let linked : is_present (grown (cell t (index_at (suc l) v))) ≡ true =
            ap is_present entry ∙ (present_entry new new_aligned).0 in
          let absent : is_present (s.words (cell t (index_at (suc l) v))) ≡ false =
            ap is_present (ap s.words here) ∙ gone in
          let points = ap frame entry ∙ (present_entry new new_aligned).1 in
          look_present l t v grown linked
          ∙ ap (λ c. look l grown c v) points
          ∙ look_empty l new v grown grown-new
          ∙ sym (look_absent l t v s.words absent))
        3 s.root (omega arith) tree.root_level tree.root_prefix

  created_Leads : Leads s g t i l after new
  created_Leads = record {
    shape = with_new;
    tree = new-IsTree;
    child_level = with_new_here.0;
    child_prefix = with_new_here.1;
    linked = ap is_present grown_here ∙ (present_entry new new_aligned).0;
    leads = ap frame grown_here ∙ (present_entry new new_aligned).1;
    level_kept = λ u h. (with_new_old u h).0;
    prefix_kept = λ u h. (with_new_old u h).1;
    others = grown_other;
    root_kept = refl;
    one_page = omega arith;
    ends = new_ends;
  }

-- A step down either leads to a table, or there is no room for a new one and nothing changes.
pub get_or_create_table_cases :
    (s : Vmm) (g : Shape) (t i l : ℕ)
    → IsTree s g
    → g.level t ≡ suc l
    → l < 3
    → i < 512
    → ((get_or_create_table s t i ≡ (s, none)) × (dma_size < s.dma_offset + 4096))
      ⊎ ((s' : Vmm) × (c : ℕ) × (get_or_create_table s t i ≡ (s', some c)) × Leads s g t i l s' c)
unfolding get_or_create_table early_allocate_page
get_or_create_table_cases s g t i l tree at small inside =
    elim (Bool-cases (is_present (s.words (cell t i)))) [
      | inl here ↦ inr (
        s,
        frame (s.words (cell t i)),
        rw (get_or_create_table, here) refl,
        found_Leads s g t i l tree at small inside here,
      )
      | inr gone ↦ elim (Bool-cases (ltb dma_size (s.dma_offset + 4096))) [
        | inl full ↦
            inl
              (rw (get_or_create_table, gone, early_allocate_page, full) refl, ground (arith, full))
        | inr room ↦
            let fits : s.dma_offset + 4096 ≤ dma_size = ground (arith, room) in
            let whole : u64 (s.dma_base + s.dma_offset) ≡ s.dma_base + s.dma_offset =
              omega (arith, tree.dma_fits) in
            let ne = ne→==-false (s.dma_base + s.dma_offset) 0 (omega (arith, tree.dma_placed)) in
            inr (
              record s {
                dma_offset = s.dma_offset + 4096;
                words =
                    update (zero_page s.words (s.dma_base + s.dma_offset)) (cell t i)
                      (bit_or (s.dma_base + s.dma_offset) 3);
              },
              s.dma_base + s.dma_offset,
              rw (get_or_create_table, gone, early_allocate_page, room, whole, ne) refl,
              created_Leads s g t i l tree at small inside gone fits,
            )
      ]
    ]

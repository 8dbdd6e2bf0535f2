-- ===== src/Memory/Vmm/Map.antt =====
-- `map` and `unmap` as updates of what `translate` says.
use qaiosplus.Base.{
  ℕ, suc, ◌+◌, ◌*◌, ◌/◌, ◌%◌, ◌<◌, ◌≡◌, ◌≢◌, refl, ap, sym, ◌∙◌, true, arith, ◌==◌, if◌then◌else◌,
  update, bit_or, bit_or_page, Bool-cases, inl, inr, ==→eq, ==-false→ne, eq→==, ne→==-false,
}
use qaiosplus.Memory.Vmm.{Vmm, Words, cell, is_present, frame, page_offset, translate}
use qaiosplus.Memory.Vmm.Tree.{
  Shape, IsTree, index_at, index_at-lt, prefix_at, page_of, page_index, same_page, look,
  look_bottom, look_present, look_same, cell_table, target, entry_of, translate_lem,
}

-- Entry `i` of the table `t` points to the table `c`.
pub record Links (w : Words) (t i c : ℕ) : Type 0 where
  pub there : is_present (w (cell t i)) ≡ true
  pub leads : frame (w (cell t i)) ≡ c

-- The tables on the way to an address, down to its page table.
pub record Walk (s : Vmm) (g : Shape) (v pt : ℕ) : Type 0 where
  pub pdpt : ℕ
  pub pd : ℕ
  pub from_root : Links s.words s.root (index_at 3 v) pdpt
  pub from_pdpt : Links s.words pdpt (index_at 2 v) pd
  pub from_pd : Links s.words pd (index_at 1 v) pt
  pub pdpt_level : g.level pdpt ≡ 2
  pub pd_level : g.level pd ≡ 1
  pub pt_level : g.level pt ≡ 0
  pub pt_prefix : g.prefix pt ≡ prefix_at 0 v

follow :
    (l t c i v : ℕ) (w : Words)
    → index_at (suc l) v ≡ i
    → Links w t i c
    → look (suc l) w t v ≡ look l w c v
follow l t c i v w e k =
    let here = ap (cell t) e in
    look_present l t v w (ap is_present (ap w here) ∙ k.there)
    ∙ ap (λ x. look l w x v) (ap frame (ap w here) ∙ k.leads)

module _ (s : Vmm) (g : Shape) (v pt entry : ℕ) (tree : IsTree s g) (walk : Walk s g v pt) where
  abbrev pub written : Words
  written = update s.words (cell pt (index_at 0 v)) entry

  -- The write meets no entry of a table above.
  written_other :
      (u j : ℕ) → g.level u < 4 → g.level u ≢ 0 → j < 512 → written (cell u j) ≡ s.words (cell u j)
  written_other u j low up b =
      let apart : cell u j ≢ cell pt (index_at 0 v) = λ e.
        let same =
          cell_table pt u (index_at 0 v) j (tree.aligned pt (omega (arith, walk.pt_level)))
            (tree.aligned u low) (index_at-lt 0 v) b e in
        up (ap g.level same.0 ∙ walk.pt_level) in
      rw (ne→==-false (cell u j) (cell pt (index_at 0 v)) apart) refl

  written-Links :
      (t i c : ℕ)
      → g.level t < 4
      → g.level t ≢ 0
      → i < 512
      → Links s.words t i c
      → Links written t i c
  written-Links t i c low up b k =
      let e = written_other t i low up b in
      record { there = ap is_present e ∙ k.there; leads = ap frame e ∙ k.leads }

  written_same : (v' : ℕ) → page_of v' ≡ page_of v → look 3 written s.root v' ≡ entry
  written_same v' e =
      let a =
        written-Links s.root (index_at 3 v) walk.pdpt (omega (arith, tree.root_level))
          (omega (arith, tree.root_level)) (index_at-lt 3 v) walk.from_root in
      let b =
        written-Links walk.pdpt (index_at 2 v) walk.pd (omega (arith, walk.pdpt_level))
          (omega (arith, walk.pdpt_level)) (index_at-lt 2 v) walk.from_pdpt in
      let c =
        written-Links walk.pd (index_at 1 v) pt (omega (arith, walk.pd_level))
          (omega (arith, walk.pd_level)) (index_at-lt 1 v) walk.from_pd in
      let here = ap (cell pt) (page_index 0 v v' e) in
      let cell_here : written (cell pt (index_at 0 v)) ≡ entry =
        rw (eq→== (cell pt (index_at 0 v)) (cell pt (index_at 0 v)) refl) refl in
      follow 2 s.root walk.pdpt (index_at 3 v) v' written (page_index 3 v v' e) a
      ∙ follow 1 walk.pdpt walk.pd (index_at 2 v) v' written (page_index 2 v v' e) b
      ∙ follow 0 walk.pd pt (index_at 1 v) v' written (page_index 1 v v' e) c
      ∙ look_bottom written pt v'
      ∙ ap written here
      ∙ cell_here

  written_apart : (v' : ℕ) → page_of v' ≢ page_of v → look 3 written s.root v' ≡ entry_of s v'
  unfolding prefix_at
  written_apart v' ne =
      look_same s g tree written pt (index_at 0 v) 0 walk.pt_level (omega arith) (index_at-lt 0 v)
        (λ u j low b miss. rw (ne→==-false (cell u j) (cell pt (index_at 0 v)) miss) refl) v'
        (λ k p. absurd (ne (same_page v v' (p ∙ walk.pt_prefix) k))) 3 s.root (omega arith)
        tree.root_level tree.root_prefix

  -- An entry of a page table may be any value.
  pub written-IsTree : IsTree (record s { words = written }) g
  written-IsTree = record {
    root_level = tree.root_level;
    root_prefix = tree.root_prefix;
    aligned = tree.aligned;
    child = λ k u j b e inside here.
        let same = written_other u j (omega (arith, e)) (omega (arith, e)) inside in
        let next = tree.child k u j b e inside (sym (ap is_present same) ∙ here) in
        (ap (λ x. g.level (frame x)) same ∙ next.0, ap (λ x. g.prefix (frame x)) same ∙ next.1);
    fresh = tree.fresh;
    dma_aligned = tree.dma_aligned;
    offset_aligned = tree.offset_aligned;
    dma_placed = tree.dma_placed;
    dma_fits = tree.dma_fits;
  }

  -- What `translate` says after the write.
  pub written-translate :
      (v' : ℕ)
      → translate (record s { words = written }) v'
        ≡ (if page_of v' == page_of v then target entry v' else translate s v')
  written-translate v' = elim (Bool-cases (page_of v' == page_of v)) [
    | inl e ↦
        rw (e, translate_lem (record s { words = written }) v', written_same v' (==→eq _ _ e)) refl
    | inr ne ↦
        rw
          (
            ne,
            translate_lem (record s { words = written }) v',
            translate_lem s v',
            written_apart v' (==-false→ne _ _ ne),
          )
          refl
  ]

-- What a mapping says of the addresses of its page.
pub mapped_target :
    (phys flags v : ℕ)
    → phys % 4096 ≡ 0
    → flags < 4096
    → flags % 2 ≡ 1
    → target (bit_or phys flags) v ≡ phys + v % 4096
unfolding target is_present frame page_offset
mapped_target phys flags v h f odd =
    let joined = bit_or_page phys flags h f in
    let kept : (phys + flags) / 4096 * 4096 ≡ phys = omega (arith, h, f) in
    let one : ((phys + flags) % 2 == 1) ≡ true =
      eq→== ((phys + flags) % 2) 1 (omega (arith, h, odd)) in
    rw (joined, kept, one) (bit_or_page phys (v % 4096) h (omega arith))

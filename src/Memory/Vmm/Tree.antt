-- ===== src/Memory/Vmm/Tree.antt =====
-- The page tables as a tree: which table serves which part of the addresses, and where a walk ends.
use qaiosplus.Base.{
  ℕ, zero, suc, ◌+◌, ◌*◌, ◌/◌, ◌%◌, ◌^◌, ◌≤◌, ◌<◌, ◌≡◌, ◌≢◌, refl, ap, sym, ◌∙◌, true, false, arith,
  ◌==◌, if◌then◌else◌, bit_or, Bool-cases, inl, inr, ==→eq, ==-false→ne,
}
use qaiosplus.Memory.Vmm.{
  Vmm, Words, dma_size, cell, is_present, frame, pml4_index, pdpt_index, pd_index, pt_index,
  page_offset, next_table, find_pt, translate,
}

-- The index of an address in a table of a level, 3 for the root, and the addresses that such a table
-- serves: their bits above the index.
unfoldable pub index_at : ℕ → ℕ → ℕ
index_at zero v = pt_index v
index_at (suc zero) v = pd_index v
index_at (suc (suc zero)) v = pdpt_index v
index_at (suc (suc (suc l))) v = pml4_index v

unfoldable pub prefix_at : ℕ → ℕ → ℕ
prefix_at zero v = v / 2 ^ 21 % 2 ^ 27
prefix_at (suc zero) v = v / 2 ^ 30 % 2 ^ 18
prefix_at (suc (suc zero)) v = v / 2 ^ 39 % 512
prefix_at (suc (suc (suc l))) v = 0

-- The page of an address of 48 bits.
abbrev pub page_of : ℕ → ℕ
page_of v = v / 4096 % 2 ^ 36

pub index_at-lt : (l v : ℕ) → index_at l v < 512
unfolding index_at pt_index pd_index pdpt_index pml4_index
index_at-lt zero v = omega arith
index_at-lt (suc zero) v = omega arith
index_at-lt (suc (suc zero)) v = omega arith
index_at-lt (suc (suc (suc l))) v = omega arith

pub prefix_step : (l v : ℕ) → l < 3 → prefix_at (suc l) v * 512 + index_at (suc l) v ≡ prefix_at l v
unfolding index_at prefix_at pd_index pdpt_index pml4_index
prefix_step zero v h = omega arith
prefix_step (suc zero) v h = omega arith
prefix_step (suc (suc zero)) v h = omega arith
prefix_step (suc (suc (suc l))) v h = absurd (omega arith)

pub same_page :
    (v v' : ℕ)
    → prefix_at 0 v' ≡ prefix_at 0 v
    → index_at 0 v' ≡ index_at 0 v
    → page_of v' ≡ page_of v
unfolding index_at prefix_at pt_index
same_page v v' p i = omega (arith, p, i)

pub page_index : (l v v' : ℕ) → page_of v' ≡ page_of v → index_at l v' ≡ index_at l v
unfolding index_at pt_index pd_index pdpt_index pml4_index
page_index zero v v' e = omega (arith, e)
page_index (suc zero) v v' e = omega (arith, e)
page_index (suc (suc zero)) v v' e = omega (arith, e)
page_index (suc (suc (suc l))) v v' e = omega (arith, e)

-- Which addresses are tables (those of a level below 4), and what they serve.
pub record Shape : Type 0 where
  pub level : ℕ → ℕ
  pub prefix : ℕ → ℕ

pub record IsTree (s : Vmm) (g : Shape) : Type 0 where
  pub root_level : g.level s.root ≡ 3
  pub root_prefix : g.prefix s.root ≡ 0
  pub aligned : (t : ℕ) → g.level t < 4 → t % 4096 ≡ 0
  pub child :
      (l t i : ℕ)
      → l < 3
      → g.level t ≡ suc l
      → i < 512
      → is_present (s.words (cell t i)) ≡ true
      → (g.level (frame (s.words (cell t i))) ≡ l)
        × (g.prefix (frame (s.words (cell t i))) ≡ g.prefix t * 512 + i)
  pub fresh : (t : ℕ) → s.dma_base + s.dma_offset ≤ t → t < s.dma_base + dma_size → g.level t ≡ 4
  pub dma_aligned : s.dma_base % 4096 ≡ 0
  pub offset_aligned : s.dma_offset % 4096 ≡ 0
  pub dma_placed : 0 < s.dma_base
  pub dma_fits : s.dma_base + dma_size < 2 ^ 64

-- The entry that a walk from a table of a level ends at, 0 where an entry on the way is not present.
unfoldable pub look : ℕ → Words → ℕ → ℕ → ℕ
look zero w t v = w (cell t (index_at zero v))
look (suc l) w t v =
    let rest = look l w (frame (w (cell t (index_at (suc l) v)))) v in
    if is_present (w (cell t (index_at (suc l) v))) then rest else 0

pub absent_zero : is_present 0 ≡ false
unfolding is_present
absent_zero = refl

pub cell_table :
    (t u i j : ℕ)
    → t % 4096 ≡ 0
    → u % 4096 ≡ 0
    → i < 512
    → j < 512
    → cell u j ≡ cell t i
    → (u ≡ t) × (j ≡ i)
cell_table t u i j ht hu hi hj e = (omega arith, omega arith)

pub look_bottom : (w : Words) (t v : ℕ) → look zero w t v ≡ w (cell t (index_at zero v))
unfolding look
look_bottom w t v = refl

pub look_absent :
    (l t v : ℕ) (w : Words)
    → is_present (w (cell t (index_at (suc l) v))) ≡ false
    → look (suc l) w t v ≡ 0
unfolding look
look_absent l t v w h = rw h refl

pub look_present :
    (l t v : ℕ) (w : Words)
    → is_present (w (cell t (index_at (suc l) v))) ≡ true
    → look (suc l) w t v ≡ look l w (frame (w (cell t (index_at (suc l) v)))) v
unfolding look
look_present l t v w h = rw h refl

-- What an entry says of an address.
unfoldable pub target : ℕ → ℕ → ℕ
target entry v = if is_present entry then bit_or (frame entry) (page_offset v) else 0

pub target_zero : (v : ℕ) → target 0 v ≡ 0
unfolding target is_present
target_zero v = refl

abbrev pub entry_of : Vmm → ℕ → ℕ
entry_of s v = look 3 s.words s.root v

-- `translate` reads the entry that the walk ends at.
pub translate_lem : (s : Vmm) (v : ℕ) → translate s v ≡ target (entry_of s v) v
unfolding translate find_pt next_table look target index_at
translate_lem s v =
    let e3 = s.words (cell s.root (pml4_index v)) in
    let e2 = s.words (cell (frame e3) (pdpt_index v)) in
    let e1 = s.words (cell (frame e2) (pd_index v)) in
    elim (Bool-cases (is_present e3)) [
      | inr a ↦ rw (translate, find_pt, next_table, a, absent_zero) refl
      | inl a ↦ elim (Bool-cases (is_present e2)) [
        | inr b ↦ rw (translate, find_pt, next_table, a, b, absent_zero) refl
        | inl b ↦ elim (Bool-cases (is_present e1)) [
          | inr c ↦ rw (translate, find_pt, next_table, a, b, c, absent_zero) refl
          | inl c ↦ rw (translate, find_pt, next_table, a, b, c) refl
        ]
      ]
    ]

-- A memory that differs from the tree's at one entry, and leads from there to what the tree does,
-- leads to the same from everywhere.
module _ (s : Vmm) (g : Shape) (tree : IsTree s g) (w : Words) (t i top : ℕ)
    (at_top : g.level t ≡ top) (small : top < 4) (inside : i < 512)
    (others : (u j : ℕ)
      → g.level u < 4
      → j < 512
      → cell u j ≢ cell t i
      → w (cell u j) ≡ s.words (cell u j))
    (v : ℕ)
    (there : index_at top v ≡ i
      → prefix_at top v ≡ g.prefix t
      → look top w t v ≡ look top s.words t v) where
  look_hit :
      (l u : ℕ)
      → g.level u ≡ l
      → l < 4
      → g.prefix u ≡ prefix_at l v
      → cell u (index_at l v) ≡ cell t i
      → look l w u v ≡ look l s.words u v
  look_hit l u e h p hit =
      let (a, b) =
        cell_table t u i (index_at l v) (tree.aligned t (omega (arith, at_top)))
          (tree.aligned u (omega (arith, e))) inside (index_at-lt l v) hit in
      let same : l ≡ top = sym e ∙ ap g.level a ∙ at_top in
      rw (same, a)
        (there (ap (λ x. index_at x v) (sym same) ∙ b)
          (ap (λ x. prefix_at x v) (sym same) ∙ sym p ∙ ap g.prefix a))

  pub look_same :
      (l u : ℕ)
      → l < 4
      → g.level u ≡ l
      → g.prefix u ≡ prefix_at l v
      → look l w u v ≡ look l s.words u v
  look_same zero u h e p = elim (Bool-cases (cell u (index_at zero v) == cell t i)) [
    | inl hit ↦ look_hit zero u e h p (==→eq _ _ hit)
    | inr miss ↦
        rw (look_bottom w u v, look_bottom s.words u v)
          (others u (index_at zero v) (omega (arith, e)) (index_at-lt zero v)
            (==-false→ne _ _ miss))
  ]
  look_same (suc l) u h e p = elim (Bool-cases (cell u (index_at (suc l) v) == cell t i)) [
    | inl hit ↦ look_hit (suc l) u e h p (==→eq _ _ hit)
    | inr miss ↦
        let j = index_at (suc l) v in
        let kept = others u j (omega (arith, e)) (index_at-lt (suc l) v) (==-false→ne _ _ miss) in
        elim (Bool-cases (is_present (s.words (cell u j)))) [
          | inl here ↦
              let next = tree.child l u j (omega arith) e (index_at-lt (suc l) v) here in
              let step = prefix_step l v (omega arith) in
              rw (look_present l u v w (rw kept here), look_present l u v s.words here, kept)
                (look_same l (frame (s.words (cell u j))) (omega arith) next.0
                  (omega (arith, next.1, p, step)))
          | inr gone ↦ rw (look_absent l u v w (rw kept gone), look_absent l u v s.words gone) refl
        ]
  ]

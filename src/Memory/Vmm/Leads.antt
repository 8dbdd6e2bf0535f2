-- ===== src/Memory/Vmm/Leads.antt =====
-- A step down the page tables of QKMemory/src/QKMemVMM.cpp: what it leaves, and a page of zeros.
use qaiosplus.Base.{
  ℕ, zero, suc, ◌+◌, ◌*◌, ◌%◌, ◌≤◌, ◌<◌, ◌≡◌, ◌≢◌, refl, true, ◌&&◌, arith, ltb, leb, bit_or,
  bit_or_page, Bool-cases, inl, inr,
}
use qaiosplus.Memory.Vmm.{Vmm, Words, cell, is_present, frame, zero_page}
use qaiosplus.Memory.Vmm.Tree.{
  Shape, IsTree, index_at, index_at-lt, look, look_bottom, look_absent, absent_zero, entry_of,
}

-- What a step down from entry `i` of the table `t` leaves: the table `c` one level below, in a tree
-- where every walk ends as before.
pub record Leads (s : Vmm) (g : Shape) (t i l : ℕ) (s' : Vmm) (c : ℕ) : Type 0 where
  pub shape : Shape
  pub tree : IsTree s' shape
  pub child_level : shape.level c ≡ l
  pub child_prefix : shape.prefix c ≡ g.prefix t * 512 + i
  pub linked : is_present (s'.words (cell t i)) ≡ true
  pub leads : frame (s'.words (cell t i)) ≡ c
  pub level_kept : (u : ℕ) → g.level u < 4 → shape.level u ≡ g.level u
  pub prefix_kept : (u : ℕ) → g.level u < 4 → shape.prefix u ≡ g.prefix u
  pub others :
      (u j : ℕ)
      → g.level u < 4
      → j < 512
      → cell u j ≢ cell t i
      → s'.words (cell u j) ≡ s.words (cell u j)
  pub root_kept : s'.root ≡ s.root
  pub one_page : s'.dma_offset ≤ s.dma_offset + 4096
  pub ends : (v : ℕ) → entry_of s' v ≡ entry_of s v

pub found_Leads :
    (s : Vmm) (g : Shape) (t i l : ℕ)
    → IsTree s g
    → g.level t ≡ suc l
    → l < 3
    → i < 512
    → is_present (s.words (cell t i)) ≡ true
    → Leads s g t i l s (frame (s.words (cell t i)))
found_Leads s g t i l tree at small inside here =
    let next = tree.child l t i small at inside here in
    record {
      shape = g;
      tree = tree;
      child_level = next.0;
      child_prefix = next.1;
      linked = here;
      leads = refl;
      level_kept = λ u h. refl;
      prefix_kept = λ u h. refl;
      others = λ u j h b ne. refl;
      root_kept = refl;
      one_page = omega arith;
      ends = λ v. refl;
    }

pub present_entry :
    (p : ℕ) → p % 4096 ≡ 0 → (is_present (bit_or p 3) ≡ true) × (frame (bit_or p 3) ≡ p)
unfolding is_present frame
present_entry p h =
    let e = bit_or_page p 3 h (omega arith) in (rw e (ground (arith, h)), rw e (omega (arith, h)))

pub zero_page_inside : (w : Words) (p j : ℕ) → j < 512 → zero_page w p (cell p j) ≡ 0
unfolding zero_page
zero_page_inside w p j h = ground arith

pub zero_page_outside :
    (w : Words) (p u j : ℕ)
    → p % 4096 ≡ 0
    → u % 4096 ≡ 0
    → u ≢ p
    → j < 512
    → zero_page w p (cell u j) ≡ w (cell u j)
unfolding zero_page
zero_page_outside w p u j hp hu ne h =
    elim (Bool-cases (leb p (cell u j) && ltb (cell u j) (p + 4096))) [
      | inl t ↦
          let a : p ≤ cell u j = ground (arith, t) in
          let b : cell u j < p + 4096 = ground (arith, t) in absurd (ne (omega arith))
      | inr t ↦ rw t refl
    ]

pub look_empty : (l t v : ℕ) (w : Words) → ((j : ℕ) → j < 512 → w (cell t j) ≡ 0) → look l w t v ≡ 0
look_empty zero t v w h = rw (look_bottom w t v) (h (index_at 0 v) (index_at-lt 0 v))
look_empty (suc l) t v w h =
    let zeroed = h (index_at (suc l) v) (index_at-lt (suc l) v) in
    look_absent l t v w (rw zeroed absent_zero)

-- ===== src/Memory/Vmm/Refine.antt =====
-- `map` and `unmap` of QKMemory/src/QKMemVMM.cpp as updates of what `translate` says.
use qaiosplus.Base.{
  ℕ, ◌+◌, ◌*◌, ◌%◌, ◌≤◌, ◌<◌, ◌≡◌, ◌⊎◌, refl, ap, ◌∙◌, true, ◌&&◌, Option, arith, ◌==◌,
  if◌then◌else◌, update, bit_or, inl, inr,
}
use qaiosplus.Memory.Vmm.{
  Vmm, Status, success, out_of_memory, is_success, dma_size, cell, set_entry, map_in_pd,
  map_in_pdpt, map_in_pml4, map, translate,
}
use qaiosplus.Memory.Vmm.Tree.{
  Shape, IsTree, index_at, index_at-lt, page_of, entry_of, translate_lem,
}
use qaiosplus.Memory.Vmm.Map.{Walk, written-IsTree, written-translate, mapped_target}
use qaiosplus.Memory.Vmm.Create.{get_or_create_table_cases}
use qaiosplus.Memory.Vmm.Steps.{three_steps}

-- Where a call of `map` ends: without room for a table, or at the page table of the address. Every
-- walk ends as before.
pub record Ends (s s' : Vmm) : Type 0 where
  pub shape : Shape
  pub tree : IsTree s' shape
  pub same : (v : ℕ) → translate s' v ≡ translate s v

pub record Fails (s : Vmm) (v phys flags : ℕ) : Type 0 where
  pub after : Vmm
  pub ends : Ends s after
  pub result : map s v phys flags ≡ (after, out_of_memory)
  pub full : dma_size < s.dma_offset + 3 * 4096

pub record Reaches (s : Vmm) (v phys flags : ℕ) : Type 0 where
  pub after : Vmm
  pub pt : ℕ
  pub ends : Ends s after
  pub walk : Walk after ends.shape v pt
  pub result : map s v phys flags ≡ (
    record after { words = update after.words (cell pt (index_at 0 v)) (bit_or phys flags) },
    success,
  )

same_ends : (s s' : Vmm) (v : ℕ) → entry_of s' v ≡ entry_of s v → translate s' v ≡ translate s v
same_ends s s' v e = rw (translate_lem s' v, translate_lem s v, e) refl

pub map_cases :
    (s : Vmm) (g : Shape) (v phys flags : ℕ)
    → IsTree s g
    → Fails s v phys flags ⊎ Reaches s v phys flags
unfolding map map_in_pml4 map_in_pdpt map_in_pd set_entry index_at
map_cases s g v phys flags tree =
    let pml4_step : Vmm × Option ℕ → Vmm × Status = λ r. map_in_pml4 r v phys flags in
    let pdpt_step : Vmm × Option ℕ → Vmm × Status = λ r. map_in_pdpt r v phys flags in
    let pd_step : Vmm × Option ℕ → Vmm × Status = λ r. map_in_pd r v phys flags in
    elim (get_or_create_table_cases s g s.root (index_at 3 v) 2 tree tree.root_level (omega arith)
      (index_at-lt 3 v)) [
        | inl (none1, full) ↦ inl (record {
          after = s;
          ends = record { shape = g; tree = tree; same = λ v'. refl };
          result = ap pml4_step none1;
          full = omega (arith, full);
        })
        | inr (s1, c1, some1, first) ↦
            elim (get_or_create_table_cases s1 first.shape c1 (index_at 2 v) 1 first.tree
              first.child_level (omega arith) (index_at-lt 2 v)) [
                | inl (none2, full) ↦ inl (record {
                  after = s1;
                  ends = record {
                    shape = first.shape;
                    tree = first.tree;
                    same = λ v'. same_ends s s1 v' (first.ends v');
                  };
                  result = ap pml4_step some1 ∙ ap pdpt_step none2;
                  full = omega (arith, full, first.one_page);
                })
                | inr (s2, c2, some2, second) ↦
                    elim (get_or_create_table_cases s2 second.shape c2 (index_at 1 v) 0 second.tree
                      second.child_level (omega arith) (index_at-lt 1 v)) [
                        | inl (none3, full) ↦ inl (record {
                          after = s2;
                          ends = record {
                            shape = second.shape;
                            tree = second.tree;
                            same = λ v'. same_ends s s2 v' (second.ends v' ∙ first.ends v');
                          };
                          result = ap pml4_step some1 ∙ ap pdpt_step some2 ∙ ap pd_step none3;
                          full = omega (arith, full, first.one_page, second.one_page);
                        })
                        | inr (s3, c3, some3, third) ↦ inr (record {
                          after = s3;
                          pt = c3;
                          ends = record {
                            shape = third.shape;
                            tree = third.tree;
                            same = λ v'.
                                same_ends s s3 v' (third.ends v' ∙ second.ends v' ∙ first.ends v');
                          };
                          walk = three_steps s s1 s2 s3 g tree v c1 c2 c3 first second third;
                          result = ap pml4_step some1 ∙ ap pdpt_step some2 ∙ ap pd_step some3;
                        })
                      ]
              ]
      ]

-- Where the page tables form a tree, a page is mapped to the address of a frame with flags below
-- 4096, Present among them: afterwards `translate` says, for the addresses of that page, the
-- address in the frame, and for every other address what it said before; when `map` is out of
-- memory it says what it said before for all. The tables keep being a tree.
pub map_refines :
    (s : Vmm) (g : Shape) (v phys flags : ℕ)
    → IsTree s g
    → phys % 4096 ≡ 0
    → flags < 4096
    → flags % 2 ≡ 1
    → ((g' : Shape) × IsTree (map s v phys flags).0 g')
      × ((v' : ℕ)
          → translate (map s v phys flags).0 v' ≡ (
              if is_success (map s v phys flags).1 && (page_of v' == page_of v)
              then phys + v' % 4096
              else translate s v'))
unfolding is_success
map_refines s g v phys flags tree aligned small odd = elim (map_cases s g v phys flags tree) [
  | inl fails ↦ rw fails.result ((fails.ends.shape, fails.ends.tree), fails.ends.same)
  | inr reaches ↦
      let s' = reaches.after in
      let g' = reaches.ends.shape in
      let entry = bit_or phys flags in
      rw reaches.result (
        (g', written-IsTree s' g' v reaches.pt entry reaches.ends.tree reaches.walk),
        λ v'.
            rw
              (
                written-translate s' g' v reaches.pt entry reaches.ends.tree reaches.walk v',
                mapped_target phys flags v' aligned small odd,
                reaches.ends.same v',
              )
              refl,
      )
]

-- Where the page tables form a tree and the buffer has room for three pages, mapping a page
-- succeeds.
pub map_room :
    (s : Vmm) (g : Shape) (v phys flags : ℕ)
    → IsTree s g
    → s.dma_offset + 3 * 4096 ≤ dma_size
    → is_success (map s v phys flags).1 ≡ true
unfolding is_success
map_room s g v phys flags tree room = elim (map_cases s g v phys flags tree) [
  | inl fails ↦ absurd (omega (arith, room, fails.full))
  | inr reaches ↦ rw reaches.result refl
]

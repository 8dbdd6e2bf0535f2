-- ===== src/Memory/Vmm/Space.antt =====
-- The address spaces that `createAddressSpace` of QKMemory/src/QKMemVMM.cpp makes.
use qaiosplus.Base.{
  ℕ, zero, suc, ◌+◌, ◌%◌, ◌≤◌, ◌<◌, ◌≡◌, ◌≢◌, refl, sym, ◌∙◌, ◌&&◌, arith, ltb, leb, ◌==◌,
  if◌then◌else◌, update, Bool-cases, inl, inr, ==→eq, ==-false→ne, eq→==, ne→==-false, lt→ltb,
}
use qaiosplus.Memory.Pmm.{allocate_page}
use qaiosplus.Memory.Pmm.Single.{allocate_page_aligned}
use qaiosplus.Memory.Vmm.{
  Vmm, Words, cell, zero_page, pml4_index, next_table, find_pt, translate, copy_entries,
  create_address_space, switch_address_space,
}
use qaiosplus.Memory.Vmm.Tree.{cell_table, absent_zero, index_at, index_at-lt}
use qaiosplus.Memory.Vmm.Leads.{zero_page_inside}

-- The copy changes the entries of `to` that it reaches, and no entry of `from`.
copy_entries_lem :
    (n i j : ℕ) (w : Words) (from to : ℕ)
    → from % 4096 ≡ 0
    → to % 4096 ≡ 0
    → from ≢ to
    → i + n ≤ 512
    → j < 512
    → (copy_entries n i w from to (cell from j) ≡ w (cell from j))
      × (copy_entries n i w from to (cell to j)
          ≡ (if leb i j && ltb j (i + n) then w (cell from j) else w (cell to j)))
unfolding copy_entries
copy_entries_lem zero i j w from to hf ht ne top b = (refl, ground arith)
copy_entries_lem (suc n) i j w from to hf ht ne top b =
    let w' = update w (cell to i) (w (cell from i)) in
    let rest = copy_entries_lem n (i + 1) j w' from to hf ht ne (omega (arith, top)) b in
    let kept : w' (cell from j) ≡ w (cell from j) =
      rw
        (ne→==-false (cell from j) (cell to i)
          (λ e. ne (cell_table to from i j ht hf (omega (arith, top)) b e).0))
        refl in
    let written : w' (cell to j) ≡ (if j == i then w (cell from j) else w (cell to j)) =
      elim (Bool-cases (j == i)) [
        | inl e ↦ rw (e, ==→eq j i e, eq→== (cell to i) (cell to i) refl) refl
        | inr d ↦
            let off = ==-false→ne j i d in
            rw (d, ne→==-false (cell to j) (cell to i) (omega (arith, off))) refl
      ] in
    (rest.0 ∙ kept, rw (rest.1, kept, written) (ground arith))

-- Two roots whose entries for an address are equal translate it alike; an entry 0 leads to 0.
same_entry :
    (s : Vmm) (a b v : ℕ)
    → s.words (cell a (pml4_index v)) ≡ s.words (cell b (pml4_index v))
    → translate (record s { root = a }) v ≡ translate (record s { root = b }) v
unfolding translate find_pt next_table
same_entry s a b v e = rw (translate, find_pt, next_table, e) refl

zero_entry :
    (s : Vmm) (a v : ℕ)
    → s.words (cell a (pml4_index v)) ≡ 0
    → translate (record s { root = a }) v ≡ 0
unfolding translate find_pt next_table
zero_entry s a v e = rw (translate, find_pt, next_table, e, absent_zero) refl

-- After `createAddressSpace` the new address space shares the upper half of the addresses with the
-- kernel's, and has nothing in the lower half, when the kernel's table begins at a page, a page
-- could be allocated and it is not the kernel's table.
pub create_address_space_halves :
    (s : Vmm) (v : ℕ)
    → s.kernel_root % 4096 ≡ 0
    → (allocate_page s.pmm).1 ≢ 0
    → (allocate_page s.pmm).1 ≢ s.kernel_root
    → translate (switch_address_space (create_address_space s).0 (create_address_space s).1) v ≡ (
        if leb 256 (pml4_index v)
        then translate (switch_address_space (create_address_space s).0 s.kernel_root) v
        else 0)
unfolding create_address_space pml4_index index_at
create_address_space_halves s v hk some_page apart =
    let (pmm, page) = allocate_page s.pmm in
    let i = pml4_index v in
    let after : Vmm = record s {
      pmm = pmm;
      words = copy_entries 256 256 (zero_page s.words page) s.kernel_root page;
    } in
    let result : create_address_space s ≡ (after, page) =
      rw (create_address_space, ne→==-false page 0 some_page) refl in
    let copied =
      copy_entries_lem 256 256 i (zero_page s.words page) s.kernel_root page hk
        (allocate_page_aligned s.pmm) (λ e. apart (sym e)) (omega arith) (index_at-lt 3 v) in
    let zeroed = zero_page_inside s.words page i (index_at-lt 3 v) in
    let inside = lt→ltb (pml4_index v) 512 (index_at-lt 3 v) in
    elim (Bool-cases (leb 256 i)) [
      | inl upper ↦
          rw (result, upper)
            (same_entry after page s.kernel_root v (rw (copied.1, copied.0, upper, inside) refl))
      | inr lower ↦ rw (result, lower) (zero_entry after page v (rw (copied.1, lower) zeroed))
    ]

-- ===== src/Memory/Vmm/Steps.antt =====
-- Three steps down the page tables, from the root to the page table of an address, as `map` of
-- QKMemory/src/QKMemVMM.cpp takes them.
use qaiosplus.Base.{ℕ, ◌<◌, ◌≡◌, ◌≢◌, refl, ap, ◌∙◌, arith}
use qaiosplus.Memory.Vmm.{Vmm, cell, is_present, frame}
use qaiosplus.Memory.Vmm.Tree.{
  Shape, IsTree, index_at, index_at-lt, prefix_at, prefix_step, cell_table,
}
use qaiosplus.Memory.Vmm.Leads.{Leads}
use qaiosplus.Memory.Vmm.Map.{Links, Walk}

-- A step down from one table keeps the entries of the tables of another level.
keep_Links :
    (s s' : Vmm) (g : Shape) (t i l c u j d : ℕ)
    → IsTree s g
    → Leads s g t i l s' c
    → g.level t < 4
    → g.level u < 4
    → g.level u ≢ g.level t
    → i < 512
    → j < 512
    → Links s.words u j d
    → Links s'.words u j d
keep_Links s s' g t i l c u j d tree step low low' ne b b' link =
    let apart : cell u j ≢ cell t i = λ e.
      ne (ap g.level (cell_table t u i j (tree.aligned t low) (tree.aligned u low') b b' e).0) in
    let same = step.others u j low' b' apart in
    record { there = ap is_present same ∙ link.there; leads = ap frame same ∙ link.leads }

pub prefix_top : (v : ℕ) → prefix_at 3 v ≡ 0
unfolding prefix_at
prefix_top v = refl

module _ (s s1 s2 s3 : Vmm) (g : Shape) (tree : IsTree s g) (v c1 c2 c3 : ℕ)
    (first : Leads s g s.root (index_at 3 v) 2 s1 c1)
    (second : Leads s1 first.shape c1 (index_at 2 v) 1 s2 c2)
    (third : Leads s2 second.shape c2 (index_at 1 v) 0 s3 c3) where
  abbrev level_of : ℕ → ℕ
  level_of = third.shape.level

  root_link : Links s3.words s3.root (index_at 3 v) c1
  root_link =
      let root1 : first.shape.level s.root ≡ 3 =
        first.level_kept s.root (omega (arith, tree.root_level)) ∙ tree.root_level in
      let root2 : second.shape.level s.root ≡ 3 =
        second.level_kept s.root (omega (arith, root1)) ∙ root1 in
      let link1 : Links s1.words s.root (index_at 3 v) c1 = record {
        there = first.linked;
        leads = first.leads;
      } in
      let link2 =
        keep_Links s1 s2 first.shape c1 (index_at 2 v) 1 c2 s.root (index_at 3 v) c1 first.tree
          second (omega (arith, first.child_level)) (omega (arith, root1))
          (omega (arith, root1, first.child_level)) (index_at-lt 2 v) (index_at-lt 3 v) link1 in
      let link3 =
        keep_Links s2 s3 second.shape c2 (index_at 1 v) 0 c3 s.root (index_at 3 v) c1 second.tree
          third (omega (arith, second.child_level)) (omega (arith, root2))
          (omega (arith, root2, second.child_level)) (index_at-lt 1 v) (index_at-lt 3 v) link2 in
      rw (third.root_kept, second.root_kept, first.root_kept) link3

  pdpt_link : Links s3.words c1 (index_at 2 v) c2
  pdpt_link =
      let level2 : second.shape.level c1 ≡ 2 =
        second.level_kept c1 (omega (arith, first.child_level)) ∙ first.child_level in
      keep_Links s2 s3 second.shape c2 (index_at 1 v) 0 c3 c1 (index_at 2 v) c2 second.tree third
        (omega (arith, second.child_level)) (omega (arith, level2))
        (omega (arith, level2, second.child_level)) (index_at-lt 1 v) (index_at-lt 2 v)
        (record { there = second.linked; leads = second.leads })

  pub three_steps : Walk s3 third.shape v c3
  three_steps =
      let level2 : second.shape.level c1 ≡ 2 =
        second.level_kept c1 (omega (arith, first.child_level)) ∙ first.child_level in
      let prefix2 : first.shape.prefix c1 ≡ prefix_at 2 v = omega (
        arith,
        first.child_prefix,
        tree.root_prefix,
        prefix_step 2 v (omega arith),
        prefix_top v,
      ) in
      let prefix1 : second.shape.prefix c2 ≡ prefix_at 1 v =
        omega (arith, second.child_prefix, prefix2, prefix_step 1 v (omega arith)) in
      record {
        pdpt = c1;
        pd = c2;
        from_root = root_link;
        from_pdpt = pdpt_link;
        from_pd = record { there = third.linked; leads = third.leads };
        pdpt_level = third.level_kept c1 (omega (arith, level2)) ∙ level2;
        pd_level = third.level_kept c2 (omega (arith, second.child_level)) ∙ second.child_level;
        pt_level = third.child_level;
        pt_prefix = omega (arith, third.child_prefix, prefix1, prefix_step 0 v (omega arith));
      }

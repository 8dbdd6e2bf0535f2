-- ===== src/Memory/Heap/Run.antt =====
-- Any sequence of calls of the heap, from `initialize` on.
use qaiosplus.Base.{
  ℕ, ◌+◌, ◌^◌, ◌≤◌, ◌<◌, ◌≡◌, ap, subst, false, List, [], ◌∷◌, Option, none, some, Option-cases,
  inl, inr,
}
use qaiosplus.Memory.Heap.{
  Heap, header_size, initialize, is_initialized, allocate, free, reallocate,
}
use qaiosplus.Memory.Heap.Tiles.{IsValid, initialize-IsValid}
use qaiosplus.Memory.Heap.Allocate.{allocate-IsValid}
use qaiosplus.Memory.Heap.Free.{free-IsValid}
use qaiosplus.Memory.Heap.Reallocate.{reallocate-IsValid}

pub data Call : Type 0 where
  allocates frees : ℕ → Call
  reallocates : ℕ → ℕ → Call

-- `none` when a call is given a pointer that names no block.
unfoldable pub call : Heap → Call → Option Heap
call h (allocates size) = some (allocate h size).0
call h (frees ptr) = free h ptr
call h (reallocates ptr size) = elim (reallocate h ptr size) [
  | none ↦ none
  | some (h', p) ↦ some h'
]

unfoldable pub run : Option Heap → List Call → Option Heap
run h [] = h
run none (c ∷ calls) = none
run (some h) (c ∷ calls) = run (call h c) calls

some-inj : {h k : Heap} → some h ≡ some k → h ≡ k
some-inj {h} e = ap (λ o. elim o [ none ↦ h | some x ↦ x ]) e

call-IsValid : (h k : Heap) (c : Call) → IsValid h → call h c ≡ some k → IsValid k
unfolding call
call-IsValid h k (allocates size) v e = subst IsValid (some-inj e) (allocate-IsValid h size v)
call-IsValid h k (frees ptr) v e = free-IsValid h ptr k v e
call-IsValid h k (reallocates ptr size) v e = elim (Option-cases (reallocate h ptr size)) [
  | inl o ↦ let bad : none ≡ some k = rw (call, o) at e in absurd (cc bad)
  | inr ((h', p), o) ↦
      let same : h' ≡ k = some-inj (rw (call, o) at e) in
      subst IsValid same (reallocate-IsValid h h' ptr size p v o)
]

run-IsValid : (calls : List Call) (h k : Heap) → IsValid h → run (some h) calls ≡ some k → IsValid k
unfolding run
run-IsValid [] h k v e = subst IsValid (some-inj e) v
run-IsValid (c ∷ calls) h k v e = elim (Option-cases (call h c)) [
  | inl o ↦ let bad : run none calls ≡ some k = rw o at e in absurd (run_none calls k bad)
  | inr (h', o) ↦ run-IsValid calls h' k (call-IsValid h h' c v o) (rw o at e)
]
  where
    run_none : (calls : List Call) (k : Heap) → run none calls ≡ some k → ⊥
    run_none [] k e = absurd (cc e)
    run_none (c ∷ calls) k e = absurd (cc e)

-- A heap that was initialized on an arena that begins at 32 or above and ends below 2 ^ 64 keeps its
-- invariant under any sequence of calls whose pointers name blocks: the blocks cover the arena without
-- gaps or overlap, the counter of allocations is the number of blocks in use, and the counter of bytes
-- is what these take with their headers, and one header more.
pub run-initialize-IsValid :
    (h k : Heap) (base size : ℕ) (calls : List Call)
    → is_initialized h ≡ false
    → header_size ≤ base
    → header_size < size
    → base + size < 2 ^ 64
    → run (some (initialize h base size)) calls ≡ some k
    → IsValid k
run-initialize-IsValid h k base size calls fresh placed room fits e =
    run-IsValid calls (initialize h base size) k
      (initialize-IsValid h base size fresh placed room fits).0 e

-- ===== src/Event/Queue/Order.antt =====
-- What `push` promises: the list with the event put behind all events of its priority or above.
use qaiosplus.Base.{
  ℕ, zero, suc, ◌≤◌, ◌<◌, ◌≡◌, refl, ap, sym, Bool, true, false, ◌&&◌, List, [], ◌∷◌, ◌++◌, arith,
  ltb, leb, ◌==◌, if◌then◌else◌, tabulate, tabulate_ext, Bool-cases, inl, inr, ◌⊎◌,
}
use qaiosplus.Event.{Event}

abbrev pub is_lower : Event → Event → Bool
is_lower e x = ltb x.priority e.priority

unfoldable pub insert_by : Event → List Event → List Event
insert_by e [] = e ∷ []
insert_by e (x ∷ xs) = if is_lower e x then e ∷ x ∷ xs else x ∷ insert_by e xs

-- The abstract `push`.
unfoldable pub enqueue : Event → List Event → List Event
enqueue e xs = if leb e.priority 1 then xs ++ (e ∷ []) else insert_by e xs

-- What the queue sorts by: priorities above `Normal` count, the others are one class.
abbrev pub rank : Event → ℕ
rank e = if leb e.priority 1 then 1 else e.priority

abbrev pub at_most : ℕ → List Event → Bool
at_most n [] = true
at_most n (x ∷ xs) = leb (rank x) n

unfoldable pub sorted : List Event → Bool
sorted [] = true
sorted (x ∷ xs) = at_most (rank x) xs && sorted xs

insert_by-at_most :
    (n : ℕ) (e : Event) (xs : List Event)
    → at_most n xs ≡ true
    → rank e ≤ n
    → at_most n (insert_by e xs) ≡ true
unfolding insert_by
insert_by-at_most n e [] h l = ground arith
insert_by-at_most n e (x ∷ xs) h l = ground arith

insert_by-sorted :
    (e : Event) (xs : List Event)
    → 1 < e.priority
    → sorted xs ≡ true
    → sorted (insert_by e xs) ≡ true
unfolding insert_by sorted
insert_by-sorted e [] h s = ground arith
insert_by-sorted e (x ∷ xs) h s =
    ground (arith, insert_by-sorted e xs h, insert_by-at_most (rank x) e xs)

append-at_most :
    (n : ℕ) (e : Event) (xs : List Event)
    → at_most n xs ≡ true
    → rank e ≤ n
    → at_most n (xs ++ (e ∷ [])) ≡ true
append-at_most n e [] h l = ground arith
append-at_most n e (x ∷ xs) h l = h

rank-positive : (e : Event) → 1 ≤ rank e
rank-positive e = ground arith

append-sorted :
    (e : Event) (xs : List Event)
    → e.priority ≤ 1
    → sorted xs ≡ true
    → sorted (xs ++ (e ∷ [])) ≡ true
unfolding sorted
append-sorted e [] h s = ground arith
append-sorted e (x ∷ xs) h s =
    ground (arith, append-sorted e xs h, append-at_most (rank x) e xs, rank-positive x)

-- Pushing keeps the list in order of rank, the highest first.
pub enqueue-sorted : (e : Event) (xs : List Event) → sorted xs ≡ true → sorted (enqueue e xs) ≡ true
unfolding enqueue
enqueue-sorted e xs s = elim (Bool-cases (leb e.priority 1)) [
  | inl l ↦ rw l (append-sorted e xs (ground arith) s)
  | inr l ↦ rw l (insert_by-sorted e xs (ground arith) s)
]

-- The events of one rank, in order.
pub of_rank : ℕ → List Event → List Event
of_rank n [] = []
of_rank n (x ∷ xs) = if rank x == n then x ∷ of_rank n xs else of_rank n xs

of_rank_above :
    (n m : ℕ) (xs : List Event) → m < n → at_most m xs ≡ true → sorted xs ≡ true → of_rank n xs ≡ []
unfolding of_rank sorted
of_rank_above n m [] l h s = refl
of_rank_above n m (x ∷ xs) l h s = ground (arith, of_rank_above n (rank x) xs)

insert_by-of_rank :
    (n : ℕ) (e : Event) (xs : List Event)
    → 1 < e.priority
    → sorted xs ≡ true
    → of_rank n (insert_by e xs) ≡ (if rank e == n then of_rank n xs ++ (e ∷ []) else of_rank n xs)
unfolding insert_by sorted of_rank
insert_by-of_rank n e [] h s = ground arith
insert_by-of_rank n e (x ∷ xs) h s =
    ground (arith, of_rank_above n (rank x) xs, insert_by-of_rank n e xs h)

append-of_rank :
    (n : ℕ) (e : Event) (xs : List Event)
    → of_rank n (xs ++ (e ∷ [])) ≡ (if rank e == n then of_rank n xs ++ (e ∷ []) else of_rank n xs)
unfolding of_rank
append-of_rank n e [] = ground arith
append-of_rank n e (x ∷ xs) = ground (arith, append-of_rank n e xs)

-- Pushing onto a list in order puts the event last of its rank, and keeps the others of each rank in
-- their order.
pub enqueue-of_rank :
    (n : ℕ) (e : Event) (xs : List Event)
    → sorted xs ≡ true
    → of_rank n (enqueue e xs) ≡ (if rank e == n then of_rank n xs ++ (e ∷ []) else of_rank n xs)
unfolding enqueue
enqueue-of_rank n e xs s = elim (Bool-cases (leb e.priority 1)) [
  | inl l ↦ ground (arith, append-of_rank n e xs)
  | inr l ↦ ground (arith, insert_by-of_rank n e xs)
]

-- Inserting into the list of a table shifts the rest of the table by one.
pub insert_by-tabulate :
    (k n : ℕ) (g g' : ℕ → Event) (e : Event)
    → k ≤ n
    → ((i : ℕ) → i < k → is_lower e (g i) ≡ false)
    → ((k ≡ n) ⊎ (is_lower e (g k) ≡ true))
    → ((i : ℕ) → i < k → g' i ≡ g i)
    → g' k ≡ e
    → ((i : ℕ) → k ≤ i → i < n → g' (suc i) ≡ g i)
    → insert_by e (tabulate g n) ≡ tabulate g' (suc n)
unfolding insert_by
insert_by-tabulate zero zero g g' e l below here left mid right = ap (λ x. x ∷ []) (sym mid)
insert_by-tabulate zero (suc n) g g' e l below here left mid right =
    let low : is_lower e (g 0) ≡ true = ground arith in
    rw (low, mid)
      (ap (λ r. e ∷ r)
        (tabulate_ext g (λ i. g' (suc i)) (suc n) (λ i h. sym (right i (omega arith) h))))
insert_by-tabulate (suc k) zero g g' e l below here left mid right = absurd (omega arith)
insert_by-tabulate (suc k) (suc n) g g' e l below here left mid right =
    let high = below 0 (omega arith) in
    rw (high, left 0 (omega arith))
      (ap (λ r. g 0 ∷ r)
        (insert_by-tabulate k n (λ i. g (suc i)) (λ i. g' (suc i)) e (omega arith)
          (λ i h. below (suc i) (omega arith)) (ground arith) (λ i h. left (suc i) (omega arith))
          mid (λ i a h. right (suc i) (omega arith) (omega arith))))

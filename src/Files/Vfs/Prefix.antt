-- ===== src/Files/Vfs/Prefix.antt =====
-- Which paths a mount point covers.
use qaiosplus.Base.{
  ◌-◌, ◌<◌, ◌≡◌, ◌⊎◌, ◌↔◌, refl, ap, ap₂, sym, true, [], ◌∷◌, ◌++◌, ◌==◌, length, get_or, lower,
  lower_text, head, drop, Bool-cases, inl, inr, ==→eq, eq→==, arith,
}
use mathlib.Core.List.{head-eq_of_cons-eq, tail-eq_of_cons-eq, nil≢cons}
use qaiosplus.Files.Vfs.{Text, starts_with_ignore_case, is_mount_prefix}

-- A path below a mount point: its front is the mount point but for case, and what is left begins
-- with '/' or is empty, unless the mount point itself ends with '/'.
pub record Covers (path mount : Text) : Type 0 where
  pub front : Text
  pub rest : Text
  pub split : path ≡ front ++ rest
  pub same : lower_text front ≡ lower_text mount
  pub some_mount : 0 < length mount
  pub boundary : (get_or mount (length mount - 1) 0 ≡ 47) ⊎ (head rest ≡ 0) ⊎ (head rest ≡ 47)

starts_split :
    (path mount : Text)
    → starts_with_ignore_case path mount ≡ true
    → (front : Text) × (path ≡ front ++ drop (length mount) path)
      × (lower_text front ≡ lower_text mount)
unfolding starts_with_ignore_case lower_text
starts_split path [] h = ([], refl, refl)
starts_split [] (d ∷ mount) h = absurd (ground (arith, h))
starts_split (c ∷ path) (d ∷ mount) h = elim (Bool-cases (lower c == lower d)) [
  | inl same ↦
      let (front, split, lowered) = starts_split path mount (ground (arith, h, same)) in
      (c ∷ front, ap (λ x. c ∷ x) split, ap₂ (λ x y. x ∷ y) (==→eq _ _ same) lowered)
  | inr other ↦ absurd (ground (arith, h, other))
]

split_starts :
    (front rest mount : Text)
    → lower_text front ≡ lower_text mount
    → (starts_with_ignore_case (front ++ rest) mount ≡ true)
      × (drop (length mount) (front ++ rest) ≡ rest)
unfolding starts_with_ignore_case lower_text
split_starts [] rest [] e = (refl, refl)
split_starts [] rest (d ∷ mount) e = absurd (nil≢cons e)
split_starts (c ∷ front) rest [] e = absurd (nil≢cons (sym e))
split_starts (c ∷ front) rest (d ∷ mount) e =
    let next = split_starts front rest mount (tail-eq_of_cons-eq e) in
    (rw (eq→== (lower c) (lower d) (head-eq_of_cons-eq e)) next.0, next.1)

prefix_Covers : (path mount : Text) → is_mount_prefix path mount ≡ true → Covers path mount
unfolding is_mount_prefix
prefix_Covers path mount h =
    let starts : starts_with_ignore_case path mount ≡ true = ground (arith, h) in
    let (front, split, lowered) = starts_split path mount starts in
    record {
      front = front;
      rest = drop (length mount) path;
      split = split;
      same = lowered;
      some_mount = ground (arith, h);
      boundary = ground (arith, h);
    }

Covers-prefix : (path mount : Text) → Covers path mount → is_mount_prefix path mount ≡ true
unfolding is_mount_prefix
Covers-prefix path mount c =
    let (starts, left) = split_starts c.front c.rest mount c.same in
    rw (c.split, starts, left) (ground (arith, c.some_mount, c.boundary))

-- The test of a mount point says yes exactly for the paths below it.
pub is_mount_prefix-Covers :
    (path mount : Text) → (is_mount_prefix path mount ≡ true) ↔ Covers path mount
is_mount_prefix-Covers path mount = (prefix_Covers path mount, Covers-prefix path mount)

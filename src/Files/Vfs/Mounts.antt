-- ===== src/Files/Vfs/Mounts.antt =====
-- The table of mount points: what `mount` and `unmount` do to it, and what a new mount point changes.
use qaiosplus.Base.{
  ℕ, ◌<◌, ◌≡◌, ◌≢◌, ◌⊎◌, refl, ap, ap₂, sym, Bool, true, false, ◌&&◌, ◌||◌, [], ◌∷◌, ◌++◌, some,
  ltb, ◌==◌, length, head, Bool-cases, inl, inr, ==→eq, eq→==, ne→==-false, lt→ltb, arith,
}
use mathlib.Core.List.{append-nil}
use qaiosplus.Files.Vfs.{
  Text, MountPoint, Vfs, success, not_found, is_mount_prefix, stored, mount, same_text, unmount,
  best_from, resolve_path,
}
use qaiosplus.Files.Vfs.Prefix.{is_mount_prefix-Covers}
use qaiosplus.Files.Vfs.Resolve.{longest}

pub same_text_self : (a : Text) → same_text a a ≡ true
unfolding same_text
same_text_self [] = refl
same_text_self (c ∷ a) = rw (eq→== c c refl) (same_text_self a)

pub same_text_eq : (a b : Text) → same_text a b ≡ true → a ≡ b
unfolding same_text
same_text_eq [] [] h = refl
same_text_eq [] (d ∷ b) h = absurd (ground (arith, h))
same_text_eq (c ∷ a) [] h = absurd (ground (arith, h))
same_text_eq (c ∷ a) (d ∷ b) h = elim (Bool-cases (c == d)) [
  | inl same ↦ ap₂ (λ x y. x ∷ y) (==→eq c d same) (same_text_eq a b (ground (arith, h, same)))
  | inr other ↦ absurd (ground (arith, h, other))
]

-- Whether a mount point bears the path.
unfoldable pub is_mounted : Vfs → Text → Bool
is_mounted [] path = false
is_mounted (m ∷ ms) path = same_text m.path path || is_mounted ms path

-- `unmount` takes the first mount point of that path out and keeps all others in their order, or says
-- that there is none and changes nothing.
pub unmount-first :
    (v : Vfs) (path : Text)
    → ((is_mounted v path ≡ false) × (unmount v path ≡ (v, not_found)))
      ⊎ ((before : Vfs) × (m : MountPoint) × (after : Vfs) × (v ≡ before ++ (m ∷ after))
          × (m.path ≡ path)
          × (is_mounted before path ≡ false)
          × (unmount v path ≡ (before ++ after, success)))
unfolding unmount is_mounted
unmount-first [] path = inl (refl, refl)
unmount-first (m ∷ ms) path = elim (Bool-cases (same_text m.path path)) [
  | inl here ↦ inr ([], m, ms, refl, same_text_eq m.path path here, refl, rw (unmount, here) refl)
  | inr other ↦ elim (unmount-first ms path) [
    | inl (none_there, kept) ↦ inl (rw (other, none_there) refl, rw (unmount, other, kept) refl)
    | inr (before, x, after, split, same, none_before, result) ↦ inr (
      m ∷ before,
      x,
      after,
      ap (λ l. m ∷ l) split,
      same,
      rw (other, none_before) refl,
      rw (unmount, other, result) refl,
    )
  ]
]

unmount-append :
    (v : Vfs) (m : MountPoint) (path : Text)
    → is_mounted v path ≡ false
    → same_text m.path path ≡ true
    → unmount (v ++ (m ∷ [])) path ≡ (v, success)
unfolding unmount is_mounted
unmount-append [] m path h same = rw same refl
unmount-append (x ∷ v) m path h same =
    let other : same_text x.path path ≡ false = ground (arith, h) in
    let rest : is_mounted v path ≡ false = ground (arith, h) in
    rw (unmount-append v m path rest same, other) refl

stored_short : (stale path : Text) → length path < 255 → stored stale path ≡ path
unfolding stored
stored_short stale path h = rw (lt→ltb (length path) 255 h) refl

-- Unmounting what was just mounted gives the table back, when the path was not mounted before and is
-- shorter than 255 characters.
pub unmount-mount :
    (stale : Text) (v : Vfs) (path : Text) (fs : ℕ)
    → is_mounted v path ≡ false
    → length path < 255
    → fs ≢ 0
    → unmount (mount stale v (some path) fs).0 path ≡ (v, success)
unfolding mount
unmount-mount stale v path fs free short some_fs =
    rw (ne→==-false fs 0 some_fs, stored_short stale path short)
      (unmount-append v (record { path = path; fs = fs }) path free (same_text_self path))

best_from-append :
    (v q : Vfs) (path : Text) (best : ℕ × ℕ)
    → best_from (v ++ q) path best ≡ best_from q path (best_from v path best)
unfolding best_from
best_from-append [] q path best = refl
best_from-append (m ∷ ms) q path best = best_from-append ms q path _

best_from_bound :
    (v : Vfs) (path : Text) (best : ℕ × ℕ) (n : ℕ)
    → best.1 < n
    → longest v path < n
    → (best_from v path best).1 < n
unfolding best_from longest
best_from_bound [] path best n h l = h
best_from_bound (m ∷ ms) path best n h l =
    elim (Bool-cases (is_mount_prefix path m.path && ltb best.1 (length m.path))) [
      | inl better ↦
          rw (best_from, better)
            (best_from_bound ms path (m.fs, length m.path) n (ground (arith, better, l))
              (ground (arith, l)))
      | inr worse ↦ rw (best_from, worse) (best_from_bound ms path best n h (ground (arith, l)))
    ]

-- A mounted path itself leads to the file system that was mounted there, when it is not empty and
-- shorter than 255 characters and no mount point of its length or longer covers it already.
pub resolve_path-mount :
    (stale : Text) (v : Vfs) (path : Text) (fs size : ℕ)
    → 0 < length path
    → length path < 255
    → fs ≢ 0
    → longest v path < length path
    → (resolve_path (mount stale v (some path) fs).0 path size).0 ≡ fs
unfolding mount resolve_path best_from head
resolve_path-mount stale v path fs size some_path short some_fs free =
    let m : MountPoint = record { path = path; fs = fs } in
    let covered : is_mount_prefix path path ≡ true = (is_mount_prefix-Covers path path).1 (record {
      front = path;
      rest = [];
      split = sym (append-nil path);
      same = refl;
      some_mount = some_path;
      boundary = inr (inl refl);
    }) in
    let better =
      lt→ltb _ (length path) (best_from_bound v path (0, 0) (length path) some_path free) in
    rw
      (
        ne→==-false fs 0 some_fs,
        stored_short stale path short,
        best_from-append v (m ∷ []) path (0, 0),
        covered,
        better,
      )
      refl

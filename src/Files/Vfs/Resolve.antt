-- ===== src/Files/Vfs/Resolve.antt =====
-- Which mount point a path is resolved to, and the path inside of it.
use qaiosplus.Base.{
  ℕ, suc, ◌+◌, ◌-◌, ◌<◌, ◌≤◌, ◌≡◌, ◌⊎◌, refl, ap, ◌∙◌, true, ◌&&◌, [], ◌∷◌, ◌++◌, ltb, leb, ◌==◌,
  if◌then◌else◌, length, head, drop, take_all, length-drop, Bool-cases, inl, inr, ==→eq, lt→ltb,
  arith,
}
use qaiosplus.Files.Vfs.{
  Text, MountPoint, Vfs, is_mount_prefix, best_from, copied, relative, resolve_path,
}

-- The greatest length of a mount point that covers the path.
unfoldable pub longest : Vfs → Text → ℕ
longest [] path = 0
longest (m ∷ ms) path =
    let rest = longest ms path in
    if is_mount_prefix path m.path && ltb rest (length m.path) then length m.path else rest

-- The first mount point of the greatest length: those before it are shorter, those behind not longer.
pub record Best (v : Vfs) (path : Text) (fs len : ℕ) : Type 0 where
  pub before : Vfs
  pub mount_point : MountPoint
  pub after : Vfs
  pub split : v ≡ before ++ mount_point ∷ after
  pub covers : is_mount_prefix path mount_point.path ≡ true
  pub fs_of : fs ≡ mount_point.fs
  pub len_of : len ≡ length mount_point.path
  pub longer : longest before path < len
  pub first : longest after path ≤ len

later :
    (m : MountPoint) (ms : Vfs) (path : Text) (fs len : ℕ) (best : Best ms path fs len)
    → longest (m ∷ best.before) path < len
    → Best (m ∷ ms) path fs len
later m ms path fs len best more = record {
  before = m ∷ best.before;
  mount_point = best.mount_point;
  after = best.after;
  split = ap (λ x. m ∷ x) best.split;
  covers = best.covers;
  fs_of = best.fs_of;
  len_of = best.len_of;
  longer = more;
  first = best.first;
}

-- A search that starts with a length either finds nothing longer, or the best.
best_from-Best :
    (v : Vfs) (path : Text) (fs len : ℕ)
    → ((best_from v path (fs, len) ≡ (fs, len)) × (longest v path ≤ len))
      ⊎ (Best v path (best_from v path (fs, len)).0 (best_from v path (fs, len)).1
          × (len < (best_from v path (fs, len)).1))
unfolding best_from longest
best_from-Best [] path fs len = inl (refl, omega arith)
best_from-Best (m ∷ ms) path fs len =
    elim (Bool-cases (is_mount_prefix path m.path && ltb len (length m.path))) [
      | inl better ↦
          let covered : is_mount_prefix path m.path ≡ true = ground (arith, better) in
          elim (best_from-Best ms path m.fs (length m.path)) [
            | inl (same, bound) ↦ inr (
                rw (best_from, better, same)
                  (
                    record {
                      before = [];
                      mount_point = m;
                      after = ms;
                      split = refl;
                      covers = covered;
                      fs_of = refl;
                      len_of = refl;
                      longer = ground (arith, better);
                      first = bound;
                    },
                    ground (arith, better),
                  ))
            | inr (best, more) ↦ inr (
                rw (best_from, better)
                  (
                    later m ms path _ _ best (ground (arith, best.longer, more)),
                    ground (arith, better, more),
                  ))
          ]
      | inr worse ↦ elim (best_from-Best ms path fs len) [
        | inl (same, bound) ↦ inl (rw (best_from, worse, same) refl, ground (arith, worse, bound))
        | inr (best, more) ↦ inr (
            rw (best_from, worse)
              (later m ms path _ _ best (ground (arith, worse, best.longer, more)), more))
      ]
    ]

-- A path inside of a file system begins with '/'.
abbrev pub rooted : Text → Text
rooted text = if head text == 47 then text else 47 ∷ text

relative_lem : (text : Text) → relative text ≡ rooted text
unfolding relative head
relative_lem [] = refl
relative_lem (c ∷ s) = elim (Bool-cases (c == 47)) [
  | inl is ↦ rw (relative, is, ==→eq c 47 is) refl
  | inr other ↦ rw (relative, other, lt→ltb 0 (suc (length s)) (omega arith)) refl
]

length-rooted : (text : Text) → length (rooted text) ≤ length text + 1
length-rooted text = ground arith

copied_all :
    (path : Text) (len size : ℕ) → length path < size → copied path len size ≡ drop len path
unfolding copied
copied_all path len size h = elim (Bool-cases (leb size (length path - len))) [
  | inl cut ↦ absurd (ground (arith, h, cut))
  | inr fits ↦
      rw fits (take_all (length path - len) (drop len path) (omega (arith, length-drop len path)))
]

-- A path that is shorter than the buffer, of 2 bytes at least, is resolved to the longest mount point that covers it, the
-- first of that length, with what is left behind the mount point, begun with '/', and this fits in the
-- buffer with its terminator; or to none when none covers it.
pub resolve_path-Best :
    (v : Vfs) (path : Text) (size : ℕ)
    → length path < size
    → 1 < size
    → (((resolve_path v path size).0 ≡ 0) × (longest v path ≡ 0))
      ⊎ ((len : ℕ) × Best v path (resolve_path v path size).0 len
          × ((resolve_path v path size).1 ≡ rooted (drop len path))
          × (length (resolve_path v path size).1 < size))
unfolding resolve_path
resolve_path-Best v path size fits large = elim (best_from-Best v path 0 0) [
  | inl (same, bound) ↦ inl (ap (λ x. x.0) same, omega (arith, bound))
  | inr (best, more) ↦
      let len = (best_from v path (0, 0)).1 in
      let inside : relative (copied path len size) ≡ rooted (drop len path) =
        relative_lem (copied path len size) ∙ ap rooted (copied_all path len size fits) in
      let short = length-drop len path in
      inr (
        len,
        best,
        inside,
        rw inside (omega (arith, short, fits, more, large, length-rooted (drop len path))),
      )
]

-- ===== src/Files/Vfs/Tests.antt =====
-- Runs of the virtual file system, and the theorems at inputs that meet their hypotheses.
use qaiosplus.Base.{
  ℕ, ◌<◌, ◌≡◌, ◌⊎◌, refl, false, [], ◌∷◌, ◌++◌, length, replicate, lower, head, drop, arith,
}
use qaiosplus.Files.Vfs.{
  Text, MountPoint, Vfs, success, not_found, unmount, starts_with_ignore_case, is_mount_prefix,
  best_from, copied, relative, resolve_path,
}
use qaiosplus.Files.Vfs.Resolve.{longest, Best, rooted, resolve_path-Best}
use qaiosplus.Files.Vfs.Mounts.{is_mounted, unmount-first}

-- "/", "/a", "/A/b" and "/ab".
abbrev root : Text
root = 47 ∷ []

abbrev mount_a : Text
mount_a = 47 ∷ 97 ∷ []

abbrev below_a : Text
below_a = 47 ∷ 65 ∷ 47 ∷ 98 ∷ []

abbrev beside_a : Text
beside_a = 47 ∷ 97 ∷ 98 ∷ []

abbrev two_mounts : Vfs
two_mounts = record { path = root; fs = 1 } ∷ record { path = mount_a; fs = 2 } ∷ []

below_run : resolve_path two_mounts below_a 256 ≡ (2, 47 ∷ 98 ∷ [])
unfolding resolve_path best_from copied relative is_mount_prefix starts_with_ignore_case lower head
below_run = refl

beside_run : resolve_path two_mounts beside_a 256 ≡ (1, beside_a)
unfolding resolve_path best_from copied relative is_mount_prefix starts_with_ignore_case lower head
beside_run = refl

-- A path of 301 characters leaves 256 in the buffer of 256 bytes, and their terminator behind it.
overflow_run : length (resolve_path two_mounts (47 ∷ replicate 300 99) 256).1 ≡ 256
unfolding resolve_path best_from copied relative is_mount_prefix starts_with_ignore_case lower head
overflow_run = refl

resolve_path-Best_example :
    (((resolve_path two_mounts below_a 256).0 ≡ 0) × (longest two_mounts below_a ≡ 0))
    ⊎ ((len : ℕ) × Best two_mounts below_a (resolve_path two_mounts below_a 256).0 len
        × ((resolve_path two_mounts below_a 256).1 ≡ rooted (drop len below_a))
        × (length (resolve_path two_mounts below_a 256).1 < 256))
resolve_path-Best_example = resolve_path-Best two_mounts below_a 256 (omega arith) (omega arith)

unmount-first_example :
    ((is_mounted two_mounts mount_a ≡ false)
      × (unmount two_mounts mount_a ≡ (two_mounts, not_found)))
    ⊎ ((before : Vfs) × (m : MountPoint) × (after : Vfs) × (two_mounts ≡ before ++ (m ∷ after))
        × (m.path ≡ mount_a)
        × (is_mounted before mount_a ≡ false)
        × (unmount two_mounts mount_a ≡ (before ++ after, success)))
unmount-first_example = unmount-first two_mounts mount_a

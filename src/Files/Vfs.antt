-- ===== src/Files/Vfs.antt =====
-- The virtual file system, QFileSystem/src/QFSVFS.cpp. A file system is the number of its address, 0
-- for the null pointer; what its methods do is an argument of the operations that call them. The
-- characters of a text are not 0.
pub mod Prefix
pub mod Mounts
pub mod Resolve
mod Tests
use qaiosplus.Base.{
  ℕ, zero, suc, ◌+◌, ◌-◌, Bool, true, false, not, ◌&&◌, ◌||◌, List, [], ◌∷◌, ◌++◌, Option, none,
  some, ltb, leb, ◌==◌, if◌then◌else◌, length, get_or, lower, head, take, drop,
}

abbrev pub Text : Type 0
Text = List ℕ

pub record MountPoint : Type 0 where
  pub path : Text
  pub fs : ℕ

abbrev pub Vfs : Type 0
Vfs = List MountPoint

pub data Status : Type 0 where
  success error invalid_param out_of_memory not_found timeout busy not_supported : Status

abbrev pub path_size : ℕ
path_size = 256

unfoldable pub starts_with_ignore_case : Text → Text → Bool
starts_with_ignore_case s [] = true
starts_with_ignore_case [] (d ∷ prefix) = false
starts_with_ignore_case (c ∷ s) (d ∷ prefix) =
    let rest = starts_with_ignore_case s prefix in if not (lower c == lower d) then false else rest

unfoldable pub is_mount_prefix : Text → Text → Bool
is_mount_prefix path mount =
    let mlen = length mount in
    let next = head (drop mlen path) in
    if mlen == 0
    then false
    else (if not (starts_with_ignore_case path mount)
        then false
        else (if get_or mount (mlen - 1) 0 == 47 then true else (next == 0) || (next == 47)))

-- `strncpy` to the `path` of a new mount point, which leaves its last byte as it was: `stale` is the
-- text that stands from there on.
unfoldable pub stored : Text → Text → Text
stored stale path =
    if ltb (length path) (path_size - 1) then path else take (path_size - 1) path ++ stale

unfoldable pub mount : Text → Vfs → Option Text → ℕ → Vfs × Status
mount stale v none fs = (v, invalid_param)
mount stale v (some path) fs =
    if fs == 0
    then (v, invalid_param)
    else (v ++ record { path = stored stale path; fs = fs } ∷ [], success)

-- `strcmp(a, b) == 0`.
unfoldable pub same_text : Text → Text → Bool
same_text [] [] = true
same_text [] (d ∷ b) = false
same_text (c ∷ a) [] = false
same_text (c ∷ a) (d ∷ b) = (c == d) && same_text a b

unfoldable pub unmount : Vfs → Text → Vfs × Status
unmount [] path = ([], not_found)
unmount (m ∷ ms) path =
    let (rest, status) = unmount ms path in
    if same_text m.path path then (ms, success) else (m ∷ rest, status)

-- The loop of `resolvePath`: the best match and its length, 0 and 0 at first.
unfoldable pub best_from : Vfs → Text → ℕ × ℕ → ℕ × ℕ
best_from [] path best = best
best_from (m ∷ ms) path best = best_from ms path (
    if is_mount_prefix path m.path && ltb best.1 (length m.path)
    then (m.fs, length m.path)
    else best)

-- The text that is left behind the mount point, cut to the size of the buffer.
unfoldable pub copied : Text → ℕ → ℕ → Text
copied path best_len size =
    let copy_len = length path - best_len in
    take (if leb size copy_len then size - 1 else copy_len) (drop best_len path)

unfoldable pub relative : Text → Text
relative text =
    let shifted = if not (head text == 47) && ltb 0 (length text) then 47 ∷ text else text in
    if head shifted == 0 then 47 ∷ [] else shifted

unfoldable pub resolve_path : Vfs → Text → ℕ → ℕ × Text
resolve_path v path size =
    let (fs, best_len) = best_from v path (0, 0) in (fs, relative (copied path best_len size))

-- `open` and `openDir`: 0 is the null pointer.
pub open_file : (ℕ → Text → ℕ → ℕ) → Vfs → Text → ℕ → ℕ
open_file open_in v path mode =
    let (fs, inside) = resolve_path v path path_size in
    if fs == 0 then 0 else open_in fs inside mode

pub open_dir : (ℕ → Text → ℕ) → Vfs → Text → ℕ
open_dir open_in v path =
    let (fs, inside) = resolve_path v path path_size in if fs == 0 then 0 else open_in fs inside

-- `close` and `closeDir`, of the file system of the file.
pub close : (ℕ → Status) → Option ℕ → Status
close close_in none = invalid_param
close close_in (some fs) = if fs == 0 then success else close_in fs

-- A call of a method of the file system that a path leads to.
pub create_dir : (ℕ → Text → Status) → Vfs → Text → Status
create_dir create_in v path =
    let (fs, inside) = resolve_path v path path_size in
    if fs == 0 then not_found else create_in fs inside

-- `remove` and `removeDir`.
pub remove : (ℕ → Text → Status) → Vfs → Text → Status
remove remove_in v path =
    let (fs, inside) = resolve_path v path path_size in
    if fs == 0 then not_found else remove_in fs inside

pub rename : Text → Text → Status
rename old_path new_path = not_supported

unfoldable pub stat : (ℕ → Text → Status) → Vfs → Text → Status
stat stat_in v path =
    let (fs, inside) = resolve_path v path path_size in
    if fs == 0 then not_found else stat_in fs inside

pub exists : (ℕ → Text → Status) → Vfs → Text → Bool
exists stat_in v path = elim (stat stat_in v path) [ success ↦ true | _ ↦ false ]

-- ===== src/Files/Path/Tests.antt =====
-- Runs of the path functions, and the theorems at inputs that meet their hypotheses.
use qaiosplus.Base.{◌≡◌, refl, [], ◌∷◌, ◌++◌, some, arith}
use qaiosplus.Files.Vfs.{Text}
use qaiosplus.Files.Path.{
  overrun, holds, last_place, dirname, basename, base, after_last, strip, append_path, join,
}
use qaiosplus.Files.Path.Split.{join-dirname}

-- "/a" and "b.c".
abbrev dir : Text
dir = 47 ∷ 97 ∷ []

abbrev file : Text
file = 98 ∷ 46 ∷ 99 ∷ []

-- A trailing separator is no part of the name, but its directory ends there.
trailing_run : basename (some (dir ++ (47 ∷ []))) 256 ≡ holds (97 ∷ [])
unfolding basename base after_last strip last_place
trailing_run = refl

overrun_run : join (some dir) (some file) 2 ≡ overrun
unfolding join append_path
overrun_run = refl

join-dirname_example :
    (dirname (some (dir ++ (47 ∷ file))) 256 ≡ holds dir)
    × (basename (some (dir ++ (47 ∷ file))) 256 ≡ holds file)
    × (join (some dir) (some file) 256 ≡ holds (dir ++ (47 ∷ file)))
join-dirname_example =
    join-dirname dir file 256 (omega arith) (omega arith) (omega arith) refl (omega arith)

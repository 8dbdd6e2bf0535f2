-- ===== src/Core/CString/Tests.antt =====
-- Runs of the string functions, and the theorems at inputs that meet their hypotheses.
use qaiosplus.Base.{
  ℕ, ◌+◌, ◌≡◌, refl, ◌-◌, false, List, [], ◌∷◌, ◌++◌, some, arith, ◌==◌, if◌then◌else◌, length, inl,
}
use qaiosplus.Core.Block.{Mem, memmove}
use qaiosplus.Core.Block.Laws.{within, memmove_snapshot}
use qaiosplus.Core.CString.{strcat, strstr, strrchr, match_at, find_text, last_from}
use qaiosplus.Core.CString.Length.{Holds}
use qaiosplus.Core.CString.Copy.{strcat-Holds}
use qaiosplus.Core.CString.Search.{pointer, place, strstr-place}

-- "abab" at 16, "ba" at 32, and 0 elsewhere.
abbrev texts : Mem
texts a =
    if a == 16
    then 97
    else if a == 17
    then 98
    else if a == 18
    then 97
    else if a == 19
    then 98
    else if a == 32
    then 98
    else if a == 33
    then 97
    else 0

abbrev abab : List ℕ
abab = 97 ∷ 98 ∷ 97 ∷ 98 ∷ []

abbrev ba : List ℕ
ba = 98 ∷ 97 ∷ []

strstr_run : strstr 9 texts 16 32 ≡ some 17
unfolding strstr find_text match_at
strstr_run = refl

strrchr_run : strrchr 9 texts 16 97 ≡ some 18
unfolding strrchr last_from
strrchr_run = refl

abab-Holds : Holds texts 16 abab
abab-Holds = omega arith

ba-Holds : Holds texts 32 ba
ba-Holds = omega arith

memmove_snapshot_example :
    memmove texts 17 16 4 18 ≡ (if within 17 4 18 then texts (16 + (18 - 17)) else texts 18)
memmove_snapshot_example = memmove_snapshot texts 17 16 4 18

strcat-Holds_example :
    (m' : Mem) × (strcat 9 texts 16 32 ≡ some m')
    × Holds m' 16 (abab ++ ba)
    × ((a : ℕ) → within (16 + length abab) (length ba + 1) a ≡ false → m' a ≡ texts a)
strcat-Holds_example =
    strcat-Holds abab ba 9 texts 16 32 abab-Holds ba-Holds (omega arith) (omega arith)
      (inl (omega arith))

strstr-place_example : strstr 9 texts 16 32 ≡ some (pointer 16 (place abab ba))
strstr-place_example = strstr-place abab ba 9 texts 16 32 abab-Holds ba-Holds (omega arith)

-- ===== src/Core/CString.antt =====
-- The string functions of QCCore/src/QCMemUtil.c. A string is the address of its first byte, and ends
-- at the first byte 0; 0 is the null pointer. The loops have no bound in the source, and run on fuel:
-- `none` is a loop that has not met its end yet.
pub mod Length
pub mod Compare
pub mod Copy
pub mod Search
mod Tests
use qaiosplus.Base.{
  ℕ, zero, suc, ◌+◌, ◌-◌, ◌%◌, Bool, true, false, not, ◌&&◌, ◌||◌, Option, none, some, ltb, ◌==◌,
  if◌then◌else◌, update,
}
use qaiosplus.Core.Block.{Mem, sub32, fill}

-- The loop of `strlen`: the fuel, and `len`.
pub scan : ℕ → ℕ → Mem → ℕ → Option ℕ
scan zero len m str = none
scan (suc fuel) len m str =
    let rest = scan fuel (len + 1) m str in if m (str + len) == 0 then some len else rest

pub strlen : ℕ → Mem → ℕ → Option ℕ
unfolding scan
strlen fuel m str = let len = scan fuel 0 m str in if str == 0 then some 0 else len

-- `while ((*d++ = *src++))`.
pub copy_text : ℕ → Mem → ℕ → ℕ → Option Mem
copy_text zero m d src = none
copy_text (suc fuel) m d src =
    let m' = update m d (m src) in
    let rest = copy_text fuel m' (d + 1) (src + 1) in if m src == 0 then some m' else rest

pub strcpy : ℕ → Mem → ℕ → ℕ → Option Mem
unfolding copy_text
strcpy fuel m dest src = copy_text fuel m dest src

-- The first loop of `strncpy`: the rounds left, and `i`; the memory and the last `i`.
pub copy_some : ℕ → ℕ → Mem → ℕ → ℕ → Mem × ℕ
copy_some zero i m dest src = (m, i)
copy_some (suc n) i m dest src =
    let rest = copy_some n (i + 1) (update m (dest + i) (m (src + i))) dest src in
    if m (src + i) == 0 then (m, i) else rest

pub strncpy : Mem → ℕ → ℕ → ℕ → Mem
unfolding copy_some
strncpy m dest src count =
    let (m', i) = copy_some count 0 m dest src in fill (count - i) i m' dest 0

pub strcmp : ℕ → Mem → ℕ → ℕ → Option ℕ
strcmp zero m lhs rhs = none
strcmp (suc fuel) m lhs rhs =
    let rest = strcmp fuel m (lhs + 1) (rhs + 1) in
    if not (m lhs == 0) && (m lhs == m rhs) then rest else some (sub32 (m lhs) (m rhs))

-- The rounds left, and `i`.
pub compare_up_to : ℕ → ℕ → Mem → ℕ → ℕ → ℕ
compare_up_to zero i m lhs rhs = 0
compare_up_to (suc n) i m lhs rhs =
    let rest = compare_up_to n (i + 1) m lhs rhs in
    if not (m (lhs + i) == m (rhs + i))
    then sub32 (m (lhs + i)) (m (rhs + i))
    else if m (lhs + i) == 0
    then 0
    else rest

pub strncmp : Mem → ℕ → ℕ → ℕ → ℕ
unfolding compare_up_to
strncmp m lhs rhs count = compare_up_to count 0 m lhs rhs

-- `while (*d) ++d`.
pub end_of : ℕ → Mem → ℕ → Option ℕ
end_of zero m d = none
end_of (suc fuel) m d = let rest = end_of fuel m (d + 1) in if m d == 0 then some d else rest

pub strcat : ℕ → Mem → ℕ → ℕ → Option Mem
unfolding end_of copy_text
strcat fuel m dest src = elim (end_of fuel m dest) [ none ↦ none | some d ↦ copy_text fuel m d src ]

-- The pointer to the byte, or 0; `c` is the byte that `(char)ch` is.
pub strchr : ℕ → Mem → ℕ → ℕ → Option ℕ
strchr zero m str c = none
strchr (suc fuel) m str c =
    let rest = strchr fuel m (str + 1) c in
    if m str == 0 then some (if c == 0 then str else 0) else if m str == c then some str else rest

-- With `last` as it is so far.
pub last_from : ℕ → Mem → ℕ → ℕ → ℕ → Option ℕ
last_from zero m str c last = none
last_from (suc fuel) m str c last =
    let rest = last_from fuel m (str + 1) c (if m str == c then str else last) in
    if m str == 0 then some (if c == 0 then str else last) else rest

pub strrchr : ℕ → Mem → ℕ → ℕ → Option ℕ
unfolding last_from
strrchr fuel m str c = last_from fuel m str c 0

-- The inner loop of `strstr`, and whether it ended at the needle's end.
pub match_at : ℕ → Mem → ℕ → ℕ → Option Bool
match_at zero m h n = none
match_at (suc fuel) m h n =
    let rest = match_at fuel m (h + 1) (n + 1) in
    if not (m h == 0) && not (m n == 0) && (m h == m n) then rest else some (m n == 0)

-- The outer loop; the inner one has fuel of its own.
pub find_text : ℕ → ℕ → Mem → ℕ → ℕ → Option ℕ
unfolding match_at
find_text zero inner m haystack needle = none
find_text (suc fuel) inner m haystack needle =
    let rest = find_text fuel inner m (haystack + 1) needle in
    let here : Option ℕ = elim (match_at inner m haystack needle) [
      | none ↦ none
      | some found ↦ if found then some haystack else rest
    ] in
    if m haystack == 0 then some 0 else here

pub strstr : ℕ → Mem → ℕ → ℕ → Option ℕ
unfolding find_text
strstr fuel m haystack needle =
    let found = find_text fuel fuel m haystack needle in
    if m needle == 0 then some haystack else found

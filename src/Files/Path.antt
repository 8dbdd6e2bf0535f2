-- ===== src/Files/Path.antt =====
-- The path functions, QFileSystem/src/QFSPath.cpp, on texts without terminator; a missing text is the
-- null pointer. A result is what the buffer of the given size holds after the call.
pub mod Split
mod Tests
use qaiosplus.Base.{
  ℕ, zero, suc, ◌+◌, ◌-◌, Bool, true, false, not, ◌&&◌, ◌||◌, List, [], ◌∷◌, ◌++◌, Option, none,
  some, ltb, leb, ◌==◌, if◌then◌else◌, length, get_or, head, take, drop,
}
use qaiosplus.Files.Vfs.{Text, same_text}

abbrev pub separator : ℕ
separator = 47

abbrev pub dot : ℕ
dot = 46

-- A call leaves the buffer as it was, makes it hold a text, or writes outside of it or leaves it
-- without a terminator.
pub data Buffer : Type 0 where
  untouched overrun : Buffer
  holds : Text → Buffer

pub is_absolute : Option Text → Bool
is_absolute none = false
is_absolute (some path) = head path == separator

pub is_relative : Option Text → Bool
is_relative path = not (is_absolute path)

-- The place of the last `c`.
unfoldable pub last_place : ℕ → Text → Option ℕ
last_place c [] = none
last_place c (d ∷ s) = elim (last_place c s) [
  | some k ↦ some (k + 1)
  | none ↦ if d == c then some 0 else none
]

-- A copy of `n` characters, cut to the buffer.
abbrev pub cut : ℕ → ℕ → Text → Text
cut size n text = take (if leb size n then size - 1 else n) text

-- A text of one character and its terminator.
unfoldable pub one_character : ℕ → ℕ → Buffer
one_character size c = if size == 1 then overrun else holds (c ∷ [])

unfoldable pub directory : Text → ℕ → Buffer
directory path size = elim (last_place separator path) [
  | none ↦ one_character size dot
  | some k ↦ if k == 0 then one_character size separator else holds (cut size k path)
]

unfoldable pub dirname : Option Text → ℕ → Buffer
dirname none size = untouched
dirname (some path) size = if size == 0 then untouched else directory path size

-- The text without the separators at its end.
unfoldable pub strip : Text → Text
strip [] = []
strip (c ∷ s) =
    let rest = strip s in if (c == separator) && (length rest == 0) then [] else c ∷ rest

unfoldable pub after_last : ℕ → Text → Text
after_last c text = elim (last_place c text) [ none ↦ text | some k ↦ drop (k + 1) text ]

unfoldable pub base : Text → ℕ → Text
base path size = let text = after_last separator (strip path) in cut size (length text) text

unfoldable pub basename : Option Text → ℕ → Buffer
basename none size = untouched
basename (some path) size = if size == 0 then untouched else holds (base path size)

pub extension : Option Text → ℕ → Buffer
extension none size = untouched
extension (some path) size =
    let name = base path 256 in
    let text : Text = elim (last_place dot name) [
      | none ↦ []
      | some k ↦ let end = drop k name in cut size (length end) end
    ] in
    if size == 0 then untouched else holds text

-- `join` to a first path that is not empty and a second path.
unfoldable pub append_path : Text → Text → ℕ → Buffer
append_path path1 path2 size =
    let len1 = length path1 in
    let apart = not (get_or path1 (len1 - 1) 0 == separator) && not (head path2 == separator) in
    let front = if apart && ltb len1 (size - 1) then path1 ++ (separator ∷ []) else path1 in
    if leb size len1 then overrun else holds (front ++ take (size - length front - 1) path2)

unfoldable pub join : Option Text → Option Text → ℕ → Buffer
join path1 none size =
    let len1 : ℕ = elim path1 [ none ↦ 0 | some p ↦ length p ] in
    let text : Text = elim path1 [ none ↦ [] | some p ↦ p ] in
    if size == 0
    then untouched
    else (if not (len1 == 0) && leb (size - 1) len1 then overrun else holds text)
join none (some path2) size = if size == 0 then untouched else holds (take (size - 1) path2)
join (some path1) (some path2) size =
    if size == 0
    then untouched
    else (if length path1 == 0 then holds (take (size - 1) path2) else append_path path1 path2 size)

-- Nothing but a copy.
pub normalize : Option Text → ℕ → Buffer
normalize none size = untouched
normalize (some path) size = if size == 0 then untouched else holds (take (size - 1) path)

normalize_buffer : Buffer → ℕ → Buffer
normalize_buffer untouched size = untouched
normalize_buffer overrun size = overrun
normalize_buffer (holds text) size = holds (take (size - 1) text)

unfoldable pub text_of : Buffer → Text
text_of (holds text) = text
text_of _ = []

-- The base path is not null.
pub resolve : Text → Option Text → ℕ → Buffer
unfolding normalize_buffer is_absolute
resolve base_path none size =
    normalize_buffer (join (some (text_of (dirname (some base_path) 256))) none size) size
resolve base_path (some path) size =
    let whole : Buffer = if size == 0 then overrun else holds (take (size - 1) path) in
    normalize_buffer
      (if is_absolute (some path)
        then whole
        else join (some (text_of (dirname (some base_path) 256))) (some path) size)
      size

pub equals : Option Text → Option Text → Bool
equals none none = true
equals none (some b) = false
equals (some a) none = false
equals (some a) (some b) = same_text a b

pub starts_with : Option Text → Option Text → Bool
starts_with none prefix = false
starts_with (some path) none = false
starts_with (some path) (some prefix) =
    if ltb (length path) (length prefix)
    then false
    else same_text (take (length prefix) path) prefix

-- The loop: '\n' or '\r'.
is_broken : Text → Bool
is_broken [] = false
is_broken (c ∷ s) = let rest = is_broken s in if (c == 10) || (c == 13) then true else rest

pub contains_invalid_chars : Option Text → Bool
unfolding is_broken
contains_invalid_chars none = true
contains_invalid_chars (some path) = is_broken path

pub is_valid : Option Text → Bool
unfolding contains_invalid_chars
is_valid none = false
is_valid (some path) = if length path == 0 then false else not (contains_invalid_chars (some path))

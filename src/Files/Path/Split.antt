-- ===== src/Files/Path/Split.antt =====
-- The parts of a path, and the path put together from them.
use qaiosplus.Base.{
  ℕ, suc, ◌+◌, ◌-◌, ◌<◌, ◌≡◌, ◌≢◌, refl, ap, ◌∙◌, Bool, true, false, not, ◌&&◌, [], ◌∷◌, ◌++◌,
  Option, none, some, leb, ◌==◌, length, get_or, head, take, drop, take_all, length-append,
  if◌then◌else◌, Bool-cases, inl, inr, ne→==-false, lt→ltb, arith,
}
use mathlib.Core.List.{append_assoc}
use qaiosplus.Files.Vfs.{Text}
use qaiosplus.Files.Path.{
  Buffer, holds, separator, last_place, cut, directory, dirname, strip, after_last, base, basename,
  append_path, join,
}

-- Whether a text has no separator.
abbrev pub is_plain : Text → Bool
is_plain [] = true
is_plain (c ∷ s) = not (c == separator) && is_plain s

last_place_plain : (s : Text) → is_plain s ≡ true → last_place separator s ≡ none
unfolding last_place
last_place_plain [] h = refl
last_place_plain (c ∷ s) h =
    let other : (c == separator) ≡ false = ground (arith, h) in
    rw (last_place_plain s (ground (arith, h)), other) refl

last_place-append :
    (dir name : Text)
    → is_plain name ≡ true
    → last_place separator (dir ++ (separator ∷ name)) ≡ some (length dir)
unfolding last_place
last_place-append [] name h = rw (last_place_plain name h) refl
last_place-append (c ∷ dir) name h = rw (last_place-append dir name h) (ap some (omega arith))

strip_plain : (s : Text) → is_plain s ≡ true → strip s ≡ s
unfolding strip
strip_plain [] h = refl
strip_plain (c ∷ s) h =
    let other : (c == separator) ≡ false = ground (arith, h) in
    rw (strip_plain s (ground (arith, h)), other) refl

strip-append :
    (dir name : Text)
    → is_plain name ≡ true
    → 0 < length name
    → strip (dir ++ (separator ∷ name)) ≡ dir ++ (separator ∷ name)
unfolding strip
strip-append [] name h some_name =
    rw (strip_plain name h, ne→==-false (length name) 0 (omega (arith, some_name))) refl
strip-append (c ∷ dir) name h some_name =
    let long : (length (dir ++ (separator ∷ name)) == 0) ≡ false =
      ne→==-false _ 0 (omega (arith, length-append dir (separator ∷ name))) in
    rw (strip-append dir name h some_name, long) (ground arith)

lt→leb-false : (a b : ℕ) → b < a → leb a b ≡ false
lt→leb-false a b h = ground (arith, h)

take-append : (a b : Text) → take (length a) (a ++ b) ≡ a
take-append [] b = refl
take-append (c ∷ a) b = ap (λ x. c ∷ x) (take-append a b)

drop-append : (a b : Text) (c : ℕ) → drop (length a + 1) (a ++ (c ∷ b)) ≡ b
drop-append [] b c = refl
drop-append (d ∷ a) b c =
    let e : length (d ∷ a) + 1 ≡ suc (length a + 1) = omega arith in
    ap (λ n. drop n ((d ∷ a) ++ (c ∷ b))) e ∙ drop-append a b c

cut_fits : (size n : ℕ) (text : Text) → n < size → cut size n text ≡ take n text
cut_fits size n text h = elim (Bool-cases (leb size n)) [
  | inl over ↦ absurd (ground (arith, h, over))
  | inr fits ↦ rw fits refl
]

head_plain : (s : Text) → is_plain s ≡ true → (head s == separator) ≡ false
unfolding head
head_plain [] h = refl
head_plain (c ∷ s) h = ground (arith, h)

append_path_lem :
    (dir name : Text) (size : ℕ)
    → get_or dir (length dir - 1) 0 ≢ separator
    → is_plain name ≡ true
    → length dir + 1 + length name < size
    → append_path dir name size ≡ holds (dir ++ (separator ∷ name))
unfolding append_path
append_path_lem dir name size open_end plain room =
    let front : length (dir ++ (separator ∷ [])) ≡ length dir + 1 =
      length-append dir (separator ∷ []) in
    let whole : take (size - length (dir ++ (separator ∷ [])) - 1) name ≡ name =
      take_all (size - length (dir ++ (separator ∷ [])) - 1) name (omega (arith, room, front)) in
    rw
      (
        append_path,
        ne→==-false (get_or dir (length dir - 1) 0) separator open_end,
        head_plain name plain,
        lt→ltb (length dir) (size - 1) (omega (arith, room)),
        lt→leb-false size (length dir) (omega (arith, room)),
        whole,
      )
      (ap holds (append_assoc dir (separator ∷ []) name))

-- A path of a directory, a separator and a name without one: `dirname` and `basename` give these two,
-- and `join` puts them together again, when the buffer is longer than the path and the directory is
-- not empty and does not end with a separator.
pub join-dirname :
    (dir name : Text) (size : ℕ)
    → 0 < length dir
    → get_or dir (length dir - 1) 0 ≢ separator
    → 0 < length name
    → is_plain name ≡ true
    → length dir + 1 + length name < size
    → (dirname (some (dir ++ (separator ∷ name))) size ≡ holds dir)
      × (basename (some (dir ++ (separator ∷ name))) size ≡ holds name)
      × (join (some dir) (some name) size ≡ holds (dir ++ (separator ∷ name)))
unfolding dirname directory basename base after_last join append_path
join-dirname dir name size some_dir open_end some_name plain room =
    let some_size = ne→==-false size 0 (omega (arith, room)) in
    let dir_text : directory (dir ++ (separator ∷ name)) size ≡ holds dir =
      rw
        (
          directory,
          last_place-append dir name plain,
          ne→==-false (length dir) 0 (omega (arith, some_dir)),
          cut_fits size (length dir) (dir ++ (separator ∷ name)) (omega (arith, room)),
          take-append dir (separator ∷ name),
        )
        refl in
    let path = dir ++ (separator ∷ name) in
    let last : after_last separator path ≡ name =
      rw (after_last, last_place-append dir name plain) (drop-append dir name separator) in
    let name_text : base path size ≡ name =
      ap (λ x. cut size (length (after_last separator x)) (after_last separator x))
        (strip-append dir name plain some_name)
      ∙ ap (λ x. cut size (length x) x) last
      ∙ cut_fits size (length name) name (omega (arith, room))
      ∙ take_all (length name) name (omega arith) in
    (
      rw (some_size, dir_text) refl,
      rw (some_size, name_text) refl,
      rw (some_size, ne→==-false (length dir) 0 (omega (arith, some_dir)))
          (append_path_lem dir name size open_end plain room),
    )

-- A text that is shorter than the buffer is left in it.
abbrev pub Leaves : Buffer → ℕ → Type 0
Leaves buffer size = (text : Text) × (buffer ≡ holds text) × (length text < size)

-- How many characters of the first path `join` needs room for without a test.
abbrev pub unchecked : Option Text → Option Text → ℕ
unchecked none path2 = 0
unchecked (some a) none = if length a == 0 then 0 else length a + 1
unchecked (some a) (some b) = length a

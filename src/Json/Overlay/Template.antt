-- ===== src/Json/Overlay/Template.antt =====
-- Templates as pieces, and what the loop over the characters makes of them.
use qaiosplus.Base.{
  ℕ, suc, ◌+◌, ◌<◌, Bool, true, false, not, ◌&&◌, List, [], ◌∷◌, ◌++◌, none, some, ltb, ◌==◌,
  length, take_all, ◌≡◌, refl, arith,
}
use qaiosplus.Files.Vfs.{Text}
use qaiosplus.Json.Overlay.{
  ParamMap, c_text, get, is_name_char, split_name, replacement, starts_with_brace, is_some_text,
  is_placeholder, expand, expand_template_string,
}

pub data Piece : Type 0 where
  plain : ℕ → Piece
  placeholder : Text → Piece

unfoldable pub written : List Piece → Text
written [] = []
written (plain c ∷ ps) = c ∷ written ps
written (placeholder name ∷ ps) = b'{' ∷ (name ++ (b'}' ∷ written ps))

-- What a parameter puts in place of its name, or the text that stands there if it is not known.
unfoldable pub value_of : ParamMap → Text → Text
value_of params name = elim (get params (some name)) [
  | some text ↦ c_text text
  | none ↦ written (placeholder name ∷ [])
]

unfoldable pub filled : ParamMap → List Piece → Text
filled params [] = []
filled params (plain c ∷ ps) = c ∷ filled params ps
filled params (placeholder name ∷ ps) = value_of params name ++ filled params ps

unfoldable pub has_name_chars : Text → Bool
has_name_chars [] = true
has_name_chars (c ∷ s) = is_name_char c && has_name_chars s

unfoldable pub is_name : Text → Bool
is_name name = is_some_text name && (has_name_chars name && ltb (length name) 64)

-- No character is a brace that opens or the terminator, and every name fits the buffer for it.
unfoldable pub is_template : List Piece → Bool
is_template [] = true
is_template (plain c ∷ ps) = not (c == b'{') && (not (c == 0) && is_template ps)
is_template (placeholder name ∷ ps) = is_name name && is_template ps

split_name-name :
    (name s : Text)
    → has_name_chars name ≡ true
    → split_name (name ++ (b'}' ∷ s)) ≡ (name, b'}' ∷ s)
unfolding split_name has_name_chars is_name_char
split_name-name [] s h = refl
split_name-name (c ∷ name) s h =
    let first : is_name_char c ≡ true = ground (h, arith) in
    rw (split_name-name name s (ground (h, arith)), first) refl

expand-skipped :
    (params : ParamMap) (name s : Text)
    → expand params (suc (length name)) (name ++ (b'}' ∷ s)) ≡ expand params 0 s
unfolding expand
expand-skipped params [] s = refl
expand-skipped params (c ∷ name) s = expand-skipped params name s

name_char-some : (c : ℕ) → is_name_char c ≡ true → (c == 0) ≡ false
unfolding is_name_char
name_char-some c h = ground (arith, h)

c_text-name : (name s : Text) → has_name_chars name ≡ true → c_text (name ++ s) ≡ name ++ c_text s
unfolding c_text has_name_chars
c_text-name [] s h = refl
c_text-name (c ∷ name) s h =
    rw (name_char-some c (ground (h, arith)), c_text-name name s (ground (h, arith))) refl

c_text-written : (ps : List Piece) → is_template ps ≡ true → c_text (written ps) ≡ written ps
unfolding c_text written is_template is_name
c_text-written [] h = refl
c_text-written (plain c ∷ ps) h =
    let some_char : (c == 0) ≡ false = ground (h, arith) in
    rw (some_char, c_text-written ps (ground (h, arith))) refl
c_text-written (placeholder name ∷ ps) h =
    rw
      (
        c_text-name name (b'}' ∷ written ps) (ground (h, arith)),
        c_text-written ps (ground (h, arith)),
      )
      refl

replacement-name :
    (params : ParamMap) (name : Text)
    → is_name name ≡ true
    → replacement params name ≡ value_of params name
unfolding replacement value_of is_name written
replacement-name params name h =
    let short : length name < 64 = ground (h, arith) in
    rw (replacement, take_all 63 name (omega arith)) refl

expand-written :
    (params : ParamMap) (ps : List Piece)
    → is_template ps ≡ true
    → expand params 0 (written ps) ≡ filled params ps
unfolding expand written filled is_template is_name is_placeholder value_of starts_with_brace
expand-written params [] h = refl
expand-written params (plain c ∷ ps) h =
    let other : (c == b'{') ≡ false = ground (h, arith) in
    rw (other, expand-written params ps (ground (h, arith))) refl
expand-written params (placeholder name ∷ ps) h =
    let some_name : is_some_text name ≡ true = ground (h, arith) in
    let split = split_name-name name (written ps) (ground (h, arith)) in
    let behind : length name + 1 ≡ suc (length name) = omega arith in
    rw
      (
        split,
        some_name,
        behind,
        expand-skipped params name (written ps),
        replacement-name params name (ground (h, arith)),
        expand-written params ps (ground (h, arith)),
      )
      refl

-- Where a template is written out, its expansion is the template with every name replaced by its
-- parameter, cut at its terminator, and with the names without one as they stood, if no other
-- character of it is an opening brace or 0 and its names have 1 to 63 characters, all of them of names.
pub expand_template_string-written :
    (params : ParamMap) (ps : List Piece)
    → is_template ps ≡ true
    → expand_template_string (some (written ps)) params ≡ filled params ps
unfolding expand_template_string
expand_template_string-written params ps h = rw (c_text-written ps h) (expand-written params ps h)

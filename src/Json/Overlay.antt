-- ===== src/Json/Overlay.antt =====
-- QCSerialization/src/QCJsonOverlay.cpp: values of JSON in layers, the parameters that they hold, and
-- the templates that are filled with them; the accessors of QCJson.cpp that it uses stand here too. A
-- text is a C string, which ends at its first 0, and a missing one is the null pointer. Memory that a
-- vector needs is always given.
pub mod Params
pub mod Layers
pub mod Template
mod Tests
use qaiosplus.Base.{
  ℕ, zero, suc, ◌+◌, ◌-◌, Bool, true, false, not, ◌&&◌, ◌||◌, List, [], ◌∷◌, ◌++◌, Option, none,
  some, ltb, leb, ◌==◌, if◌then◌else◌, length, take,
}
use qaiosplus.Files.Vfs.{Text, same_text}
use qaiosplus.Json.Tree.{
  Value, Members, Elements, null, boolean, number, string, object, array, no_members, member,
}

-- The characters in front of the terminator.
unfoldable pub c_text : Text → Text
c_text [] = []
c_text (c ∷ s) = let rest = c_text s in if c == 0 then [] else c ∷ rest

-- `strcmp(a, b) == 0`.
unfoldable pub same_key : Text → Text → Bool
same_key a b = same_text (c_text a) (c_text b)

pub record ParamEntry : Type 0 where
  pub key : Text
  pub value : Option Text

abbrev pub ParamMap : Type 0
ParamMap = List ParamEntry

unfoldable pub set_param : ParamMap → Text → Option Text → ParamMap
set_param [] key value = record { key = key; value = value } ∷ []
set_param (e ∷ m) key value =
    let rest = set_param m key value in
    if same_key e.key key then record e { value = value } ∷ m else e ∷ rest

unfoldable pub set_value : ParamMap → Option Text → Option Text → ParamMap
set_value m none value = m
set_value m (some key) value = set_param m key value

unfoldable pub get_param : ParamMap → Text → Option Text
get_param [] key = none
get_param (e ∷ m) key = let rest = get_param m key in if same_key e.key key then e.value else rest

unfoldable pub get : ParamMap → Option Text → Option Text
get m none = none
get m (some key) = get_param m key

-- The layers, the one of highest priority first.
abbrev pub Overlay : Type 0 → Type 0
Overlay D = List (Value D)

abbrev pub params_key : Text
params_key = b'p' ∷ b'a' ∷ b'r' ∷ b'a' ∷ b'm' ∷ b's' ∷ []

module _ {D : Type 0} where
  unfoldable pub is_object : Value D → Bool
  is_object (object ms) = true
  is_object _ = false

  unfoldable pub find_member : Members D → Text → Option (Value D)
  find_member no_members key = none
  find_member (member k v ms) key =
      let rest = find_member ms key in if same_key k key then some v else rest

  unfoldable pub find : Value D → Option Text → Option (Value D)
  find (object ms) (some key) = find_member ms key
  find _ _ = none

  unfoldable pub add_layer : Overlay D → Option (Value D) → Overlay D
  add_layer o none = o
  add_layer o (some v) = o ++ (v ∷ [])

  unfoldable pub resolved : Overlay D → Option (Value D)
  resolved [] = none
  resolved (v ∷ o) = some v

  -- The first loop of `child`.
  unfoldable pub highest : Overlay D → Text → Option (Value D)
  highest [] key = none
  highest (layer ∷ o) key =
      let rest = highest o key in
      if not (is_object layer)
      then rest
      else elim (find layer (some key)) [ none ↦ rest | some v ↦ some v ]

  unfoldable pub add_object : Overlay D → Option (Value D) → Overlay D
  add_object result none = result
  add_object result (some v) = if is_object v then add_layer result (some v) else result

  -- The second loop of `child`: the layers that are left, and `result`.
  unfoldable pub merge_objects : Overlay D → Text → Overlay D → Overlay D
  merge_objects [] key result = result
  merge_objects (layer ∷ o) key result =
      let skipped = merge_objects o key result in
      let added = merge_objects o key (add_object result (find layer (some key))) in
      if not (is_object layer) then skipped else added

  unfoldable pub child : Overlay D → Option Text → Overlay D
  child o none = []
  child o (some key) = elim (highest o key) [
    | none ↦ []
    | some v ↦ if not (is_object v) then add_layer [] (some v) else merge_objects o key []
  ]

  unfoldable pub find_resolved : Overlay D → Option Text → Option (Value D)
  find_resolved o key = elim (resolved o) [
    | none ↦ none
    | some v ↦ if not (is_object v) then none else find v key
  ]

  -- The entries of one object of parameters that are texts.
  unfoldable pub set_strings : Members D → ParamMap → ParamMap
  set_strings no_members out = out
  set_strings (member k (string text) ms) out = set_strings ms (set_value out (some k) (some text))
  set_strings (member k _ ms) out = set_strings ms out

  unfoldable pub collect_layer : Option (Value D) → ParamMap → ParamMap
  collect_layer (some (object ms)) out = set_strings ms out
  collect_layer _ out = out

  -- From the last layer to the first one.
  unfoldable pub collect_params : Overlay D → ParamMap
  collect_params [] = []
  collect_params (layer ∷ o) =
      let out = collect_params o in
      if not (is_object layer) then out else collect_layer (find layer (some params_key)) out

unfoldable pub is_name_char : ℕ → Bool
is_name_char c =
    (leb b'a' c && leb c b'z')
    || (leb b'A' c && leb c b'Z')
    || (leb b'0' c && leb c b'9')
    || (c == b'_')

-- The characters of a name at the front of a text, and what is behind them.
unfoldable pub split_name : Text → Text × Text
split_name [] = ([], [])
split_name (c ∷ s) =
    let rest = split_name s in if is_name_char c then (c ∷ rest.0, rest.1) else ([], c ∷ s)

-- What a placeholder stands for: the buffer for its name has 64 cells.
unfoldable pub replacement : ParamMap → Text → Text
replacement params name = elim (get params (some (take 63 name))) [
  | some text ↦ c_text text
  | none ↦ b'{' ∷ name ++ (b'}' ∷ [])
]

unfoldable pub starts_with_brace : Text → Bool
starts_with_brace [] = false
starts_with_brace (c ∷ s) = c == b'}'

unfoldable pub is_some_text : Text → Bool
is_some_text [] = false
is_some_text (c ∷ s) = true

-- Whether a name and a closing brace are at the front of a text.
unfoldable pub is_placeholder : Text → Bool
is_placeholder s = is_some_text (split_name s).0 && starts_with_brace (split_name s).1

-- The loop over the input: the characters of a placeholder that are left to pass by.
unfoldable pub expand : ParamMap → ℕ → Text → Text
expand params skip [] = []
expand params (suc skip) (c ∷ s) = expand params skip s
expand params zero (c ∷ s) =
    let name = (split_name s).0 in
    let behind = expand params (length name + 1) s in
    let rest = expand params 0 s in
    if (c == b'{') && is_placeholder s then replacement params name ++ behind else c ∷ rest

-- The characters in front of the terminator that is put behind them.
unfoldable pub expand_template_string : Option Text → ParamMap → Text
expand_template_string none params = []
expand_template_string (some input) params = expand params 0 (c_text input)

unfoldable pub as_templated_string : {D : Type 0} → Overlay D → ParamMap → Text → Text
as_templated_string (string text ∷ o) params default_value =
    expand_template_string (some text) params
as_templated_string _ params default_value = default_value

-- ===== src/Json/Overlay/Tests.antt =====
-- A run on two layers.
use qaiosplus.Base.{ℕ, ◌≡◌, refl, true, List, [], ◌∷◌, some}
use qaiosplus.Files.Vfs.{Text, same_text}
use qaiosplus.Json.Tree.{Value, null, boolean, number, string, object, no_members, member}
use qaiosplus.Json.Overlay.{
  Overlay, c_text, same_key, set_param, set_value, get_param, get, is_object, find, find_member,
  params_key, set_strings, collect_layer, collect_params, child, is_name_char, split_name,
  replacement, starts_with_brace, is_some_text, is_placeholder, expand, expand_template_string,
  as_templated_string,
}
use qaiosplus.Json.Overlay.Params.{highest_param, get-collect_params}
use qaiosplus.Json.Overlay.Layers.{found, merged, child-merged}
use qaiosplus.Json.Overlay.Template.{
  Piece, plain, placeholder, written, filled, is_template, is_name, has_name_chars,
  expand_template_string-written,
}

abbrev a_key : Text
a_key = b'a' ∷ []

abbrev b_key : Text
b_key = b'b' ∷ []

abbrev upper : Value ℕ
upper = object (
    member params_key (object (member a_key (string (b'1' ∷ [])) no_members))
      (member a_key (object (member b_key null no_members)) no_members))

abbrev lower : Value ℕ
lower = object (
    member params_key
      (object (member a_key (string (b'2' ∷ [])) (member b_key (string (b'3' ∷ [])) no_members)))
      (member a_key (object (member b_key (boolean true) no_members)) no_members))

abbrev layers : Overlay ℕ
layers = upper ∷ number 7 ∷ lower ∷ []

-- {b}-{c}
abbrev template : List Piece
template = placeholder b_key ∷ plain b'-' ∷ placeholder (b'c' ∷ []) ∷ []

templated_run :
    as_templated_string (string (written template) ∷ layers) (collect_params layers) []
    ≡ b'3' ∷ b'-' ∷ b'{' ∷ b'c' ∷ b'}' ∷ []
unfolding as_templated_string written collect_params is_object find find_member same_key same_text
    c_text collect_layer set_strings set_value set_param expand_template_string expand
    is_placeholder split_name is_name_char is_some_text starts_with_brace replacement get get_param
templated_run = refl

get-collect_params_example : get (collect_params layers) (some a_key) ≡ highest_param layers a_key
get-collect_params_example = get-collect_params layers a_key

child-merged_example : child layers (some a_key) ≡ merged (found layers a_key)
child-merged_example = child-merged layers a_key

template-is_template : is_template template ≡ true
unfolding is_template is_name is_some_text has_name_chars is_name_char
template-is_template = refl

expand_template_string-written_example :
    expand_template_string (some (written template)) (collect_params layers)
    ≡ filled (collect_params layers) template
expand_template_string-written_example =
    expand_template_string-written (collect_params layers) template template-is_template

-- ===== src/Json/Overlay/Params.antt =====
-- The parameters that layers give.
use qaiosplus.Base.{
  Bool, true, false, [], ◌∷◌, Option, none, some, if◌then◌else◌, ◌≡◌, refl, sym, ap, ◌∙◌,
  Bool-cases, inl, inr,
}
use qaiosplus.Files.Vfs.{Text, same_text}
use qaiosplus.Files.Vfs.Mounts.{same_text_self, same_text_eq}
use qaiosplus.Json.Tree.{
  Value, Members, null, boolean, number, string, object, array, no_members, member,
}
use qaiosplus.Json.Overlay.{
  Overlay, ParamMap, c_text, same_key, set_param, set_value, get_param, get, is_object, find,
  find_member, params_key, set_strings, collect_layer, collect_params,
}

same_key_self : (a : Text) → same_key a a ≡ true
unfolding same_key
same_key_self a = same_text_self (c_text a)

-- Keys that are the same for `strcmp` are so to all keys.
same_key-replaced : (a b c : Text) → same_key a b ≡ true → same_key a c ≡ same_key b c
unfolding same_key
same_key-replaced a b c h = ap (λ t. same_text t (c_text c)) (same_text_eq (c_text a) (c_text b) h)

same_key-replaced_right : (a b c : Text) → same_key a b ≡ true → same_key c a ≡ same_key c b
unfolding same_key
same_key-replaced_right a b c h =
    ap (λ t. same_text (c_text c) t) (same_text_eq (c_text a) (c_text b) h)

pub get_param-set_param :
    (m : ParamMap) (key other : Text) (v : Option Text)
    → get_param (set_param m key v) other ≡ (if same_key key other then v else get_param m other)
unfolding set_param get_param
get_param-set_param [] key other v = refl
get_param-set_param (e ∷ m) key other v = elim (Bool-cases (same_key e.key key)) [
  | inl here ↦ elim (Bool-cases (same_key key other)) [
    | inl same ↦ rw (here, same_key-replaced e.key key other here, same) refl
    | inr different ↦ rw (here, same_key-replaced e.key key other here, different) refl
  ]
  | inr away ↦ elim (Bool-cases (same_key key other)) [
    | inl same ↦
        rw
          (
            away,
            get_param-set_param m key other v,
            sym (same_key-replaced_right key other e.key same) ∙ away,
            same,
          )
          refl
    | inr different ↦ rw (away, get_param-set_param m key other v, different) refl
  ]
]

abbrev pub or_else {ℓ} : {A : Type ℓ} → Option A → Option A → Option A
or_else none b = b
or_else (some a) b = some a

-- The last text with the key among the entries of an object.
unfoldable pub last_string : {D : Type 0} → Members D → Text → Option Text
last_string no_members key = none
last_string (member k (string text) ms) key =
    or_else (last_string ms key) (if same_key k key then some text else none)
last_string (member k _ ms) key = last_string ms key

-- The parameter that a layer itself gives to a key.
unfoldable pub given : {D : Type 0} → Option (Value D) → Text → Option Text
given (some (object ms)) key = last_string ms key
given _ key = none

-- The parameter of the highest layer that gives one.
unfoldable pub highest_param : {D : Type 0} → Overlay D → Text → Option Text
highest_param [] key = none
highest_param (layer ∷ o) key =
    or_else (given (find layer (some params_key)) key) (highest_param o key)

or_else-if :
    (p : Option Text) (b : Bool) (text : Text) (q : Option Text)
    → or_else p (if b then some text else q) ≡ or_else (or_else p (if b then some text else none)) q
or_else-if none true text q = refl
or_else-if none false text q = refl
or_else-if (some t) b text q = refl

get_param-set_strings :
    {D : Type 0} (ms : Members D) (out : ParamMap) (key : Text)
    → get_param (set_strings ms out) key ≡ or_else (last_string ms key) (get_param out key)
unfolding set_strings set_value last_string
get_param-set_strings no_members out key = refl
get_param-set_strings (member k (string text) ms) out key =
    rw
      (
        get_param-set_strings ms (set_param out k (some text)) key,
        get_param-set_param out k key (some text),
      )
      (or_else-if (last_string ms key) (same_key k key) text (get_param out key))
get_param-set_strings (member k null ms) out key = get_param-set_strings ms out key
get_param-set_strings (member k (boolean b) ms) out key = get_param-set_strings ms out key
get_param-set_strings (member k (number n) ms) out key = get_param-set_strings ms out key
get_param-set_strings (member k (object os) ms) out key = get_param-set_strings ms out key
get_param-set_strings (member k (array vs) ms) out key = get_param-set_strings ms out key

get_param-collect_layer :
    {D : Type 0} (v : Option (Value D)) (out : ParamMap) (key : Text)
    → get_param (collect_layer v out) key ≡ or_else (given v key) (get_param out key)
unfolding collect_layer given
get_param-collect_layer none out key = refl
get_param-collect_layer (some null) out key = refl
get_param-collect_layer (some (boolean b)) out key = refl
get_param-collect_layer (some (number n)) out key = refl
get_param-collect_layer (some (string s)) out key = refl
get_param-collect_layer (some (object ms)) out key = get_param-set_strings ms out key
get_param-collect_layer (some (array vs)) out key = refl

-- A parameter that is collected from layers is the text that the object `params` of the highest layer
-- with a text for that key gives to it, the last one if it gives several; a key has no parameter if no
-- layer has a text for it.
pub get-collect_params :
    {D : Type 0} (o : Overlay D) (key : Text)
    → get (collect_params o) (some key) ≡ highest_param o key
unfolding get collect_params highest_param get_param is_object find given
get-collect_params [] key = refl
get-collect_params (object ms ∷ o) key =
    rw
      (
        get_param-collect_layer (find_member ms params_key) (collect_params o) key,
        get-collect_params o key,
      )
      refl
get-collect_params (null ∷ o) key = get-collect_params o key
get-collect_params (boolean b ∷ o) key = get-collect_params o key
get-collect_params (number n ∷ o) key = get-collect_params o key
get-collect_params (string s ∷ o) key = get-collect_params o key
get-collect_params (array vs ∷ o) key = get-collect_params o key

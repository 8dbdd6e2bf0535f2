-- ===== src/Json/Overlay/Layers.antt =====
-- The layers that the child of an overlay has.
use qaiosplus.Base.{
  not, [], ◌∷◌, ◌++◌, Option, none, some, if◌then◌else◌, ◌≡◌, refl, sym, ap₂, ◌∙◌, Bool-cases,
  Option-cases, inl, inr,
}
use mathlib.Core.List.{append-nil, append_assoc}
use qaiosplus.Files.Vfs.{Text}
use qaiosplus.Json.Tree.{Value, null, boolean, number, string, object, array}
use qaiosplus.Json.Overlay.{
  Overlay, is_object, find, find_member, add_layer, resolved, highest, add_object, merge_objects,
  child,
}

module _ {D : Type 0} where
  abbrev pub cons_some : Option (Value D) → Overlay D → Overlay D
  cons_some none vs = vs
  cons_some (some v) vs = v ∷ vs

  -- The values that the layers have for a key, from the highest layer on.
  unfoldable pub found : Overlay D → Text → Overlay D
  found [] key = []
  found (layer ∷ o) key = cons_some (find layer (some key)) (found o key)

  unfoldable pub objects : Overlay D → Overlay D
  objects [] = []
  objects (v ∷ vs) = if is_object v then v ∷ objects vs else objects vs

  -- The first value decides: an object is merged with the objects behind it, and any other value
  -- stands alone.
  unfoldable pub merged : Overlay D → Overlay D
  merged [] = []
  merged (v ∷ vs) = if is_object v then v ∷ objects vs else v ∷ []

  highest-found : (o : Overlay D) (key : Text) → highest o key ≡ resolved (found o key)
  unfolding highest resolved found is_object find
  highest-found [] key = refl
  highest-found (object ms ∷ o) key = elim (Option-cases (find_member ms key)) [
    | inl missing ↦ rw (missing, highest-found o key) refl
    | inr (v, there) ↦ rw there refl
  ]
  highest-found (null ∷ o) key = highest-found o key
  highest-found (boolean b ∷ o) key = highest-found o key
  highest-found (number n ∷ o) key = highest-found o key
  highest-found (string s ∷ o) key = highest-found o key
  highest-found (array vs ∷ o) key = highest-found o key

  add_object-objects :
      (result : Overlay D) (v : Option (Value D)) (vs : Overlay D)
      → add_object result v ++ objects vs ≡ result ++ objects (cons_some v vs)
  unfolding add_object add_layer objects
  add_object-objects result none vs = refl
  add_object-objects result (some v) vs = elim (Bool-cases (is_object v)) [
    | inl is ↦ rw is (append_assoc result (v ∷ []) (objects vs))
    | inr other ↦ rw other refl
  ]

  merge_objects-found :
      (o : Overlay D) (key : Text) (result : Overlay D)
      → merge_objects o key result ≡ result ++ objects (found o key)
  unfolding merge_objects found objects is_object find add_object
  merge_objects-found [] key result = sym (append-nil result)
  merge_objects-found (object ms ∷ o) key result =
      merge_objects-found o key (add_object result (find_member ms key))
      ∙ add_object-objects result (find_member ms key) (found o key)
  merge_objects-found (null ∷ o) key result = merge_objects-found o key result
  merge_objects-found (boolean b ∷ o) key result = merge_objects-found o key result
  merge_objects-found (number n ∷ o) key result = merge_objects-found o key result
  merge_objects-found (string s ∷ o) key result = merge_objects-found o key result
  merge_objects-found (array vs ∷ o) key result = merge_objects-found o key result

  merged-resolved :
      (vs : Overlay D)
      → (elim (resolved vs) [
        | none ↦ []
        | some v ↦ if not (is_object v) then v ∷ [] else objects vs
      ])
        ≡ merged vs
  unfolding merged resolved objects
  merged-resolved [] = refl
  merged-resolved (v ∷ vs) = elim (Bool-cases (is_object v)) [
    | inl is ↦ rw is refl
    | inr other ↦ rw other refl
  ]

  -- The child of an overlay for a key has the values that its layers have for that key, in their
  -- order: all that are objects if the first one is an object, and else only the first one.
  pub child-merged : (o : Overlay D) (key : Text) → child o (some key) ≡ merged (found o key)
  unfolding child add_layer
  child-merged o key =
      ap₂ (λ h m. elim h [ none ↦ [] | some v ↦ if not (is_object v) then v ∷ [] else m ])
        (highest-found o key) (merge_objects-found o key [])
      ∙ merged-resolved (found o key)

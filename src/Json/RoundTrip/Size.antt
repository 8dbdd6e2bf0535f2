-- ===== src/Json/RoundTrip/Size.antt =====
-- The text of a value is long enough for the fuel that its parsing takes.
use qaiosplus.Base.{
  ◌+◌, ◌*◌, ◌<◌, ◌≤◌, ◌≡◌, true, false, [], ◌∷◌, ◌++◌, length, Bool-cases, inl, inr, length-append,
  arith,
}
use qaiosplus.Json.Tree.{
  Value, Members, Elements, null, boolean, number, string, object, array, no_members, member,
  no_elements, element,
}
use qaiosplus.Json.Literal.{
  Literal, IsLiteral, is_whole, literal_onto, fraction_onto, exponent_onto,
}
use qaiosplus.Json.Scan.{literal_onto-append}
use qaiosplus.Json.Print.{
  quoted_onto, value_onto, members_onto, more_members_onto, elements_onto, more_elements_onto,
  IsDoc, IsDocMembers, IsDocElements, size, size_members, size_elements,
}
use qaiosplus.Json.RoundTrip.Strings.{length-characters_onto}
use qaiosplus.Json.Scanner.{Text}

length-gap : (g s : Text) → length s ≤ length (g ++ s)
length-gap g s = omega (arith, length-append g s)

length-whole : (s : Text) → is_whole s ≡ true → 0 < length s
length-whole [] h = ground (arith, h)
length-whole (c ∷ s) h = omega arith

length-literal_onto :
    (l : Literal) → IsLiteral l → (r : Text) → length r < length (literal_onto l r)
length-literal_onto l h r =
    let filled : 0 < length (literal_onto l []) = elim (Bool-cases l.negative) [
      | inl n ↦ rw n (omega arith)
      | inr n ↦ rw n (
          omega (
            arith,
            length-append l.whole
                (fraction_onto l.fraction (exponent_onto l.exp_negative l.exponent [])),
            length-whole l.whole h.whole_digits,
          ))
    ] in
    rw (literal_onto-append l r) (omega (arith, filled, length-append (literal_onto l []) r))

module _ (g : Text) where
  mutual
    unfolding value_onto members_onto more_members_onto elements_onto more_elements_onto size
        size_members size_elements IsDoc IsDocMembers IsDocElements

    pub length-value_onto :
        (v : Value Literal)
        → IsDoc v
        → (r : Text) → size v + 2 * length r ≤ 2 * length (value_onto g v r)
    length-value_onto null d r = omega arith
    length-value_onto (boolean true) d r = omega arith
    length-value_onto (boolean false) d r = omega arith
    length-value_onto (number l) d r = omega (arith, length-literal_onto l d r)
    length-value_onto (string s) d r = omega (arith, length-characters_onto s r)
    length-value_onto (object ms) d r =
        omega (arith, length-members_onto ms d r, length-gap g (members_onto g ms r))
    length-value_onto (array vs) d r =
        omega (arith, length-elements_onto vs d r, length-gap g (elements_onto g vs r))

    length-members_onto :
        (ms : Members Literal)
        → IsDocMembers ms
        → (r : Text) → size_members ms + 2 * length r ≤ 2 * length (members_onto g ms r) + 1
    length-members_onto no_members d r = omega arith
    length-members_onto (member key v ms) d r =
        let behind = g ++ more_members_onto g ms r in
        let value = value_onto g v behind in
        omega (
          arith,
          length-characters_onto key (g ++ (b':' ∷ (g ++ value))),
          length-gap g (b':' ∷ (g ++ value)),
          length-gap g value,
          length-value_onto v d.0 behind,
          length-gap g (more_members_onto g ms r),
          length-more_members_onto ms d.1 r,
        )

    length-more_members_onto :
        (ms : Members Literal)
        → IsDocMembers ms
        → (r : Text) → size_members ms + 2 * length r ≤ 2 * length (more_members_onto g ms r)
    length-more_members_onto no_members d r = omega arith
    length-more_members_onto (member key v ms) d r =
        let behind = g ++ more_members_onto g ms r in
        let value = value_onto g v behind in
        let entry = g ++ (b':' ∷ (g ++ value)) in
        omega (
          arith,
          length-gap g (quoted_onto key entry),
          length-characters_onto key entry,
          length-gap g (b':' ∷ (g ++ value)),
          length-gap g value,
          length-value_onto v d.0 behind,
          length-gap g (more_members_onto g ms r),
          length-more_members_onto ms d.1 r,
        )

    length-elements_onto :
        (vs : Elements Literal)
        → IsDocElements vs
        → (r : Text) → size_elements vs + 2 * length r ≤ 2 * length (elements_onto g vs r) + 1
    length-elements_onto no_elements d r = omega arith
    length-elements_onto (element v vs) d r =
        let behind = g ++ more_elements_onto g vs r in
        omega (
          arith,
          length-value_onto v d.0 behind,
          length-gap g (more_elements_onto g vs r),
          length-more_elements_onto vs d.1 r,
        )

    length-more_elements_onto :
        (vs : Elements Literal)
        → IsDocElements vs
        → (r : Text) → size_elements vs + 2 * length r ≤ 2 * length (more_elements_onto g vs r)
    length-more_elements_onto no_elements d r = omega arith
    length-more_elements_onto (element v vs) d r =
        let behind = g ++ more_elements_onto g vs r in
        omega (
          arith,
          length-gap g (value_onto g v behind),
          length-value_onto v d.0 behind,
          length-gap g (more_elements_onto g vs r),
          length-more_elements_onto vs d.1 r,
        )

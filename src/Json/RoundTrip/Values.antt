-- ===== src/Json/RoundTrip/Values.antt =====
-- The parser reads the text of a value back, with blanks in front and text behind.
use qaiosplus.Base.{
  ℕ, zero, suc, ◌+◌, ◌*◌, ◌<◌, ◌≤◌, ◌≡◌, refl, ◌∙◌, Bool, true, false, ◌||◌, [], ◌∷◌, ◌++◌, Option,
  none, some, ◌==◌, length, Bool-cases, inl, inr, length-append, arith,
}
use qaiosplus.Json.Number.{Arithmetic, is_digit}
use qaiosplus.Json.Tree.{
  Value, Members, Elements, null, boolean, number, string, object, array, no_members, member,
  no_elements, element,
}
use qaiosplus.Json.Literal.{Literal, IsLiteral, is_whole, is_stop, literal_onto}
use qaiosplus.Json.Print.{
  all_blank, value_onto, members_onto, more_members_onto, elements_onto, more_elements_onto, print,
  IsDoc, is_text, IsDocMembers, IsDocElements, size, size_members, size_elements, numbers,
  numbers_members, numbers_elements,
}
use qaiosplus.Json.Scan.{parse_number-onto}
use qaiosplus.Json.RoundTrip.Strings.{
  is_solid, is_stop-gap, is_stop-blank, skip_blanks-blank, skip_blanks-gap,
  parse_string_raw-quoted_onto,
}
use qaiosplus.Json.RoundTrip.Size.{length-value_onto}
use qaiosplus.Json.RoundTrip.Steps.{
  at, starts_value, starts_value-is_solid, starts_value_open, parse_literal-append,
  parse_elements-last, parse_elements-more, parse_members-last, parse_members-more,
}
use qaiosplus.Json.Scanner.{Text, Error, State, Outcome, done, expect_in, is_next}
use qaiosplus.Json.{
  parse_number, parse_string, parse_array, parse_object, kind_of, value_at, parse_kind, parse_value,
  parse_members, parse_elements, number_start, parse_root, parse,
}

starts_number : Text → Bool
starts_number [] = false
starts_number (c ∷ s) = (c == b'-') || is_digit c

whole-starts_number : (s r : Text) → is_whole s ≡ true → starts_number (s ++ r) ≡ true
unfolding starts_number
whole-starts_number [] r h = ground (arith, h)
whole-starts_number (c ∷ s) r h = ground (arith, h)

literal_onto-starts_number :
    (l : Literal) → IsLiteral l → (r : Text) → starts_number (literal_onto l r) ≡ true
unfolding starts_number
literal_onto-starts_number l h r = elim (Bool-cases l.negative) [
  | inl n ↦ rw n refl
  | inr n ↦ rw n (whole-starts_number l.whole _ h.whole_digits)
]

starts_number_value : (s : Text) → starts_number s ≡ true → starts_value s ≡ true
unfolding starts_number
starts_number_value [] h = ground (arith, h)
starts_number_value (c ∷ s) h = ground (arith, h)

value_onto-starts_value :
    (g : Text) (v : Value Literal) → IsDoc v → (r : Text) → starts_value (value_onto g v r) ≡ true
unfolding value_onto IsDoc
value_onto-starts_value g null d r = refl
value_onto-starts_value g (boolean true) d r = refl
value_onto-starts_value g (boolean false) d r = refl
value_onto-starts_value g (number l) d r = starts_number_value _ (literal_onto-starts_number l d r)
value_onto-starts_value g (string s) d r = refl
value_onto-starts_value g (object ms) d r = refl
value_onto-starts_value g (array vs) d r = refl

elements_onto-is_solid :
    (g : Text) (vs : Elements Literal)
    → IsDocElements vs
    → (r : Text) → is_solid (elements_onto g vs r) ≡ true
unfolding elements_onto IsDocElements
elements_onto-is_solid g no_elements d r = refl
elements_onto-is_solid g (element v vs) d r =
    let behind = g ++ more_elements_onto g vs r in
    starts_value-is_solid (value_onto g v behind) (value_onto-starts_value g v d.0 behind)

size_positive : (v : Value Literal) → 0 < size v
unfolding size
size_positive null = omega arith
size_positive (boolean b) = omega arith
size_positive (number l) = omega arith
size_positive (string s) = omega arith
size_positive (object ms) = omega arith
size_positive (array vs) = omega arith

module _ {D : Type 0} (arithmetic : Arithmetic D) where
  value_at-number :
      (members : State → Outcome (Members D)) (elements : State → Outcome (Elements D)) (s : Text)
      (e : Option Error)
      → starts_number s ≡ true
      → value_at arithmetic members elements s e ≡ parse_number arithmetic (at s e)
  unfolding starts_number value_at kind_of parse_kind
  value_at-number members elements [] e h = ground (arith, h)
  value_at-number members elements (c ∷ s) e h =
      let kind : kind_of c ≡ number_start = ground (arith, h) in rw (value_at, kind) refl

  module _ (g : Text) (blank : all_blank g ≡ true) where
    parse_value-gap :
        (f : ℕ) (v : Value Literal)
        → IsDoc v
        → (b r : Text) (e : Option Error) → all_blank b ≡ true
        → parse_value arithmetic (suc f) (at (b ++ value_onto g v r) e)
          ≡ value_at arithmetic
              (λ q. parse_members arithmetic f q)
              (λ q. parse_elements arithmetic f q)
              (value_onto g v r)
              e
    unfolding parse_value
    parse_value-gap f v d b r e before =
        rw
          (
            parse_value,
            skip_blanks-gap b (value_onto g v r) before
                (starts_value-is_solid (value_onto g v r) (value_onto-starts_value g v d r)),
          )
          refl

    mutual
      unfolding parse_value value_at kind_of parse_kind parse_string parse_object parse_array
          expect_in is_next value_onto members_onto more_members_onto elements_onto
          more_elements_onto size size_members size_elements IsDoc IsDocMembers IsDocElements
          numbers numbers_members numbers_elements

      parse_value-onto :
          (f : ℕ) (v : Value Literal)
          → IsDoc v
          → size v ≤ f
          → (b r : Text) (e : Option Error) → all_blank b ≡ true
          → is_stop r ≡ true
          → parse_value arithmetic f (at (b ++ value_onto g v r) e)
            ≡ done (numbers arithmetic v) (at r e)
      parse_value-onto zero v d h b r e before stop = absurd (omega (arith, h, size_positive v))
      parse_value-onto (suc f) null d h b r e before stop =
          parse_value-gap f null d b r e before
          ∙ parse_literal-append arithmetic (b'n' ∷ b'u' ∷ b'l' ∷ b'l' ∷ []) null r e
      parse_value-onto (suc f) (boolean true) d h b r e before stop =
          parse_value-gap f (boolean true) d b r e before
          ∙ parse_literal-append arithmetic (b't' ∷ b'r' ∷ b'u' ∷ b'e' ∷ []) (boolean true) r e
      parse_value-onto (suc f) (boolean false) d h b r e before stop =
          parse_value-gap f (boolean false) d b r e before
          ∙ parse_literal-append arithmetic (b'f' ∷ b'a' ∷ b'l' ∷ b's' ∷ b'e' ∷ []) (boolean false)
              r e
      parse_value-onto (suc f) (number l) d h b r e before stop =
          parse_value-gap f (number l) d b r e before
          ∙ value_at-number _ _ (literal_onto l r) e (literal_onto-starts_number l d r)
          ∙ parse_number-onto arithmetic l d r stop e
      parse_value-onto (suc f) (string s) d h b r e before stop =
          parse_value-gap f (string s) d b r e before ∙ rw (parse_string_raw-quoted_onto s r e) refl
      parse_value-onto (suc f) (object no_members) d h b r e before stop =
          parse_value-gap f (object no_members) d b r e before
          ∙ rw (skip_blanks-gap g (b'}' ∷ r) blank refl) refl
      parse_value-onto (suc f) (object (member key v ms)) d h b r e before stop =
          parse_value-gap f (object (member key v ms)) d b r e before
          ∙ rw
              (
                skip_blanks-gap g (members_onto g (member key v ms) r) blank refl,
                parse_members-onto f key v ms d.0 d.1 (omega (arith, h)) r e,
              )
              refl
      parse_value-onto (suc f) (array no_elements) d h b r e before stop =
          parse_value-gap f (array no_elements) d b r e before
          ∙ rw (skip_blanks-gap g (b']' ∷ r) blank refl) refl
      parse_value-onto (suc f) (array (element v vs)) d h b r e before stop =
          parse_value-gap f (array (element v vs)) d b r e before
          ∙ rw
              (
                skip_blanks-gap g (elements_onto g (element v vs) r) blank
                    (elements_onto-is_solid g (element v vs) d r),
                starts_value_open (value_onto g v (g ++ more_elements_onto g vs r))
                    (value_onto-starts_value g v d.0 (g ++ more_elements_onto g vs r)),
                parse_elements-onto f v vs d.0 d.1 (omega (arith, h)) r e,
              )
              refl

      parse_members-onto :
          (f : ℕ) (key : Text) (v : Value Literal) (ms : Members Literal)
          → IsDoc v
          → IsDocMembers ms
          → size_members (member key v ms) ≤ f
          → (r : Text) (e : Option Error)
          → parse_members arithmetic f (at (members_onto g (member key v ms) r) e)
            ≡ done (numbers_members arithmetic (member key v ms)) (at r e)
      parse_members-onto zero key v ms d more h r e = absurd (omega (arith, h))
      parse_members-onto (suc f) key v no_members d more h r e =
          parse_members-last arithmetic g blank f key _ (numbers arithmetic v) r e (
            parse_value-onto f v d (omega (arith, h)) g _ e blank
              (is_stop-gap g (b'}' ∷ r) blank refl))
      parse_members-onto (suc f) key v (member k w ms) d more h r e =
          parse_members-more arithmetic g blank f key _ (numbers arithmetic v)
            (members_onto g (member k w ms) r) _ _ e
            (parse_value-onto f v d (omega (arith, h)) g _ e blank
              (is_stop-gap g (more_members_onto g (member k w ms) r) blank refl))
            refl (parse_members-onto f k w ms more.0 more.1 (omega (arith, h)) r e)

      parse_elements-onto :
          (f : ℕ) (v : Value Literal) (vs : Elements Literal)
          → IsDoc v
          → IsDocElements vs
          → size_elements (element v vs) ≤ f
          → (r : Text) (e : Option Error)
          → parse_elements arithmetic f (at (elements_onto g (element v vs) r) e)
            ≡ done (numbers_elements arithmetic (element v vs)) (at r e)
      parse_elements-onto zero v vs d more h r e = absurd (omega (arith, h))
      parse_elements-onto (suc f) v no_elements d more h r e =
          parse_elements-last arithmetic g blank f _ (numbers arithmetic v) r e (
            parse_value-onto f v d (omega (arith, h)) [] _ e refl
              (is_stop-gap g (b']' ∷ r) blank refl))
      parse_elements-onto (suc f) v (element w vs) d more h r e =
          parse_elements-more arithmetic g blank f _ (numbers arithmetic v)
            (elements_onto g (element w vs) r) _ _ e
            (parse_value-onto f v d (omega (arith, h)) [] _ e refl
              (is_stop-gap g (more_elements_onto g (element w vs) r) blank refl))
            (elements_onto-is_solid g (element w vs) more r)
            (parse_elements-onto f w vs more.0 more.1 (omega (arith, h)) r e)

    -- What is printed with any blanks in its gaps is parsed to the value with the numbers that its
    -- literals stand for, with no error and no text left. The digits of each exponent stand for a number
    -- below 2 ^ 31, and no string and no key has the character 0.
    pub parse-print :
        (v : Value Literal)
        → IsDoc v
        → is_text v ≡ true
        → parse arithmetic (some (print g v))
          ≡ done (numbers arithmetic v) (record { rest = []; error = none })
    unfolding parse parse_root
    parse-print v d plain =
        let front = value_onto-starts_value g v d g in
        let enough : size v ≤ 2 * length (print g v) + 1 =
          omega (arith, length-append g (value_onto g v g), length-value_onto g v d g) in
        rw
          (
            parse_root,
            skip_blanks-gap g (value_onto g v g) blank
                (starts_value-is_solid (value_onto g v g) front),
            parse_value-onto (2 * length (print g v) + 1) v d enough [] g none refl
                (is_stop-blank g blank),
            skip_blanks-blank g blank,
          )
          refl

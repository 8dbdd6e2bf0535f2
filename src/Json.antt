-- ===== src/Json.antt =====
-- The parser of JSON, QCSerialization/src/QCJson.cpp, over the characters that are left of the text.
-- Values are trees: who owns the memory of their parts is not modelled, nor what a value holds after
-- its parsing has failed. `double` and its operations are the argument `arithmetic`.
pub mod Number
pub mod Tree
pub mod Scanner
pub mod Ends
pub mod Total
pub mod Literal
pub mod Print
pub mod Scan
pub mod RoundTrip
pub mod Overlay
mod Tests
use qaiosplus.Base.{
  ℕ, zero, suc, ◌+◌, ◌-◌, ◌*◌, Bool, true, false, not, ◌&&◌, ◌||◌, List, [], ◌∷◌, ◌++◌, Option,
  none, some, ltb, leb, ◌==◌, if◌then◌else◌, length, take, drop, u16,
}
use qaiosplus.Json.Number.{Arithmetic, is_digit, number_of}
use qaiosplus.Json.Tree.{
  Value, Members, Elements, null, boolean, number, string, object, array, no_members, member,
  no_elements, element,
}
use qaiosplus.Json.Scanner.{
  Error, Outcome, State, Text, advance, append_unicode_escape, bind, collect, decode_hex, done,
  expect, expect_in, expected_colon, expected_string, expected_value, fail, failed, invalid_literal,
  invalid_number, invalid_unicode, is_blank, is_literal, is_next, out_of_fuel, parse_string_raw,
  scan_digits, scan_exponent, scan_fraction, scan_number, scan_unsigned, scan_whole, set_error,
  skip_blanks, skip_digits, skip_sign, skip_whitespace, starts_digit, trailing_content, unescape,
  unexpected_char, unexpected_eof, with_error,
}

-- What `parseValue` switches on.
pub data Kind : Type 0 where
  object_start array_start string_start true_start false_start null_start number_start : Kind
  no_value : Kind

unfoldable pub kind_of : ℕ → Kind
kind_of c =
    if c == b'{'
    then object_start
    else (if c == b'['
        then array_start
        else (if c == b'"'
            then string_start
            else (if c == b't'
                then true_start
                else (if c == b'f'
                    then false_start
                    else (if c == b'n'
                        then null_start
                        else (if (c == b'-') || is_digit c then number_start else no_value))))))

module _ {D : Type 0} (arithmetic : Arithmetic D) where
  unfoldable pub parse_literal : Text → Value D → State → Outcome (Value D)
  parse_literal literal v p =
      if ltb (length p.rest) (length literal)
      then fail unexpected_eof p
      else (if is_literal literal p.rest
          then done v (record p { rest = drop (length literal) p.rest })
          else fail invalid_literal p)

  unfoldable pub parse_number : State → Outcome (Value D)
  parse_number p = bind (scan_number p) λ _ q.
      elim (number_of arithmetic (take (length p.rest - length q.rest) p.rest)) [
        | none ↦ fail invalid_number q
        | some value ↦ done (number value) q
      ]

  unfoldable pub parse_string : State → Outcome (Value D)
  parse_string p = bind (parse_string_raw p) λ text q. done (string text) q

  -- The loops of `parseObject` and `parseArray` are arguments here, since they call back.
  unfoldable pub parse_object : (State → Outcome (Members D)) → State → Outcome (Value D)
  parse_object loop p = bind (expect b'{' p) λ _ q.
      let inside = skip_whitespace q in
      let members = bind (loop inside) λ ms r. done (object ms) r in
      if is_next b'}' inside.rest then done (object no_members) (advance inside) else members

  unfoldable pub parse_array : (State → Outcome (Elements D)) → State → Outcome (Value D)
  parse_array loop p = bind (expect b'[' p) λ _ q.
      let inside = skip_whitespace q in
      let elements = bind (loop inside) λ vs r. done (array vs) r in
      if is_next b']' inside.rest then done (array no_elements) (advance inside) else elements

  -- The cases of the switch.
  unfoldable pub parse_kind :
      Kind
      → (State → Outcome (Members D))
      → (State → Outcome (Elements D))
      → State
      → Outcome (Value D)
  parse_kind object_start members elements p = parse_object members p
  parse_kind array_start members elements p = parse_array elements p
  parse_kind string_start members elements p = parse_string p
  parse_kind true_start members elements p =
      parse_literal (b't' ∷ b'r' ∷ b'u' ∷ b'e' ∷ []) (boolean true) p
  parse_kind false_start members elements p =
      parse_literal (b'f' ∷ b'a' ∷ b'l' ∷ b's' ∷ b'e' ∷ []) (boolean false) p
  parse_kind null_start members elements p = parse_literal (b'n' ∷ b'u' ∷ b'l' ∷ b'l' ∷ []) null p
  parse_kind number_start members elements p = parse_number p
  parse_kind no_value members elements p = fail expected_value p

  unfoldable pub value_at :
      (State → Outcome (Members D))
      → (State → Outcome (Elements D))
      → Text
      → Option Error
      → Outcome (Value D)
  value_at members elements [] e = fail unexpected_eof (record { rest = []; error = e })
  value_at members elements (c ∷ s) e =
      parse_kind (kind_of c) members elements (record { rest = c ∷ s; error = e })

  -- Each call of `parseValue` and each round of the two loops costs fuel.
  unfoldable mutual
    pub parse_value : ℕ → State → Outcome (Value D)
    parse_value zero p = out_of_fuel
    parse_value (suc f) p =
        value_at (λ q. parse_members f q) (λ q. parse_elements f q) (skip_blanks p.rest) p.error

    pub parse_members : ℕ → State → Outcome (Members D)
    parse_members zero p = out_of_fuel
    parse_members (suc f) p = bind (parse_string_raw p) λ key q.
        bind (with_error expected_colon (expect b':' (skip_whitespace q))) λ _ r.
          bind (parse_value f r) λ v t.
            let behind = skip_whitespace t in
            let more =
              bind (expect b',' behind) λ _ u.
                bind (parse_members f (skip_whitespace u)) λ ms w. done (member key v ms) w in
            if is_next b'}' behind.rest
            then done (member key v no_members) (advance behind)
            else more

    pub parse_elements : ℕ → State → Outcome (Elements D)
    parse_elements zero p = out_of_fuel
    parse_elements (suc f) p = bind (parse_value f p) λ v q.
        let behind = skip_whitespace q in
        let more =
          bind (expect b',' behind)
            λ _ r. bind (parse_elements f (skip_whitespace r)) λ vs t. done (element v vs) t in
        if is_next b']' behind.rest then done (element v no_elements) (advance behind) else more

  unfoldable pub parse_root : ℕ → State → Outcome (Value D)
  parse_root f p = bind (parse_value f (skip_whitespace p)) λ v q.
      let behind = skip_whitespace q in
      if length behind.rest == 0 then done v behind else fail trailing_content behind

  -- A null text is `none`. Twice as much fuel as characters is enough.
  unfoldable pub parse : Option Text → Outcome (Value D)
  parse none = fail expected_value (record { rest = []; error = none })
  parse (some text) = parse_root (2 * length text + 1) (record { rest = text; error = none })

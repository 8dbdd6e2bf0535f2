-- ===== src/Json/Tests.antt =====
-- Runs of the parser.
use qaiosplus.Base.{ℕ, ◌+◌, ◌*◌, ◌/◌, ◌≡◌, refl, arith, true, false, List, [], ◌∷◌, none, some}
use qaiosplus.Json.Number.{
  Arithmetic, exponent_from, finish, fraction_from, number_of, power, rounds_of, scale,
  signed_exponent, unsigned_of, whole_from, with_exponent, with_fraction,
}
use qaiosplus.Json.Literal.{Literal, IsLiteral}
use qaiosplus.Json.Print.{
  print, IsDoc, IsDocMembers, IsDocElements, is_text, is_text_members, is_text_elements, numbers,
}
use qaiosplus.Json.Total.{Ended, parse-Ended}
use qaiosplus.Json.RoundTrip.Values.{parse-print}
use qaiosplus.Json.Tree.{
  Value, null, boolean, number, string, object, array, no_members, member, no_elements, element,
}
use qaiosplus.Json.Scanner.{
  done, skip_blanks, expect_in, is_next, scan_number, scan_unsigned, scan_whole, starts_digit,
  scan_fraction, skip_digits, scan_exponent, append_unicode_escape, collect, decode_hex, is_literal,
  parse_string_raw, scan_digits, unescape,
}
use qaiosplus.Json.{
  parse, parse_root, parse_value, value_at, kind_of, parse_array, parse_number, parse_literal,
  parse_object, parse_string, parse_kind, parse_members, parse_elements,
}

abbrev naturals : Arithmetic ℕ
naturals = record {
  of_digit = λ n. n;
  plus = λ a b. a + b;
  times = λ a b. a * b;
  over = λ a b. a / b;
  negate = λ a. a;
  ten = 10;
  place = 0;
}

-- [12, {"a\n": true}]
abbrev sample : List ℕ
sample =
    b'[' ∷ b'1' ∷ b'2' ∷ b',' ∷ b' ' ∷ b'{' ∷ b'"' ∷ b'a' ∷ b'\\' ∷ b'n' ∷ b'"' ∷ b':' ∷ b' ' ∷ b't'
    ∷ b'r' ∷ b'u' ∷ b'e' ∷ b'}' ∷ b']' ∷ []

sample_run :
    parse naturals (some sample)
    ≡ done
        (array (
          element
            (number 12)
            (element (object (member (b'a' ∷ 10 ∷ []) (boolean true) no_members)) no_elements)))
        (record { rest = []; error = none })
unfolding parse parse_root parse_value value_at skip_blanks kind_of parse_array expect_in is_next
    parse_number scan_number scan_unsigned scan_whole starts_digit scan_fraction skip_digits
    scan_exponent exponent_from rounds_of finish fraction_from number_of power scale signed_exponent
    unsigned_of whole_from with_exponent with_fraction append_unicode_escape collect decode_hex
    is_literal parse_literal parse_object parse_string parse_string_raw scan_digits unescape
    parse_kind parse_members parse_elements
sample_run = refl

parse-Ended_example : Ended (parse naturals (some sample))
parse-Ended_example = parse-Ended naturals (some sample)

-- -12.5e3
abbrev literal : Literal
literal = record {
  negative = true;
  whole = b'1' ∷ b'2' ∷ [];
  fraction = b'5' ∷ [];
  exp_negative = false;
  exponent = b'3' ∷ [];
}

literal-IsLiteral : IsLiteral literal
literal-IsLiteral = record {
  whole_digits = refl;
  fraction_digits = refl;
  exponent_digits = refl;
  exponent_bound = omega arith;
}

abbrev document : Value Literal
document = object (
    member (b'"' ∷ b'k' ∷ []) (array (element (number literal) (element null no_elements)))
      (member [] (string (b'\\' ∷ [])) no_members))

document-IsDoc : IsDoc document
unfolding IsDoc IsDocMembers IsDocElements
document-IsDoc = ((literal-IsLiteral, (tt, tt)), (tt, tt))

abbrev gap : List ℕ
gap = b' ' ∷ b'\n' ∷ []

document-is_text : is_text document ≡ true
unfolding is_text is_text_members is_text_elements
document-is_text = refl

parse-print_example :
    parse naturals (some (print gap document))
    ≡ done (numbers naturals document) (record { rest = []; error = none })
parse-print_example = parse-print naturals gap refl document document-IsDoc document-is_text

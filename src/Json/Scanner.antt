-- ===== src/Json/Scanner.antt =====
-- What is left of a text, strings and the scanning of numbers, QCSerialization/src/QCJson.cpp.
use qaiosplus.Base.{
  ℕ, zero, suc, ◌+◌, ◌-◌, ◌*◌, Bool, true, false, ◌&&◌, ◌||◌, List, [], ◌∷◌, Option, none, some,
  ltb, leb, ◌==◌, if◌then◌else◌, length, drop, u16,
}
use qaiosplus.Json.Number.{is_digit}

abbrev pub Text : Type 0
Text = List ℕ

pub data Error : Type 0 where
  unexpected_eof invalid_number invalid_literal expected_colon expected_string : Error
  expected_value trailing_content unexpected_char invalid_unicode : Error

-- The text from `m_pos` on, and `m_error`.
pub record State : Type 0 where
  pub rest : Text
  pub error : Option Error

-- The results `true` and `false`; a loop that has used up its fuel has no result.
pub data Outcome {ℓ} (A : Type ℓ) : Type ℓ where
  done : A → State → Outcome A
  failed : State → Outcome A
  out_of_fuel : Outcome A

abbrev pub bind {ℓ κ} : {A : Type ℓ} {B : Type κ} → Outcome A → (A → State → Outcome B) → Outcome B
bind (done a p) k = k a p
bind (failed p) k = failed p
bind out_of_fuel k = out_of_fuel

-- The first error stays.
abbrev pub set_error : Error → State → State
set_error e p = record p { error = elim p.error [ none ↦ some e | some first ↦ some first ] }

abbrev pub fail {ℓ} : {A : Type ℓ} → Error → State → Outcome A
fail e p = failed (set_error e p)

abbrev pub with_error {ℓ} : {A : Type ℓ} → Error → Outcome A → Outcome A
with_error e (done a p) = done a p
with_error e (failed p) = fail e p
with_error e out_of_fuel = out_of_fuel

abbrev pub is_blank : ℕ → Bool
is_blank c = (c == b' ') || (c == b'\t') || (c == b'\n') || (c == b'\r')

unfoldable pub skip_blanks : Text → Text
skip_blanks [] = []
skip_blanks (c ∷ s) = let rest = skip_blanks s in if is_blank c then rest else c ∷ s

abbrev pub skip_whitespace : State → State
skip_whitespace p = record p { rest = skip_blanks p.rest }

unfoldable pub expect_in : ℕ → Text → Option Error → Outcome (Unit {0})
expect_in c [] e = fail unexpected_eof (record { rest = []; error = e })
expect_in c (d ∷ s) e =
    if d == c
    then done tt (record { rest = s; error = e })
    else fail unexpected_char (record { rest = d ∷ s; error = e })

abbrev pub expect : ℕ → State → Outcome (Unit {0})
expect c p = expect_in c p.rest p.error

-- `match`: whether the next character is `c`; it is consumed then.
unfoldable pub is_next : ℕ → Text → Bool
is_next c [] = false
is_next c (d ∷ s) = d == c

abbrev pub advance : State → State
advance p = record p { rest = drop 1 p.rest }

unfoldable pub decode_hex : ℕ → Option ℕ
decode_hex c =
    if leb b'0' c && leb c b'9'
    then some (c - b'0')
    else (if leb b'a' c && leb c b'f'
        then some (10 + (c - b'a'))
        else (if leb b'A' c && leb c b'F' then some (10 + (c - b'A')) else none))

-- The loop of `appendUnicodeEscape`: the digits left, and the code, whose lowest four bits are 0 where
-- a digit is joined to it.
unfoldable pub hex_digits : ℕ → ℕ → Text → Option Error → Outcome ℕ
hex_digits zero code s e = done code (record { rest = s; error = e })
hex_digits (suc n) code [] e = failed (record { rest = []; error = e })
hex_digits (suc n) code (c ∷ s) e = elim (decode_hex c) [
  | none ↦ fail invalid_unicode (record { rest = s; error = e })
  | some v ↦ hex_digits n (u16 (code * 16 + v)) s e
]

-- The character that is appended.
unfoldable pub append_unicode_escape : State → Outcome ℕ
append_unicode_escape p =
    if ltb (length p.rest) 4
    then fail unexpected_eof p
    else bind (hex_digits 4 0 p.rest p.error) λ code q. done (if leb code 127 then code else b'?') q

unfoldable pub unescape : ℕ → ℕ
unescape c =
    if c == b'b'
    then 8
    else (if c == b'f'
        then 12
        else (if c == b'n' then 10 else (if c == b'r' then 13 else (if c == b't' then 9 else c))))

-- The loop of `parseStringRaw`, and the characters of its buffer.
unfoldable pub collect : ℕ → Text → Option Error → Outcome Text
collect zero s e = out_of_fuel
collect (suc f) [] e = fail unexpected_eof (record { rest = []; error = e })
collect (suc f) (c ∷ []) e =
    if c == b'"'
    then done [] (record { rest = []; error = e })
    else fail unexpected_eof (record { rest = []; error = e })
collect (suc f) (c ∷ d ∷ s) e =
    let plain = bind (collect f (d ∷ s) e) λ text q. done (c ∷ text) q in
    let escaped = bind (collect f s e) λ text q. done (unescape d ∷ text) q in
    let coded =
      bind (append_unicode_escape (record { rest = s; error = e }))
        λ code p. bind (collect f p.rest p.error) λ text q. done (code ∷ text) q in
    if c == b'"'
    then done [] (record { rest = d ∷ s; error = e })
    else (if c == b'\\' then (if d == b'u' then coded else escaped) else plain)

unfoldable pub parse_string_raw : State → Outcome Text
parse_string_raw p =
    bind (with_error expected_string (expect b'"' p))
      λ _ q. collect (suc (length q.rest)) q.rest q.error

unfoldable pub is_literal : Text → Text → Bool
is_literal [] s = true
is_literal (c ∷ literal) [] = false
is_literal (c ∷ literal) (d ∷ s) = (d == c) && is_literal literal s

unfoldable pub skip_digits : Text → Text
skip_digits [] = []
skip_digits (c ∷ s) = let rest = skip_digits s in if is_digit c then rest else c ∷ s

unfoldable pub starts_digit : Text → Bool
starts_digit [] = false
starts_digit (c ∷ s) = is_digit c

-- The digits that must stand after a point and after an exponent's letter and sign.
unfoldable pub scan_digits : State → Outcome (Unit {0})
scan_digits p =
    if starts_digit p.rest
    then done tt (record p { rest = skip_digits p.rest })
    else fail invalid_number p

unfoldable pub scan_whole : State → Outcome (Unit {0})
scan_whole p =
    if is_next b'0' p.rest
    then done tt (advance p)
    else (if starts_digit p.rest
        then done tt (record p { rest = skip_digits p.rest })
        else fail invalid_number p)

unfoldable pub scan_fraction : State → Outcome (Unit {0})
scan_fraction p = if is_next b'.' p.rest then scan_digits (advance p) else done tt p

abbrev pub skip_sign : State → State
skip_sign p = if is_next b'+' p.rest || is_next b'-' p.rest then advance p else p

unfoldable pub scan_exponent : State → Outcome (Unit {0})
scan_exponent p =
    if is_next b'e' p.rest || is_next b'E' p.rest
    then scan_digits (skip_sign (advance p))
    else done tt p

-- The literal behind its sign.
unfoldable pub scan_unsigned : State → Outcome (Unit {0})
scan_unsigned p =
    if length p.rest == 0
    then fail unexpected_eof p
    else (bind (scan_whole p) λ _ q. bind (scan_fraction q) λ _ r. scan_exponent r)

unfoldable pub scan_number : State → Outcome (Unit {0})
scan_number p = scan_unsigned (if is_next b'-' p.rest then advance p else p)

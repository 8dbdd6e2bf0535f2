-- ===== src/Json/Scan.antt =====
-- The scanner of numbers at the text of a literal, with more text behind it.
use qaiosplus.Base.{
  ℕ, ◌-◌, ◌≡◌, refl, sym, ap, ◌∙◌, ◌∙◌, Bool, true, false, ◌||◌, [], ◌∷◌, ◌++◌, Option, none, some,
  ◌==◌, length, take, Bool-cases, inl, inr, length-append, arith,
}
use mathlib.Core.List.{append_assoc}
use qaiosplus.Json.Number.{Arithmetic, is_digit, number_of}
use qaiosplus.Json.Tree.{number}
use qaiosplus.Json.Literal.{
  Literal, IsLiteral, all_digits, is_whole, is_stop, no_digit, fraction_onto, exponent_onto,
  unsigned_onto, literal_onto, meaning, no_digit-exponent_onto, no_digit-fraction_onto,
  all_digits-whole, number_of-literal_onto,
}
use qaiosplus.Json.Scanner.{
  Text, Error, State, done, is_next, skip_digits, starts_digit, scan_digits, scan_whole,
  scan_fraction, scan_exponent, scan_unsigned, scan_number, fail, invalid_number,
}
use qaiosplus.Json.{parse_number}

skip_digits-append :
    (s r : Text) → all_digits s ≡ true → no_digit r ≡ true → skip_digits (s ++ r) ≡ r
unfolding skip_digits
skip_digits-append [] [] h n = refl
skip_digits-append [] (c ∷ r) h n =
    let other : is_digit c ≡ false = ground (arith, n) in rw (skip_digits, other) refl
skip_digits-append (c ∷ s) r h n =
    let digit : is_digit c ≡ true = ground (arith, h) in
    let more : all_digits s ≡ true = ground (arith, h) in
    rw (skip_digits, digit) (skip_digits-append s r more n)

scan_digits-append :
    (d : ℕ) (s r : Text) (e : Option Error)
    → all_digits (d ∷ s) ≡ true
    → no_digit r ≡ true
    → scan_digits (record { rest = (d ∷ s) ++ r; error = e })
      ≡ done tt (record { rest = r; error = e })
unfolding scan_digits starts_digit
scan_digits-append d s r e h n =
    let digit : is_digit d ≡ true = ground (arith, h) in
    rw (scan_digits, starts_digit, digit, skip_digits-append (d ∷ s) r h n) refl

scan_whole-append :
    (s r : Text) (e : Option Error)
    → is_whole s ≡ true
    → no_digit r ≡ true
    → scan_whole (record { rest = s ++ r; error = e }) ≡ done tt (record { rest = r; error = e })
unfolding scan_whole is_next starts_digit
scan_whole-append [] r e h n = ground (arith, h)
scan_whole-append (c ∷ []) r e h n =
    let digit : is_digit c ≡ true = ground (arith, h) in
    elim (Bool-cases (c == b'0')) [
      | inl z ↦ rw (scan_whole, is_next, z) refl
      | inr z ↦
          rw
            (
              scan_whole,
              is_next,
              z,
              starts_digit,
              digit,
              skip_digits-append (c ∷ []) r (ground (arith, digit)) n,
            )
            refl
    ]
scan_whole-append (c ∷ d ∷ s) r e h n =
    let digit : is_digit c ≡ true = ground (arith, h) in
    let z : (c == b'0') ≡ false = ground (arith, h) in
    rw
      (
        scan_whole,
        is_next,
        z,
        starts_digit,
        digit,
        skip_digits-append (c ∷ d ∷ s) r (all_digits-whole (c ∷ d ∷ s) h) n,
      )
      refl

scan_fraction-onto :
    (s r : Text) (e : Option Error)
    → all_digits s ≡ true
    → no_digit r ≡ true
    → is_next b'.' r ≡ false
    → scan_fraction (record { rest = fraction_onto s r; error = e })
      ≡ done tt (record { rest = r; error = e })
unfolding scan_fraction fraction_onto is_next
scan_fraction-onto [] r e h n p = rw (scan_fraction, fraction_onto, p) refl
scan_fraction-onto (d ∷ s) r e h n p = scan_digits-append d s r e h n

no_digit-stop : (r : Text) → is_stop r ≡ true → no_digit r ≡ true
no_digit-stop [] stop = refl
no_digit-stop (c ∷ r) stop = ground (arith, stop)

no_point :
    (negative : Bool) (s r : Text)
    → is_stop r ≡ true
    → is_next b'.' (exponent_onto negative s r) ≡ false
unfolding is_next exponent_onto
no_point negative [] [] stop = refl
no_point negative [] (c ∷ r) stop = ground (arith, stop)
no_point true (d ∷ s) r stop = refl
no_point false (d ∷ s) r stop = refl

scan_exponent-onto :
    (negative : Bool) (s r : Text) (e : Option Error)
    → all_digits s ≡ true
    → is_stop r ≡ true
    → scan_exponent (record { rest = exponent_onto negative s r; error = e })
      ≡ done tt (record { rest = r; error = e })
unfolding scan_exponent exponent_onto is_next
scan_exponent-onto negative [] [] e h stop = refl
scan_exponent-onto negative [] (c ∷ r) e h stop =
    let no_letter : ((c == b'e') || (c == b'E')) ≡ false = ground (arith, stop) in
    rw (scan_exponent, exponent_onto, is_next, no_letter) refl
scan_exponent-onto true (d ∷ s) r e h stop = scan_digits-append d s r e h (no_digit-stop r stop)
scan_exponent-onto false (d ∷ s) r e h stop =
    let no_sign : ((d == b'+') || (d == b'-')) ≡ false = ground (arith, h) in
    rw (scan_exponent, exponent_onto, is_next, no_sign)
      (scan_digits-append d s r e h (no_digit-stop r stop))

filled : (s r : Text) → is_whole s ≡ true → (length (s ++ r) == 0) ≡ false
filled [] r h = ground (arith, h)
filled (c ∷ s) r h = ground arith

unsigned_no_minus : (s r : Text) → is_whole s ≡ true → is_next b'-' (s ++ r) ≡ false
unfolding is_next
unsigned_no_minus [] r h = ground (arith, h)
unsigned_no_minus (c ∷ s) r h = ground (arith, h)

module _ (l : Literal) (h : IsLiteral l) (r : Text) (stop : is_stop r ≡ true) where
  scan_unsigned-onto :
      (e : Option Error)
      → scan_unsigned (record { rest = unsigned_onto l r; error = e })
        ≡ done tt (record { rest = r; error = e })
  unfolding scan_unsigned
  scan_unsigned-onto e =
      let behind = exponent_onto l.exp_negative l.exponent r in
      let no_more = no_digit-exponent_onto l.exp_negative l.exponent r (no_digit-stop r stop) in
      rw
        (
          scan_unsigned,
          filled l.whole (fraction_onto l.fraction behind) h.whole_digits,
          scan_whole-append l.whole (fraction_onto l.fraction behind) e h.whole_digits
              (no_digit-fraction_onto l.fraction behind no_more),
          scan_fraction-onto l.fraction behind e h.fraction_digits no_more
              (no_point l.exp_negative l.exponent r stop),
          scan_exponent-onto l.exp_negative l.exponent r e h.exponent_digits stop,
        )
        refl

  scan_number-onto :
      (e : Option Error)
      → scan_number (record { rest = literal_onto l r; error = e })
        ≡ done tt (record { rest = r; error = e })
  unfolding scan_number is_next
  scan_number-onto e = elim (Bool-cases l.negative) [
    | inl n ↦ rw (n, scan_number, is_next, scan_unsigned-onto e) refl
    | inr n ↦
        rw (n, scan_number, unsigned_no_minus l.whole _ h.whole_digits, scan_unsigned-onto e) refl
  ]

-- The characters of a literal are what stands in front of the rest.
fraction_onto-append : (s t r : Text) → fraction_onto s (t ++ r) ≡ fraction_onto s t ++ r
unfolding fraction_onto
fraction_onto-append [] t r = refl
fraction_onto-append (d ∷ s) t r = ap (λ x. b'.' ∷ d ∷ x) (sym (append_assoc s t r))

exponent_onto-append :
    (negative : Bool) (s r : Text) → exponent_onto negative s r ≡ exponent_onto negative s [] ++ r
unfolding exponent_onto
exponent_onto-append negative [] r = refl
exponent_onto-append true (d ∷ s) r = ap (λ x. b'e' ∷ b'-' ∷ d ∷ x) (sym (append_assoc s [] r))
exponent_onto-append false (d ∷ s) r = ap (λ x. b'e' ∷ d ∷ x) (sym (append_assoc s [] r))

unsigned_onto-append : (l : Literal) (r : Text) → unsigned_onto l r ≡ unsigned_onto l [] ++ r
unsigned_onto-append l r =
    rw
      (
        exponent_onto-append l.exp_negative l.exponent r,
        fraction_onto-append l.fraction (exponent_onto l.exp_negative l.exponent []) r,
      )
      (sym (append_assoc l.whole _ r))

pub literal_onto-append : (l : Literal) (r : Text) → literal_onto l r ≡ literal_onto l [] ++ r
literal_onto-append l r = elim (Bool-cases l.negative) [
  | inl n ↦ rw n (ap (λ x. b'-' ∷ x) (unsigned_onto-append l r))
  | inr n ↦ rw n (unsigned_onto-append l r)
]

take-append : (s r : Text) → take (length s) (s ++ r) ≡ s
take-append [] r = refl
take-append (c ∷ s) r = ap (λ x. c ∷ x) (take-append s r)

take_front : (s r : Text) → take (length (s ++ r) - length r) (s ++ r) ≡ s
take_front s r =
    let front : length (s ++ r) - length r ≡ length s = omega (arith, length-append s r) in
    rw front (take-append s r)

-- The number in a text that starts with a literal is the one that the literal stands for, and the
-- parser stops behind it.
pub parse_number-onto :
    {D : Type 0} (arithmetic : Arithmetic D) (l : Literal)
    → IsLiteral l
    → (r : Text) → is_stop r ≡ true
    → (e : Option Error)
    → parse_number arithmetic (record { rest = literal_onto l r; error = e })
      ≡ done (number (meaning arithmetic l)) (record { rest = r; error = e })
unfolding parse_number
parse_number-onto arithmetic l h r stop e =
    let text : take (length (literal_onto l r) - length r) (literal_onto l r) ≡ literal_onto l [] =
      rw (literal_onto-append l r) (take_front (literal_onto l []) r) in
    let q : State = record { rest = r; error = e } in
    rw (parse_number, scan_number-onto l h r stop e)
      (ap (λ o. elim o [ none ↦ fail invalid_number q | some value ↦ done (number value) q ])
        (ap (λ s. number_of arithmetic s) text ∙ number_of-literal_onto arithmetic l h))

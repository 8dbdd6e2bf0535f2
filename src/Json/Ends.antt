-- ===== src/Json/Ends.antt =====
-- Every call of the parser ends: with enough fuel it has a result, and never more text than before.
use qaiosplus.Base.{
  ℕ, zero, suc, ◌+◌, ◌*◌, ◌<◌, ◌≤◌, Bool, true, false, ◌||◌, [], ◌∷◌, Option, ltb, ◌==◌,
  if◌then◌else◌, length, length-drop, u16, Bool-cases, Option-cases, inl, inr, arith,
}
use qaiosplus.Json.Number.{is_digit}
use qaiosplus.Json.Scanner.{
  Text, Error, State, Outcome, done, failed, out_of_fuel, bind, with_error, is_blank, skip_blanks,
  expect_in, expect, is_next, advance, hex_digits, decode_hex, append_unicode_escape, collect,
  parse_string_raw, skip_digits, starts_digit, scan_digits, scan_whole, scan_fraction, skip_sign,
  scan_exponent, scan_unsigned, scan_number, expected_string,
}

-- A call has a result, and if that is not a failure it leaves less than `n` characters.
abbrev pub Falls {ℓ} : {A : Type ℓ} → ℕ → Outcome A → Type 0
Falls n (done a q) = length q.rest < n
Falls n (failed q) = Unit {0}
Falls n out_of_fuel = ⊥

module _ {ℓ κ} {A : Type ℓ} {B : Type κ} where
  pub bind-Falls :
      (m n : ℕ) (o : Outcome A) (k : A → State → Outcome B)
      → Falls m o
      → ((a : A) (q : State) → length q.rest < m → Falls n (k a q))
      → Falls n (bind o k)
  bind-Falls m n (done a q) k h next = next a q h
  bind-Falls m n (failed q) k h next = tt
  bind-Falls m n out_of_fuel k h next = absurd h

module _ {ℓ} {A : Type ℓ} where
  pub Falls-mono : (m n : ℕ) (o : Outcome A) → m ≤ n → Falls m o → Falls n o
  Falls-mono m n (done a q) h f = omega (arith, h, f)
  Falls-mono m n (failed q) h f = tt
  Falls-mono m n out_of_fuel h f = f

  pub with_error-Falls : (e : Error) (n : ℕ) (o : Outcome A) → Falls n o → Falls n (with_error e o)
  with_error-Falls e n (done a q) f = f
  with_error-Falls e n (failed q) f = tt
  with_error-Falls e n out_of_fuel f = f

  pub if-Falls :
      (b : Bool) (n : ℕ) (o o' : Outcome A) → Falls n o → Falls n o' → Falls n (if b then o else o')
  if-Falls true n o o' f g = f
  if-Falls false n o o' f g = g

pub length-skip_blanks : (s : Text) → length (skip_blanks s) ≤ length s
unfolding skip_blanks
length-skip_blanks [] = omega arith
length-skip_blanks (c ∷ s) = elim (Bool-cases (is_blank c)) [
  | inl b ↦ rw (skip_blanks, b) (omega (arith, length-skip_blanks s))
  | inr b ↦ rw (skip_blanks, b) (omega arith)
]

length-skip_digits : (s : Text) → length (skip_digits s) ≤ length s
unfolding skip_digits
length-skip_digits [] = omega arith
length-skip_digits (c ∷ s) = elim (Bool-cases (is_digit c)) [
  | inl b ↦ rw (skip_digits, b) (omega (arith, length-skip_digits s))
  | inr b ↦ rw (skip_digits, b) (omega arith)
]

pub expect-Falls : (c : ℕ) (s : Text) (e : Option Error) → Falls (length s) (expect_in c s e)
unfolding expect_in
expect-Falls c [] e = tt
expect-Falls c (d ∷ s) e = if-Falls (d == c) _ _ _ (omega arith) tt

hex_digits-Falls :
    (n code : ℕ) (s : Text) (e : Option Error) → Falls (suc (length s)) (hex_digits n code s e)
unfolding hex_digits
hex_digits-Falls zero code s e = omega arith
hex_digits-Falls (suc n) code [] e = tt
hex_digits-Falls (suc n) code (c ∷ s) e = elim (Option-cases (decode_hex c)) [
  | inl o ↦ rw (hex_digits, o) tt
  | inr (v, o) ↦
      rw (hex_digits, o)
        (Falls-mono _ _ _ (omega arith) (hex_digits-Falls n (u16 (code * 16 + v)) s e))
]

append_unicode_escape-Falls : (p : State) → Falls (suc (length p.rest)) (append_unicode_escape p)
unfolding append_unicode_escape
append_unicode_escape-Falls p = if-Falls (ltb (length p.rest) 4) _ _ _ tt (
    bind-Falls _ _ (hex_digits 4 0 p.rest p.error) _ (hex_digits-Falls 4 0 p.rest p.error)
      (λ code q h. h))

collect-Falls :
    (f : ℕ) (s : Text) (e : Option Error) → length s < f → Falls (suc (length s)) (collect f s e)
unfolding collect
collect-Falls zero s e h = absurd (omega (arith, h))
collect-Falls (suc f) [] e h = tt
collect-Falls (suc f) (c ∷ []) e h = if-Falls (c == b'"') _ _ _ (omega arith) tt
collect-Falls (suc f) (c ∷ d ∷ s) e h =
    let p : State = record { rest = s; error = e } in
    if-Falls (c == b'"') _ _ _ (omega arith) (
      if-Falls (c == b'\\') _ _ _
        (if-Falls (d == b'u') _ _ _
          (bind-Falls _ _ (append_unicode_escape p) _ (append_unicode_escape-Falls p) (λ code q k.
            bind-Falls _ _ (collect f q.rest q.error) _
              (collect-Falls f q.rest q.error (omega (arith, h, k)))
              (λ text r l. omega (arith, k, l))))
          (bind-Falls _ _ (collect f s e) _ (collect-Falls f s e (omega (arith, h)))
            (λ text q k. omega (arith, k))))
        (bind-Falls _ _ (collect f (d ∷ s) e) _ (collect-Falls f (d ∷ s) e (omega (arith, h)))
          (λ text q k. omega (arith, k))))

pub parse_string_raw-Falls : (p : State) → Falls (suc (length p.rest)) (parse_string_raw p)
unfolding parse_string_raw
parse_string_raw-Falls p =
    bind-Falls _ _ (with_error expected_string (expect b'"' p)) _
      (with_error-Falls expected_string _ _ (expect-Falls b'"' p.rest p.error))
      (λ a q h.
        Falls-mono _ _ _ (omega (arith, h))
          (collect-Falls (suc (length q.rest)) q.rest q.error (omega arith)))

scan_digits-Falls : (p : State) → Falls (suc (length p.rest)) (scan_digits p)
unfolding scan_digits
scan_digits-Falls p =
    if-Falls (starts_digit p.rest) _ _ _ (omega (arith, length-skip_digits p.rest)) tt

pub length-advance : (p : State) → length (advance p).rest ≤ length p.rest
length-advance p = omega (arith, length-drop 1 p.rest)

scan_whole-Falls : (p : State) → Falls (suc (length p.rest)) (scan_whole p)
unfolding scan_whole
scan_whole-Falls p =
    if-Falls (is_next b'0' p.rest) _ _ _ (omega (arith, length-advance p))
      (if-Falls (starts_digit p.rest) _ _ _ (omega (arith, length-skip_digits p.rest)) tt)

scan_fraction-Falls : (p : State) → Falls (suc (length p.rest)) (scan_fraction p)
unfolding scan_fraction
scan_fraction-Falls p =
    if-Falls (is_next b'.' p.rest) _ _ _
      (Falls-mono _ _ _ (omega (arith, length-advance p)) (scan_digits-Falls (advance p)))
      (omega arith)

length-skip_sign : (p : State) → length (skip_sign p).rest ≤ length p.rest
length-skip_sign p = elim (Bool-cases (is_next b'+' p.rest || is_next b'-' p.rest)) [
  | inl b ↦ rw b (length-advance p)
  | inr b ↦ rw b (omega arith)
]

scan_exponent-Falls : (p : State) → Falls (suc (length p.rest)) (scan_exponent p)
unfolding scan_exponent
scan_exponent-Falls p =
    if-Falls (is_next b'e' p.rest || is_next b'E' p.rest) _ _ _
      (Falls-mono _ _ _ (omega (arith, length-advance p, length-skip_sign (advance p)))
        (scan_digits-Falls (skip_sign (advance p))))
      (omega arith)

scan_unsigned-Falls : (p : State) → Falls (suc (length p.rest)) (scan_unsigned p)
unfolding scan_unsigned
scan_unsigned-Falls p = if-Falls (length p.rest == 0) _ _ _ tt (
    bind-Falls _ _ (scan_whole p) _ (scan_whole-Falls p) (λ a q h.
      bind-Falls _ _ (scan_fraction q) _ (scan_fraction-Falls q)
        (λ b r k. Falls-mono _ _ _ (omega (arith, h, k)) (scan_exponent-Falls r))))

pub scan_number-Falls : (p : State) → Falls (suc (length p.rest)) (scan_number p)
unfolding scan_number
scan_number-Falls p = elim (Bool-cases (is_next b'-' p.rest)) [
  | inl b ↦
      rw (scan_number, b)
        (Falls-mono _ _ _ (omega (arith, length-advance p)) (scan_unsigned-Falls (advance p)))
  | inr b ↦ rw (scan_number, b) (scan_unsigned-Falls p)
]

-- ===== src/Json/Literal.antt =====
-- Literals of numbers, taken apart: the text of one, and the number that it stands for.
use qaiosplus.Base.{
  ℕ, ◌+◌, ◌-◌, ◌*◌, ◌^◌, ◌<◌, ◌≤◌, ◌≡◌, ◌∙◌, u32, refl, ap, Bool, true, false, not, ◌&&◌, ◌||◌,
  List, [], ◌∷◌, ◌++◌, some, ◌==◌, if◌then◌else◌, length, Bool-cases, inl, inr, arith,
}
use qaiosplus.Json.Number.{
  Arithmetic, is_digit, whole_from, fraction_from, exponent_from, rounds_of, power, scale,
  with_fraction, signed_exponent, with_exponent, finish, unsigned_of, number_of,
}

-- Without a fraction or an exponent their digits are empty.
pub record Literal : Type 0 where
  pub negative : Bool
  pub whole : List ℕ
  pub fraction : List ℕ
  pub exp_negative : Bool
  pub exponent : List ℕ

abbrev pub all_digits : List ℕ → Bool
all_digits [] = true
all_digits (c ∷ s) = is_digit c && all_digits s

-- One digit at least, and no 0 in front of others.
abbrev pub is_whole : List ℕ → Bool
is_whole [] = false
is_whole (c ∷ s) = is_digit c && all_digits s && (not (c == b'0') || (length s == 0))

abbrev pub exponent_value : ℕ → List ℕ → ℕ
exponent_value n [] = n
exponent_value n (c ∷ s) = exponent_value (n * 10 + (c - b'0')) s

-- The exponent is an `int`.
pub record IsLiteral (l : Literal) : Type 0 where
  pub whole_digits : is_whole l.whole ≡ true
  pub fraction_digits : all_digits l.fraction ≡ true
  pub exponent_digits : all_digits l.exponent ≡ true
  pub exponent_bound : exponent_value 0 l.exponent < 2 ^ 31

-- The texts, in front of what follows.
unfoldable pub fraction_onto : List ℕ → List ℕ → List ℕ
fraction_onto [] rest = rest
fraction_onto (d ∷ s) rest = b'.' ∷ ((d ∷ s) ++ rest)

unfoldable pub exponent_onto : Bool → List ℕ → List ℕ → List ℕ
exponent_onto negative [] rest = rest
exponent_onto true (d ∷ s) rest = b'e' ∷ b'-' ∷ ((d ∷ s) ++ rest)
exponent_onto false (d ∷ s) rest = b'e' ∷ ((d ∷ s) ++ rest)

abbrev pub unsigned_onto : Literal → List ℕ → List ℕ
unsigned_onto l rest =
    l.whole ++ fraction_onto l.fraction (exponent_onto l.exp_negative l.exponent rest)

abbrev pub literal_onto : Literal → List ℕ → List ℕ
literal_onto l rest = if l.negative then b'-' ∷ unsigned_onto l rest else unsigned_onto l rest

-- Where a literal ends.
abbrev pub is_stop : List ℕ → Bool
is_stop [] = true
is_stop (c ∷ s) = not (is_digit c) && not (c == b'.') && not (c == b'e') && not (c == b'E')

abbrev pub no_digit : List ℕ → Bool
no_digit [] = true
no_digit (c ∷ s) = not (is_digit c)

module _ {D : Type 0} (arithmetic : Arithmetic D) where
  abbrev pub whole_value : D → List ℕ → D
  whole_value v [] = v
  whole_value v (c ∷ s) =
      whole_value
        (arithmetic.plus (arithmetic.times v arithmetic.ten) (arithmetic.of_digit (c - b'0'))) s

  abbrev pub fraction_value : D → D → List ℕ → D
  fraction_value place v [] = v
  fraction_value place v (c ∷ s) =
      fraction_value (arithmetic.times place arithmetic.place)
        (arithmetic.plus v (arithmetic.times place (arithmetic.of_digit (c - b'0')))) s

  abbrev pub scaled : Bool → List ℕ → D → D
  scaled negative [] v = v
  scaled negative (d ∷ s) v =
      let factor = power arithmetic (exponent_value 0 (d ∷ s)) (arithmetic.of_digit 1) in
      if negative then arithmetic.over v factor else arithmetic.times v factor

  -- The number that a literal stands for.
  abbrev pub meaning : Literal → D
  meaning l =
      let v = scaled l.exp_negative l.exponent (
        fraction_value arithmetic.place (whole_value (arithmetic.of_digit 0) l.whole) l.fraction) in
      if l.negative then arithmetic.negate v else v

  whole_from-append :
      (s r : List ℕ) (v : D)
      → all_digits s ≡ true
      → no_digit r ≡ true
      → whole_from arithmetic v (s ++ r) ≡ (whole_value v s, r)
  unfolding whole_from
  whole_from-append [] [] v h n = refl
  whole_from-append [] (c ∷ r) v h n =
      let other : is_digit c ≡ false = ground (arith, n) in rw (whole_from, other) refl
  whole_from-append (c ∷ s) r v h n =
      let digit : is_digit c ≡ true = ground (arith, h) in
      let more : all_digits s ≡ true = ground (arith, h) in
      rw (whole_from, digit) (whole_from-append s r _ more n)

  fraction_from-append :
      (s r : List ℕ) (place v : D)
      → all_digits s ≡ true
      → no_digit r ≡ true
      → fraction_from arithmetic place v (s ++ r) ≡ (fraction_value place v s, r)
  unfolding fraction_from
  fraction_from-append [] [] place v h n = refl
  fraction_from-append [] (c ∷ r) place v h n =
      let other : is_digit c ≡ false = ground (arith, n) in rw (fraction_from, other) refl
  fraction_from-append (c ∷ s) r place v h n =
      let digit : is_digit c ≡ true = ground (arith, h) in
      let more : all_digits s ≡ true = ground (arith, h) in
      rw (fraction_from, digit) (fraction_from-append s r _ _ more n)

exponent_value-le : (s : List ℕ) (n : ℕ) → n ≤ exponent_value n s
exponent_value-le [] n = omega arith
exponent_value-le (c ∷ s) n = omega (arith, exponent_value-le s (n * 10 + (c - b'0')))

exponent_from-append :
    (s r : List ℕ) (n : ℕ)
    → all_digits s ≡ true
    → no_digit r ≡ true
    → exponent_value n s < 2 ^ 31
    → exponent_from n (s ++ r) ≡ (exponent_value n s, r)
unfolding exponent_from
exponent_from-append [] [] n h e small = refl
exponent_from-append [] (c ∷ r) n h e small =
    let other : is_digit c ≡ false = ground (arith, e) in rw (exponent_from, other) refl
exponent_from-append (c ∷ s) r n h e small =
    let digit : is_digit c ≡ true = ground (arith, h) in
    let more : all_digits s ≡ true = ground (arith, h) in
    let kept : u32 (n * 10 + (c - b'0')) ≡ n * 10 + (c - b'0') =
      omega (arith, exponent_value-le s (n * 10 + (c - b'0')), small) in
    rw (exponent_from, digit, kept) (exponent_from-append s r _ more e small)

rounds_of-small : (n : ℕ) → n < 2 ^ 31 → rounds_of n ≡ n
unfolding rounds_of
rounds_of-small n h = ground (arith, h)

-- What follows a whole number, a fraction and an exponent is no digit.
pub no_digit-exponent_onto :
    (negative : Bool) (s r : List ℕ)
    → no_digit r ≡ true
    → no_digit (exponent_onto negative s r) ≡ true
unfolding exponent_onto
no_digit-exponent_onto negative [] r h = h
no_digit-exponent_onto true (d ∷ s) r h = refl
no_digit-exponent_onto false (d ∷ s) r h = refl

pub no_digit-fraction_onto :
    (s r : List ℕ) → no_digit r ≡ true → no_digit (fraction_onto s r) ≡ true
unfolding fraction_onto
no_digit-fraction_onto [] r h = h
no_digit-fraction_onto (d ∷ s) r h = refl

pub all_digits-whole : (s : List ℕ) → is_whole s ≡ true → all_digits s ≡ true
all_digits-whole [] h = refl
all_digits-whole (c ∷ s) h = ground (arith, h)

module _ {D : Type 0} (arithmetic : Arithmetic D) where
  -- The end of a literal has no point where no fraction stands.
  with_fraction-onto :
      (s t : List ℕ) (negative : Bool) (v : D)
      → all_digits s ≡ true
      → with_fraction arithmetic (v, fraction_onto s (exponent_onto negative t []))
        ≡ (fraction_value arithmetic arithmetic.place v s, exponent_onto negative t [])
  unfolding with_fraction fraction_onto exponent_onto
  with_fraction-onto [] [] negative v h = refl
  with_fraction-onto [] (d ∷ t) true v h = refl
  with_fraction-onto [] (d ∷ t) false v h = refl
  with_fraction-onto (c ∷ s) t negative v h =
      fraction_from-append arithmetic (c ∷ s) (exponent_onto negative t []) arithmetic.place v h
        (no_digit-exponent_onto negative t [] refl)

  with_exponent-onto :
      (t : List ℕ) (negative : Bool) (v : D)
      → all_digits t ≡ true
      → exponent_value 0 t < 2 ^ 31
      → with_exponent arithmetic (v, exponent_onto negative t [])
        ≡ (scaled arithmetic negative t v, [])
  unfolding with_exponent exponent_onto signed_exponent scale
  with_exponent-onto [] negative v h small = refl
  with_exponent-onto (d ∷ t) true v h small =
      let rounds = rounds_of-small (exponent_value 0 (d ∷ t)) small in
      ap (λ x. (scale arithmetic true x.0 v, x.1)) (exponent_from-append (d ∷ t) [] 0 h refl small)
      ∙ ap (λ k. (arithmetic.over v (power arithmetic k (arithmetic.of_digit 1)), [])) rounds
  with_exponent-onto (d ∷ t) false v h small =
      let no_sign : ((d == b'+') || (d == b'-')) ≡ false = ground (arith, h) in
      let rounds = rounds_of-small (exponent_value 0 (d ∷ t)) small in
      rw (signed_exponent, no_sign)
        (ap (λ x. (scale arithmetic false x.0 v, x.1))
            (exponent_from-append (d ∷ t) [] 0 h refl small)
          ∙ ap (λ k. (arithmetic.times v (power arithmetic k (arithmetic.of_digit 1)), [])) rounds)

  unsigned_of-onto :
      (l : Literal)
      → IsLiteral l
      → (negative : Bool)
      → unsigned_of arithmetic negative (unsigned_onto l [])
        ≡ finish arithmetic negative (
          scaled arithmetic l.exp_negative l.exponent (
              fraction_value arithmetic arithmetic.place
                (whole_value arithmetic (arithmetic.of_digit 0) l.whole)
                l.fraction),
          [],
        )
  unfolding unsigned_of
  unsigned_of-onto l h negative =
      let behind = exponent_onto l.exp_negative l.exponent [] in
      rw
        (
          unsigned_of,
          whole_from-append arithmetic l.whole (fraction_onto l.fraction behind)
              (arithmetic.of_digit 0) (all_digits-whole l.whole h.whole_digits)
              (no_digit-fraction_onto l.fraction behind
                (no_digit-exponent_onto l.exp_negative l.exponent [] refl)),
          with_fraction-onto l.fraction l.exponent l.exp_negative
              (whole_value arithmetic (arithmetic.of_digit 0) l.whole) h.fraction_digits,
          with_exponent-onto l.exponent l.exp_negative
              (fraction_value arithmetic arithmetic.place
                (whole_value arithmetic (arithmetic.of_digit 0) l.whole) l.fraction)
              h.exponent_digits h.exponent_bound,
        )
        refl

  no_minus :
      (s r : List ℕ)
      → is_whole s ≡ true
      → number_of arithmetic (s ++ r) ≡ unsigned_of arithmetic false (s ++ r)
  unfolding number_of
  no_minus [] r h = ground (arith, h)
  no_minus (c ∷ s) r h =
      let no_sign : (c == b'-') ≡ false = ground (arith, h) in rw (number_of, no_sign) refl

  -- The number of a literal's text is the one that the literal stands for.
  pub number_of-literal_onto :
      (l : Literal)
      → IsLiteral l
      → number_of arithmetic (literal_onto l []) ≡ some (meaning arithmetic l)
  unfolding number_of finish
  number_of-literal_onto l h = elim (Bool-cases l.negative) [
    | inl n ↦ rw (n, number_of, unsigned_of-onto l h true) refl
    | inr n ↦ rw (n, no_minus l.whole _ h.whole_digits, unsigned_of-onto l h false) refl
  ]

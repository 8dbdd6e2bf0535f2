-- ===== src/Json/Number.antt =====
-- The numbers of `parseNumber` of QCSerialization/src/QCJson.cpp: the value of a literal that has been
-- scanned. The operations of `double` are a record of functions.
use qaiosplus.Base.{
  ℕ, zero, suc, ◌+◌, ◌-◌, ◌*◌, Bool, true, false, ◌&&◌, ◌||◌, List, [], ◌∷◌, Option, none, some,
  ltb, leb, ◌==◌, ◌^◌, if◌then◌else◌, u32,
}

-- `place` is the number 0.1.
pub record Arithmetic (D : Type 0) : Type 0 where
  pub of_digit : ℕ → D
  pub plus : D → D → D
  pub times : D → D → D
  pub over : D → D → D
  pub negate : D → D
  pub ten : D
  pub place : D

abbrev pub is_digit : ℕ → Bool
is_digit c = leb b'0' c && leb c b'9'

module _ {D : Type 0} (arithmetic : Arithmetic D) where
  -- The loops over digits: the value so far, and the text from `idx` on.
  unfoldable pub whole_from : D → List ℕ → D × List ℕ
  whole_from value [] = (value, [])
  whole_from value (c ∷ s) =
      let digit = arithmetic.of_digit (c - b'0') in
      let rest = whole_from (arithmetic.plus (arithmetic.times value arithmetic.ten) digit) s in
      if is_digit c then rest else (value, c ∷ s)

  unfoldable pub fraction_from : D → D → List ℕ → D × List ℕ
  fraction_from place value [] = (value, [])
  fraction_from place value (c ∷ s) =
      let digit = arithmetic.of_digit (c - b'0') in
      let rest =
        fraction_from (arithmetic.times place arithmetic.place)
          (arithmetic.plus value (arithmetic.times place digit)) s in
      if is_digit c then rest else (value, c ∷ s)

  -- `factor`: the loop of as many rounds as the exponent.
  unfoldable pub power : ℕ → D → D
  power zero factor = factor
  power (suc n) factor = power n (arithmetic.times factor arithmetic.ten)

-- The exponent is an `int` of 32 bits, here by its bits: it wraps where the source's overflows.
unfoldable pub exponent_from : ℕ → List ℕ → ℕ × List ℕ
exponent_from exponent [] = (exponent, [])
exponent_from exponent (c ∷ s) =
    let rest = exponent_from (u32 (exponent * 10 + (c - b'0'))) s in
    if is_digit c then rest else (exponent, c ∷ s)

-- The rounds of `for (int i = 0; i < exponent; ++i)`: none where the `int` is negative.
unfoldable pub rounds_of : ℕ → ℕ
rounds_of exponent = if ltb exponent (2 ^ 31) then exponent else 0

module _ {D : Type 0} (arithmetic : Arithmetic D) where
  unfoldable pub scale : Bool → ℕ → D → D
  scale exp_negative exponent value =
      let factor = power arithmetic (rounds_of exponent) (arithmetic.of_digit 1) in
      if exp_negative then arithmetic.over value factor else arithmetic.times value factor

  unfoldable pub with_fraction : D × List ℕ → D × List ℕ
  with_fraction (value, []) = (value, [])
  with_fraction (value, c ∷ s) =
      let after = fraction_from arithmetic arithmetic.place value s in
      if c == b'.' then after else (value, c ∷ s)

  unfoldable pub signed_exponent : List ℕ → Bool × (ℕ × List ℕ)
  signed_exponent [] = (false, (0, []))
  signed_exponent (c ∷ s) =
      if (c == b'+') || (c == b'-')
      then (c == b'-', exponent_from 0 s)
      else (false, exponent_from 0 (c ∷ s))

  unfoldable pub with_exponent : D × List ℕ → D × List ℕ
  with_exponent (value, []) = (value, [])
  with_exponent (value, c ∷ s) =
      let (exp_negative, (exponent, rest)) = signed_exponent s in
      if (c == b'e') || (c == b'E')
      then (scale exp_negative exponent value, rest)
      else (value, c ∷ s)

  -- The end of the buffer is the terminator.
  unfoldable pub finish : Bool → D × List ℕ → Option D
  finish negative (value, []) = some (if negative then arithmetic.negate value else value)
  finish negative (value, c ∷ s) = none

  unfoldable pub unsigned_of : Bool → List ℕ → Option D
  unsigned_of negative s =
      finish negative
        (with_exponent (with_fraction (whole_from arithmetic (arithmetic.of_digit 0) s)))

  unfoldable pub number_of : List ℕ → Option D
  number_of [] = unsigned_of false []
  number_of (c ∷ s) = if c == b'-' then unsigned_of true s else unsigned_of false (c ∷ s)

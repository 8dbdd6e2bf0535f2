-- ===== src/Json/RoundTrip/Strings.antt =====
-- Blanks and strings, with text behind them.
use qaiosplus.Base.{
  ℕ, zero, suc, ◌+◌, ◌<◌, ◌≡◌, refl, Bool, true, false, not, ◌||◌, [], ◌∷◌, ◌++◌, Option, ◌==◌,
  length, Bool-cases, inl, inr, ==→eq, arith,
}
use qaiosplus.Json.Literal.{is_stop}
use qaiosplus.Json.Print.{all_blank, characters_onto, quoted_onto}
use qaiosplus.Json.Scanner.{
  Text, Error, done, bind, is_blank, skip_blanks, expect_in, collect, unescape, parse_string_raw,
}

-- Whether a text is left as it is by the skipping of blanks.
abbrev pub is_solid : Text → Bool
is_solid [] = true
is_solid (c ∷ s) = not (is_blank c)

pub skip_blanks-gap :
    (g s : Text) → all_blank g ≡ true → is_solid s ≡ true → skip_blanks (g ++ s) ≡ s
unfolding skip_blanks
skip_blanks-gap [] [] h solid = refl
skip_blanks-gap [] (c ∷ s) h solid =
    let other : is_blank c ≡ false = ground (arith, solid) in rw (skip_blanks, other) refl
skip_blanks-gap (c ∷ g) s h solid =
    let blank : is_blank c ≡ true = ground (arith, h) in
    let more : all_blank g ≡ true = ground (arith, h) in
    rw (skip_blanks, blank) (skip_blanks-gap g s more solid)

pub is_stop-gap : (g s : Text) → all_blank g ≡ true → is_stop s ≡ true → is_stop (g ++ s) ≡ true
is_stop-gap [] s h stop = stop
is_stop-gap (c ∷ g) s h stop = ground (arith, h)

pub is_stop-blank : (g : Text) → all_blank g ≡ true → is_stop g ≡ true
is_stop-blank [] h = refl
is_stop-blank (c ∷ g) h = ground (arith, h)

pub skip_blanks-blank : (g : Text) → all_blank g ≡ true → skip_blanks g ≡ []
unfolding skip_blanks
skip_blanks-blank [] h = refl
skip_blanks-blank (c ∷ g) h =
    let blank : is_blank c ≡ true = ground (arith, h) in
    rw (skip_blanks, blank) (skip_blanks-blank g (ground (arith, h)))

pub length-characters_onto : (s r : Text) → length s + length r < length (characters_onto s r)
unfolding characters_onto
length-characters_onto [] r = omega arith
length-characters_onto (c ∷ s) r = elim (Bool-cases ((c == b'"') || (c == b'\\'))) [
  | inl q ↦ rw (characters_onto, q) (omega (arith, length-characters_onto s r))
  | inr q ↦ rw (characters_onto, q) (omega (arith, length-characters_onto s r))
]

collect-plain :
    (f c : ℕ) (t : Text) (e : Option Error)
    → ((c == b'"') || (c == b'\\')) ≡ false
    → 0 < length t
    → collect (suc f) (c ∷ t) e ≡ bind (collect f t e) (λ text q. done (c ∷ text) q)
unfolding collect
collect-plain f c [] e h l = absurd (omega (arith, l))
collect-plain f c (d ∷ t) e h l =
    let no_quote : (c == b'"') ≡ false = ground (arith, h) in
    let no_escape : (c == b'\\') ≡ false = ground (arith, h) in
    rw (collect, no_quote, no_escape) refl

collect-escaped :
    (f c : ℕ) (t : Text) (e : Option Error)
    → ((c == b'"') || (c == b'\\')) ≡ true
    → collect (suc f) (b'\\' ∷ c ∷ t) e ≡ bind (collect f t e) (λ text q. done (c ∷ text) q)
unfolding collect unescape
collect-escaped f c t e h = elim (Bool-cases (c == b'"')) [
  | inl q ↦ rw (==→eq c b'"' q) refl
  | inr q ↦ rw (==→eq c b'\\' (ground (arith, h, q))) refl
]

collect-characters_onto :
    (f : ℕ) (s r : Text) (e : Option Error)
    → length s < f
    → collect f (characters_onto s r) e ≡ done s (record { rest = r; error = e })
unfolding collect characters_onto
collect-characters_onto zero s r e h = absurd (omega (arith, h))
collect-characters_onto (suc f) [] [] e h = refl
collect-characters_onto (suc f) [] (c ∷ r) e h = refl
collect-characters_onto (suc f) (c ∷ s) r e h =
    let more = collect-characters_onto f s r e (omega (arith, h)) in
    elim (Bool-cases ((c == b'"') || (c == b'\\'))) [
      | inl q ↦ rw (characters_onto, q, collect-escaped f c (characters_onto s r) e q, more) refl
      | inr q ↦
          rw
            (
              characters_onto,
              q,
              collect-plain f c (characters_onto s r) e q
                  (omega (arith, length-characters_onto s r)),
              more,
            )
            refl
    ]

-- A string in quotes is read back, and the parser stops behind it.
pub parse_string_raw-quoted_onto :
    (s r : Text) (e : Option Error)
    → parse_string_raw (record { rest = quoted_onto s r; error = e })
      ≡ done s (record { rest = r; error = e })
unfolding parse_string_raw expect_in
parse_string_raw-quoted_onto s r e =
    collect-characters_onto (suc (length (characters_onto s r))) s r e
      (omega (arith, length-characters_onto s r))

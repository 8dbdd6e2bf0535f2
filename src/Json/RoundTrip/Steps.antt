-- ===== src/Json/RoundTrip/Steps.antt =====
-- One call of the parser, or one round of its loops, given what the calls in it do.
use qaiosplus.Base.{
  ℕ, suc, ◌≡◌, refl, Bool, true, false, not, ◌&&◌, [], ◌∷◌, ◌++◌, Option, ltb, ◌==◌, length, drop,
  length-append, eq→==, arith,
}
use qaiosplus.Json.Number.{Arithmetic}
use qaiosplus.Json.Tree.{Value, Members, Elements, no_members, member, no_elements, element}
use qaiosplus.Json.Print.{all_blank, quoted_onto}
use qaiosplus.Json.RoundTrip.Strings.{is_solid, skip_blanks-gap, parse_string_raw-quoted_onto}
use qaiosplus.Json.Scanner.{Text, Error, State, done, is_blank, expect_in, is_next, is_literal}
use qaiosplus.Json.{parse_literal, parse_value, parse_members, parse_elements}

abbrev pub at : Text → Option Error → State
at s e = record { rest = s; error = e }

is_literal-append : (w r : Text) → is_literal w (w ++ r) ≡ true
unfolding is_literal
is_literal-append [] r = refl
is_literal-append (c ∷ w) r = rw (is_literal, eq→== c c refl) (is_literal-append w r)

drop-append : (w r : Text) → drop (length w) (w ++ r) ≡ r
drop-append [] r = refl
drop-append (c ∷ w) r = drop-append w r

-- The texts that a value may start with are no blanks and do not close an array.
abbrev pub starts_value : Text → Bool
starts_value [] = false
starts_value (c ∷ s) = not (is_blank c) && not (c == b']')

pub starts_value-is_solid : (s : Text) → starts_value s ≡ true → is_solid s ≡ true
starts_value-is_solid [] h = ground (arith, h)
starts_value-is_solid (c ∷ s) h = ground (arith, h)

pub starts_value_open : (s : Text) → starts_value s ≡ true → is_next b']' s ≡ false
unfolding is_next
starts_value_open [] h = refl
starts_value_open (c ∷ s) h = ground (arith, h)

module _ {D : Type 0} (arithmetic : Arithmetic D) where
  pub parse_literal-append :
      (w : Text) (v : Value D) (r : Text) (e : Option Error)
      → parse_literal arithmetic w v (at (w ++ r) e) ≡ done v (at r e)
  unfolding parse_literal
  parse_literal-append w v r e =
      let long : ltb (length (w ++ r)) (length w) ≡ false = ground (arith, length-append w r) in
      rw (parse_literal, long, is_literal-append w r, drop-append w r) refl

  module _ (g : Text) (blank : all_blank g ≡ true) where
    pub parse_elements-last :
        (f : ℕ) (s : Text) (v : Value D) (r : Text) (e : Option Error)
        → parse_value arithmetic f (at s e) ≡ done v (at (g ++ (b']' ∷ r)) e)
        → parse_elements arithmetic (suc f) (at s e) ≡ done (element v no_elements) (at r e)
    unfolding parse_elements is_next
    parse_elements-last f s v r e h =
        rw (parse_elements, h, skip_blanks-gap g (b']' ∷ r) blank refl) refl

    pub parse_elements-more :
        (f : ℕ) (s : Text) (v : Value D) (t : Text) (vs : Elements D) (q : State) (e : Option Error)
        → parse_value arithmetic f (at s e) ≡ done v (at (g ++ (b',' ∷ (g ++ t))) e)
        → is_solid t ≡ true
        → parse_elements arithmetic f (at t e) ≡ done vs q
        → parse_elements arithmetic (suc f) (at s e) ≡ done (element v vs) q
    unfolding parse_elements is_next expect_in
    parse_elements-more f s v t vs q e h solid more =
        rw
          (
            parse_elements,
            h,
            skip_blanks-gap g (b',' ∷ (g ++ t)) blank refl,
            skip_blanks-gap g t blank solid,
            more,
          )
          refl

    pub parse_members-last :
        (f : ℕ) (key s : Text) (v : Value D) (r : Text) (e : Option Error)
        → parse_value arithmetic f (at s e) ≡ done v (at (g ++ (b'}' ∷ r)) e)
        → parse_members arithmetic (suc f) (at (quoted_onto key (g ++ (b':' ∷ s))) e)
          ≡ done (member key v no_members) (at r e)
    unfolding parse_members is_next expect_in
    parse_members-last f key s v r e h =
        rw
          (
            parse_members,
            parse_string_raw-quoted_onto key (g ++ (b':' ∷ s)) e,
            skip_blanks-gap g (b':' ∷ s) blank refl,
            h,
            skip_blanks-gap g (b'}' ∷ r) blank refl,
          )
          refl

    pub parse_members-more :
        (f : ℕ) (key s : Text) (v : Value D) (t : Text) (ms : Members D) (q : State)
        (e : Option Error)
        → parse_value arithmetic f (at s e) ≡ done v (at (g ++ (b',' ∷ (g ++ t))) e)
        → is_solid t ≡ true
        → parse_members arithmetic f (at t e) ≡ done ms q
        → parse_members arithmetic (suc f) (at (quoted_onto key (g ++ (b':' ∷ s))) e)
          ≡ done (member key v ms) q
    unfolding parse_members is_next expect_in
    parse_members-more f key s v t ms q e h solid more =
        rw
          (
            parse_members,
            parse_string_raw-quoted_onto key (g ++ (b':' ∷ s)) e,
            skip_blanks-gap g (b':' ∷ s) blank refl,
            h,
            skip_blanks-gap g (b',' ∷ (g ++ t)) blank refl,
            skip_blanks-gap g t blank solid,
            more,
          )
          refl

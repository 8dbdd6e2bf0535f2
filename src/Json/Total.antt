-- ===== src/Json/Total.antt =====
-- The parser of values is total: the fuel that `parse` has is enough.
use qaiosplus.Base.{
  ℕ, zero, suc, ◌+◌, ◌-◌, ◌*◌, ◌<◌, ◌≤◌, ◌≡◌, refl, ◌⊎◌, true, false, [], ◌∷◌, Option, none, some,
  ltb, ◌==◌, if◌then◌else◌, length, take, length-drop, Option-cases, inl, inr, arith,
}
use qaiosplus.Json.Number.{Arithmetic, number_of}
use qaiosplus.Json.Tree.{Value, Members, Elements, null, boolean}
use qaiosplus.Json.Scanner.{
  Text, Error, State, Outcome, done, failed, out_of_fuel, bind, fail, with_error, skip_blanks,
  skip_whitespace, expect, is_next, parse_string_raw, is_literal, scan_number, expected_colon,
  trailing_content,
}
use qaiosplus.Json.{
  Kind, kind_of, parse_literal, parse_number, parse_string, parse_object, parse_array, parse_kind,
  value_at, parse_value, parse_members, parse_elements, parse_root, parse, object_start,
  array_start, string_start, true_start, false_start, null_start, number_start, no_value,
}
use qaiosplus.Json.Ends.{
  Falls, bind-Falls, Falls-mono, with_error-Falls, if-Falls, length-skip_blanks, expect-Falls,
  parse_string_raw-Falls, length-advance, scan_number-Falls,
}

module _ {D : Type 0} (arithmetic : Arithmetic D) where
  parse_literal-Falls :
      (literal : Text) (v : Value D) (p : State)
      → Falls (suc (length p.rest)) (parse_literal arithmetic literal v p)
  unfolding parse_literal
  parse_literal-Falls literal v p = if-Falls (ltb (length p.rest) (length literal)) _ _ _ tt (
      if-Falls (is_literal literal p.rest) _ _ _
        (omega (arith, length-drop (length literal) p.rest)) tt)

  parse_number-Falls : (p : State) → Falls (suc (length p.rest)) (parse_number arithmetic p)
  unfolding parse_number
  parse_number-Falls p = bind-Falls _ _ (scan_number p) _ (scan_number-Falls p) (λ a q h.
      let literal = take (length p.rest - length q.rest) p.rest in
      elim (Option-cases (number_of arithmetic literal)) [ inl o ↦ rw o tt | inr (v, o) ↦ rw o h ])

  parse_string-Falls : (p : State) → Falls (suc (length p.rest)) (parse_string arithmetic p)
  unfolding parse_string
  parse_string-Falls p =
      bind-Falls _ _ (parse_string_raw p) _ (parse_string_raw-Falls p) (λ text q h. h)

  parse_object-Falls :
      (loop : State → Outcome (Members D)) (p : State)
      → ((q : State) → length q.rest < length p.rest → Falls (suc (length q.rest)) (loop q))
      → Falls (suc (length p.rest)) (parse_object arithmetic loop p)
  unfolding parse_object
  parse_object-Falls loop p ends =
      bind-Falls _ _ (expect b'{' p) _ (expect-Falls b'{' p.rest p.error) (λ a q h.
        let inside = skip_whitespace q in
        let short = length-skip_blanks q.rest in
        if-Falls (is_next b'}' inside.rest) _ _ _ (omega (arith, h, short, length-advance inside)) (
          bind-Falls _ _ (loop inside) _ (ends inside (omega (arith, h, short)))
            (λ ms r k. omega (arith, k, h, short))))

  parse_array-Falls :
      (loop : State → Outcome (Elements D)) (p : State)
      → ((q : State) → length q.rest < length p.rest → Falls (suc (length q.rest)) (loop q))
      → Falls (suc (length p.rest)) (parse_array arithmetic loop p)
  unfolding parse_array
  parse_array-Falls loop p ends =
      bind-Falls _ _ (expect b'[' p) _ (expect-Falls b'[' p.rest p.error) (λ a q h.
        let inside = skip_whitespace q in
        let short = length-skip_blanks q.rest in
        if-Falls (is_next b']' inside.rest) _ _ _ (omega (arith, h, short, length-advance inside)) (
          bind-Falls _ _ (loop inside) _ (ends inside (omega (arith, h, short)))
            (λ vs r k. omega (arith, k, h, short))))

  parse_kind-Falls :
      (kind : Kind) (members : State → Outcome (Members D))
      (elements : State → Outcome (Elements D)) (p : State)
      → ((q : State) → length q.rest < length p.rest → Falls (suc (length q.rest)) (members q))
      → ((q : State) → length q.rest < length p.rest → Falls (suc (length q.rest)) (elements q))
      → Falls (suc (length p.rest)) (parse_kind arithmetic kind members elements p)
  unfolding parse_kind
  parse_kind-Falls object_start members elements p m e = parse_object-Falls members p m
  parse_kind-Falls array_start members elements p m e = parse_array-Falls elements p e
  parse_kind-Falls string_start members elements p m e = parse_string-Falls p
  parse_kind-Falls true_start members elements p m e = parse_literal-Falls _ (boolean true) p
  parse_kind-Falls false_start members elements p m e = parse_literal-Falls _ (boolean false) p
  parse_kind-Falls null_start members elements p m e = parse_literal-Falls _ null p
  parse_kind-Falls number_start members elements p m e = parse_number-Falls p
  parse_kind-Falls no_value members elements p m e = tt

  value_at-Falls :
      (members : State → Outcome (Members D)) (elements : State → Outcome (Elements D)) (s : Text)
      (error : Option Error)
      → ((q : State) → length q.rest < length s → Falls (suc (length q.rest)) (members q))
      → ((q : State) → length q.rest < length s → Falls (suc (length q.rest)) (elements q))
      → Falls (suc (length s)) (value_at arithmetic members elements s error)
  unfolding value_at
  value_at-Falls members elements [] error m e = tt
  value_at-Falls members elements (c ∷ s) error m e =
      parse_kind-Falls (kind_of c) members elements (record { rest = c ∷ s; error = error }) m e

  mutual
    unfolding parse_value parse_members parse_elements

    parse_value-Falls :
        (f : ℕ) (p : State)
        → 2 * length p.rest + 1 ≤ f
        → Falls (suc (length p.rest)) (parse_value arithmetic f p)
    parse_value-Falls zero p h = absurd (omega (arith, h))
    parse_value-Falls (suc f) p h =
        let short = length-skip_blanks p.rest in
        Falls-mono _ _ _ (omega (arith, short)) (
          value_at-Falls (λ q. parse_members arithmetic f q) (λ q. parse_elements arithmetic f q)
            (skip_blanks p.rest) p.error
            (λ q l. parse_members-Falls f q (omega (arith, l, h, short)))
            (λ q l. parse_elements-Falls f q (omega (arith, l, h, short))))

    parse_members-Falls :
        (f : ℕ) (p : State)
        → 2 * length p.rest + 2 ≤ f
        → Falls (suc (length p.rest)) (parse_members arithmetic f p)
    parse_members-Falls zero p h = absurd (omega (arith, h))
    parse_members-Falls (suc f) p h =
        bind-Falls _ _ (parse_string_raw p) _ (parse_string_raw-Falls p) (λ key q a.
          let short_q = length-skip_blanks q.rest in
          bind-Falls _ _ (with_error expected_colon (expect b':' (skip_whitespace q))) _
            (with_error-Falls expected_colon _ _ (expect-Falls b':' (skip_blanks q.rest) q.error))
            (λ u r b.
              bind-Falls _ _ (parse_value arithmetic f r) _
                (parse_value-Falls f r (omega (arith, a, b, h, short_q)))
                (λ v t c.
                  let behind = skip_whitespace t in
                  let short_t = length-skip_blanks t.rest in
                  if-Falls (is_next b'}' behind.rest) _ _ _
                    (omega (arith, a, b, c, short_q, short_t, length-advance behind))
                    (bind-Falls _ _ (expect b',' behind) _
                      (expect-Falls b',' behind.rest behind.error)
                      (λ u w d.
                        let short_w = length-skip_blanks w.rest in
                        bind-Falls _ _ (parse_members arithmetic f (skip_whitespace w)) _
                          (parse_members-Falls f (skip_whitespace w)
                            (omega (arith, a, b, c, d, h, short_q, short_t, short_w)))
                          (λ ms x g. omega (arith, a, b, c, d, g, short_q, short_t, short_w)))))))

    parse_elements-Falls :
        (f : ℕ) (p : State)
        → 2 * length p.rest + 2 ≤ f
        → Falls (suc (length p.rest)) (parse_elements arithmetic f p)
    parse_elements-Falls zero p h = absurd (omega (arith, h))
    parse_elements-Falls (suc f) p h =
        bind-Falls _ _ (parse_value arithmetic f p) _ (parse_value-Falls f p (omega (arith, h)))
          (λ v t c.
            let behind = skip_whitespace t in
            let short_t = length-skip_blanks t.rest in
            if-Falls (is_next b']' behind.rest) _ _ _
              (omega (arith, c, short_t, length-advance behind))
              (bind-Falls _ _ (expect b',' behind) _ (expect-Falls b',' behind.rest behind.error)
                (λ u w d.
                  let short_w = length-skip_blanks w.rest in
                  bind-Falls _ _ (parse_elements arithmetic f (skip_whitespace w)) _
                    (parse_elements-Falls f (skip_whitespace w)
                      (omega (arith, c, d, h, short_t, short_w)))
                    (λ vs x g. omega (arith, c, d, g, short_t, short_w)))))

-- The outcomes that have a value behind which no text is left, or a failure.
abbrev pub Ended : {D : Type 0} → Outcome (Value D) → Type 0
Ended o =
    ((v : Value _) × (q : State) × (o ≡ done v q) × (q.rest ≡ [])) ⊎ ((q : State) × (o ≡ failed q))

whole_text-Ended :
    {D : Type 0} (v : Value D) (e : Option Error) (s : Text)
    → Ended (
        if length s == 0
        then done v (record { rest = s; error = e })
        else fail trailing_content (record { rest = s; error = e }))
whole_text-Ended v e [] = inl (v, _, refl, refl)
whole_text-Ended v e (c ∷ s) =
    let more : (length (c ∷ s) == 0) ≡ false = ground arith in rw more (inr (_, refl))

behind-Ended :
    {D : Type 0} (n : ℕ) (o : Outcome (Value D))
    → Falls n o
    → Ended (
        bind o λ v q.
          let behind = skip_whitespace q in
          if length behind.rest == 0 then done v behind else fail trailing_content behind)
behind-Ended n (done v q) h = whole_text-Ended v q.error (skip_blanks q.rest)
behind-Ended n (failed q) h = inr (_, refl)
behind-Ended n out_of_fuel h = absurd h

-- Parsing ends for every text: with a value and no text left, or with a failure.
pub parse-Ended :
    {D : Type 0} (arithmetic : Arithmetic D) (text : Option Text) → Ended (parse arithmetic text)
unfolding parse parse_root
parse-Ended arithmetic none = inr (_, refl)
parse-Ended arithmetic (some text) =
    let p = skip_whitespace (record { rest = text; error = none }) in
    behind-Ended _ _ (
      parse_value-Falls arithmetic (2 * length text + 1) p (omega (arith, length-skip_blanks text)))

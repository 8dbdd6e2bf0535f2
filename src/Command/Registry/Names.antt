-- ===== src/Command/Registry/Names.antt =====
-- Names that are equal but for case, and a registry where no two are.
use qaiosplus.Base.{
  ◌≡◌, refl, ap₂, sym, ◌∙◌, true, false, ◌||◌, [], ◌∷◌, ◌++◌, ◌==◌, lower, lower_text, Bool-cases,
  Option-cases, inl, inr, ==→eq, eq→==, arith,
}
use mathlib.Core.List.{head-eq_of_cons-eq, tail-eq_of_cons-eq, nil≢cons}
use qaiosplus.Command.Registry.{Text, Entry, Registry, equals_ignore_case, is_named, is_taken}

pub equals_of_lower : (a b : Text) → lower_text a ≡ lower_text b → equals_ignore_case a b ≡ true
unfolding equals_ignore_case lower_text
equals_of_lower [] [] e = refl
equals_of_lower [] (d ∷ b) e = absurd (nil≢cons e)
equals_of_lower (c ∷ a) [] e = absurd (nil≢cons (sym e))
equals_of_lower (c ∷ a) (d ∷ b) e =
    rw (eq→== (lower c) (lower d) (head-eq_of_cons-eq e))
      (equals_of_lower a b (tail-eq_of_cons-eq e))

pub lower_of_equals : (a b : Text) → equals_ignore_case a b ≡ true → lower_text a ≡ lower_text b
unfolding equals_ignore_case lower_text
lower_of_equals [] [] e = refl
lower_of_equals [] (d ∷ b) e = absurd (ground (arith, e))
lower_of_equals (c ∷ a) [] e = absurd (ground (arith, e))
lower_of_equals (c ∷ a) (d ∷ b) e = elim (Bool-cases (lower c == lower d)) [
  | inl same ↦ ap₂ (λ x y. x ∷ y) (==→eq _ _ same) (lower_of_equals a b (rw same at e))
  | inr other ↦ absurd (ground (arith, e, other))
]

-- A text that equals a name is found for the same names.
pub equals_trans :
    (a b c : Text) → equals_ignore_case b c ≡ true → equals_ignore_case a b ≡ equals_ignore_case a c
equals_trans a b c e =
    let lowered = lower_of_equals b c e in
    elim (Bool-cases (equals_ignore_case a b)) [
      | inl same ↦ same ∙ sym (equals_of_lower a c (lower_of_equals a b same ∙ lowered))
      | inr other ↦ elim (Bool-cases (equals_ignore_case a c)) [
        | inl both ↦
            let back = equals_of_lower a b (lower_of_equals a c both ∙ sym lowered) in
            back ∙ sym both
        | inr neither ↦ other ∙ sym neither
      ]
    ]

pub is_named_trans :
    (e : Entry) (b c : Text) → equals_ignore_case b c ≡ true → is_named e b ≡ is_named e c
unfolding is_named
is_named_trans e b c h = elim (Option-cases e.name) [
  | inl o ↦ rw (is_named, o) refl
  | inr (a, o) ↦ rw (is_named, o) (equals_trans a b c h)
]

pub is_taken_trans :
    (r : Registry) (b c : Text) → equals_ignore_case b c ≡ true → is_taken r b ≡ is_taken r c
unfolding is_taken
is_taken_trans [] b c h = refl
is_taken_trans (e ∷ es) b c h = rw (is_named_trans e b c h, is_taken_trans es b c h) refl

pub is_taken-append :
    (r q : Registry) (b : Text) → is_taken (r ++ q) b ≡ (is_taken r b || is_taken q b)
unfolding is_taken
is_taken-append [] q b = refl
is_taken-append (e ∷ es) q b = rw (is_taken-append es q b) (ground arith)

-- No entry bears the name of a later one.
abbrev pub Fresh : Entry → Registry → Type 0
Fresh e es = (n : Text) → is_named e n ≡ true → is_taken es n ≡ false

unfoldable pub IsDistinct : Registry → Type 0
IsDistinct [] = Unit {0}
IsDistinct (e ∷ es) = Fresh e es × IsDistinct es

not_named : (e : Entry) (n : Text) → is_named e n ≡ false → is_taken (e ∷ []) n ≡ false
unfolding is_taken
not_named e n h = rw h refl

pub append-IsDistinct :
    (r : Registry) (e : Entry)
    → IsDistinct r
    → ((n : Text) → is_named e n ≡ true → is_taken r n ≡ false)
    → IsDistinct (r ++ e ∷ [])
unfolding IsDistinct is_taken
append-IsDistinct [] e d free = (λ n h. refl, tt)
append-IsDistinct (x ∷ es) e d free = (
  λ n h. elim (Bool-cases (is_named e n)) [
    | inl both ↦ let none_before = free n both in absurd (ground (arith, none_before, h))
    | inr other ↦ rw (is_taken-append es (e ∷ []) n, d.0 n h, other) refl
  ],
  append-IsDistinct es e d.1 (λ n h. let none_before = free n h in ground (arith, none_before)),
)

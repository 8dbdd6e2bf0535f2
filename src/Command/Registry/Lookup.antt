-- ===== src/Command/Registry/Lookup.antt =====
-- What a registered command is found as: its description, and its handler when a line is executed.
use qaiosplus.Base.{
  ℕ, zero, suc, ◌+◌, ◌<◌, ◌≡◌, ◌≢◌, ◌⊎◌, refl, ap, subst, sym, ◌∙◌, Bool, true, false, not, ◌&&◌,
  ◌||◌, [], ◌∷◌, ◌++◌, Option, none, some, ◌==◌, if◌then◌else◌, length, replicate, Bool-cases, inl,
  inr, ==-false→ne, ne→==-false, lt→ltb, arith,
}
use qaiosplus.Command.Registry.{
  Text, Entry, Registry, is_blank, skip_spaces, equals_ignore_case, is_named, is_taken,
  register_command_ex, description_in, find_description, take_token, execute_in, execute_line,
  execute,
}
use qaiosplus.Command.Registry.Names.{
  IsDistinct, append-IsDistinct, is_taken_trans, is_taken-append,
}

abbrev pub entry : Text → ℕ → ℕ → Option Text → Entry
entry name handler user_data description = record {
  name = some name;
  handler = handler;
  user_data = user_data;
  description = description;
}

-- A registration of two outcomes: refused, with no change, or an entry at the end under a name that
-- no entry bears.
register_cases :
    (r : Registry) (name : Text) (handler user_data : ℕ) (description : Option Text)
    → (register_command_ex r (some name) handler user_data description ≡ (r, false))
      ⊎ ((register_command_ex r (some name) handler user_data description
            ≡ (r ++ entry name handler user_data description ∷ [], true))
          × (handler ≢ 0)
          × (is_taken r name ≡ false))
unfolding register_command_ex
register_cases r name handler user_data description =
    elim (Bool-cases ((handler == 0) || is_taken r name)) [
      | inl refused ↦ inl (rw refused refl)
      | inr free ↦
          inr (rw free refl, ==-false→ne handler 0 (ground (arith, free)), ground (arith, free))
    ]

-- Every registration keeps the names apart, ignoring case.
pub register_command_ex-IsDistinct :
    (r : Registry) (name : Option Text) (handler user_data : ℕ) (description : Option Text)
    → IsDistinct r
    → IsDistinct (register_command_ex r name handler user_data description).0
unfolding register_command_ex is_named
register_command_ex-IsDistinct r none handler user_data description d = d
register_command_ex-IsDistinct r (some name) handler user_data description d =
    elim (register_cases r name handler user_data description) [
      | inl e ↦ rw e d
      | inr (e, some_handler, free) ↦ rw e (
          append-IsDistinct r (entry name handler user_data description) d
            (λ n h. sym (is_taken_trans r name n h) ∙ free))
    ]

description_in-append :
    (r q : Registry) (n : Text)
    → description_in (r ++ q) n ≡ (if is_taken r n then description_in r n else description_in q n)
unfolding description_in is_taken
description_in-append [] q n = refl
description_in-append (e ∷ es) q n = elim (Bool-cases (is_named e n)) [
  | inl here ↦ rw here refl
  | inr other ↦ rw (other, description_in-append es q n) refl
]

past_end :
    (r : Registry) (n : Text)
    → (if is_taken r n then description_in r n else none) ≡ description_in r n
unfolding description_in is_taken
past_end [] n = refl
past_end (e ∷ es) n = elim (Bool-cases (is_named e n)) [
  | inl here ↦ rw here refl
  | inr other ↦ rw other (past_end es n)
]

-- After a registration that succeeded, the description of a command is the new one for the spellings
-- of the new name, and what it was for all other names.
pub find_description-register :
    (r : Registry) (name n : Text) (handler user_data : ℕ) (description : Option Text)
    → (register_command_ex r (some name) handler user_data description).1 ≡ true
    → find_description (register_command_ex r (some name) handler user_data description).0 (some n)
      ≡ (if equals_ignore_case name n then description else find_description r (some n))
unfolding find_description description_in is_named
find_description-register r name n handler user_data description ok =
    elim (register_cases r name handler user_data description) [
      | inl e ↦
          let shown : false ≡ true = sym (ap (λ x. x.1) e) ∙ ok in absurd (ground (arith, shown))
      | inr (e, some_handler, free) ↦
          rw (e, description_in-append r (entry name handler user_data description ∷ []) n)
            (elim (Bool-cases (equals_ignore_case name n)) [
              | inl same ↦ rw (same, sym (is_taken_trans r name n same) ∙ free) refl
              | inr other ↦ rw other (past_end r n)
            ])
    ]

execute_in-append :
    (run : ℕ → Text → ℕ → ℕ → Bool) (r q : Registry) (cmd args : Text) (context : ℕ)
    → is_taken r cmd ≡ false
    → execute_in run (r ++ q) cmd args context ≡ execute_in run q cmd args context
unfolding execute_in is_taken
execute_in-append run [] q cmd args context h = refl
execute_in-append run (e ∷ es) q cmd args context h = elim (Bool-cases (is_named e cmd)) [
  | inl here ↦ absurd (ground (arith, h, here))
  | inr other ↦ rw other (ground (arith, h, other, execute_in-append run es q cmd args context))
]

distinct_before :
    (r q : Registry) (e : Entry) (n : Text)
    → IsDistinct (r ++ e ∷ q)
    → is_named e n ≡ true
    → is_taken r n ≡ false
unfolding IsDistinct is_taken
distinct_before [] q e n d h = refl
distinct_before (x ∷ r) q e n d h = elim (Bool-cases (is_named x n)) [
  | inl both ↦
      let later = d.0 n both in absurd (ground (arith, later, h, is_taken-append r (e ∷ q) n))
  | inr other ↦ rw other (distinct_before r q e n d.1 h)
]

-- Whether a text has no blanks.
abbrev pub is_solid : Text → Bool
is_solid [] = true
is_solid (c ∷ s) = not (is_blank c) && is_solid s

skip-replicate : (k : ℕ) (s : Text) → skip_spaces (replicate k 32 ++ s) ≡ skip_spaces s
unfolding skip_spaces
skip-replicate zero s = refl
skip-replicate (suc k) s = skip-replicate k s

take_token_lem :
    (ci : ℕ) (typed args : Text)
    → is_solid typed ≡ true
    → ci + length typed < 48
    → take_token ci (typed ++ (32 ∷ args)) ≡ (typed, 32 ∷ args)
unfolding take_token
take_token_lem ci [] args h b = refl
take_token_lem ci (c ∷ s) args h b =
    let solid : is_blank c ≡ false = ground (arith, h) in
    let room = lt→ltb (ci + 1) 48 (omega (arith, b)) in
    rw (take_token_lem (ci + 1) s args (ground (arith, h)) (omega (arith, b)), solid, room) refl

-- A line with a registered name, in any case, after spaces, calls the handler of that entry with
-- the rest of the line without the blanks in front: the handler is not null, the name has no blank
-- and from 1 to 47 characters, a space follows it, and no two entries have one name.
pub execute-handler :
    (run : ℕ → Text → ℕ → ℕ → Bool) (r q : Registry) (e : Entry) (typed args : Text)
    (spaces context : ℕ)
    → IsDistinct (r ++ e ∷ q)
    → is_named e typed ≡ true
    → e.handler ≢ 0
    → is_solid typed ≡ true
    → 0 < length typed
    → length typed < 48
    → execute run (r ++ e ∷ q) (some (replicate spaces 32 ++ (typed ++ (32 ∷ args)))) context
      ≡ run e.handler (skip_spaces args) context e.user_data
unfolding execute execute_line skip_spaces execute_in
execute-handler run r q e [] args spaces context d named some_handler solid low high =
    absurd (omega arith)
execute-handler run r q e (c ∷ s) args spaces context d named some_handler solid low high =
    let first : is_blank c ≡ false = ground (arith, solid) in
    let token = take_token_lem 0 (c ∷ s) args solid (omega (arith, high)) in
    let line = c ∷ (s ++ (32 ∷ args)) in
    let start : skip_spaces line ≡ line = rw (skip_spaces, first) refl in
    let found : execute_line run (r ++ e ∷ q) line context
        ≡ run e.handler (skip_spaces args) context e.user_data =
      rw
        (
          execute_line,
          token,
          execute_in-append run r (e ∷ q) (c ∷ s) (skip_spaces args) context
              (distinct_before r q e (c ∷ s) d named),
          ne→==-false e.handler 0 some_handler,
          named,
        )
        refl in
    subst
      (λ l.
        execute_line run (r ++ e ∷ q) l context
        ≡ run e.handler (skip_spaces args) context e.user_data)
      (sym (skip-replicate spaces line ∙ start)) found

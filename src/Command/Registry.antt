-- ===== src/Command/Registry.antt =====
-- The registry of commands, QCommand/src/QCCommandRegistry.cpp. A handler is the number of its
-- address, 0 for the null pointer; what it does is the argument `run` of `execute`.
pub mod Names
pub mod Lookup
mod Tests
use qaiosplus.Base.{
  ℕ, zero, suc, ◌+◌, Bool, true, false, not, ◌&&◌, ◌||◌, List, [], ◌∷◌, ◌++◌, Option, none, some,
  ltb, leb, ◌==◌, if◌then◌else◌, length, get_elem?, lower,
}

abbrev pub Text : Type 0
Text = List ℕ

pub record Entry : Type 0 where
  pub name : Option Text
  pub handler : ℕ
  pub user_data : ℕ
  pub description : Option Text

abbrev pub Registry : Type 0
Registry = List Entry

abbrev pub is_blank : ℕ → Bool
is_blank c = (c == 32) || (c == 9)

unfoldable pub skip_spaces : Text → Text
skip_spaces [] = []
skip_spaces (c ∷ p) = let rest = skip_spaces p in if is_blank c then rest else c ∷ p

unfoldable pub equals_ignore_case : Text → Text → Bool
equals_ignore_case [] [] = true
equals_ignore_case [] (d ∷ b) = false
equals_ignore_case (c ∷ a) [] = false
equals_ignore_case (c ∷ a) (d ∷ b) =
    let rest = equals_ignore_case a b in if not (lower c == lower d) then false else rest

-- `name && equalsIgnoreCase(name, other)`.
unfoldable pub is_named : Entry → Text → Bool
is_named e other = elim e.name [ none ↦ false | some name ↦ equals_ignore_case name other ]

unfoldable pub is_taken : Registry → Text → Bool
is_taken [] name = false
is_taken (e ∷ es) name = let rest = is_taken es name in if is_named e name then true else rest

unfoldable pub register_command_ex : Registry → Option Text → ℕ → ℕ → Option Text → Registry × Bool
register_command_ex r none handler user_data description = (r, false)
register_command_ex r (some name) handler user_data description =
    if (handler == 0) || is_taken r name then (r, false) else (
      r
          ++ record {
            name = some name;
            handler = handler;
            user_data = user_data;
            description = description;
          }
            ∷ [],
      true,
    )

pub register_command : Registry → Option Text → ℕ → ℕ → Registry × Bool
register_command r name handler user_data = register_command_ex r name handler user_data none

pub command_count : Registry → ℕ
command_count r = length r

pub command_name_at : Registry → ℕ → Option Text
command_name_at r index = elim (get_elem? r index) [ none ↦ none | some e ↦ e.name ]

pub command_description_at : Registry → ℕ → Option Text
command_description_at r index = elim (get_elem? r index) [ none ↦ none | some e ↦ e.description ]

-- The loop of `findDescription`.
unfoldable pub description_in : Registry → Text → Option Text
description_in [] name = none
description_in (e ∷ es) name =
    let rest = description_in es name in if is_named e name then e.description else rest

unfoldable pub find_description : Registry → Option Text → Option Text
find_description r none = none
find_description r (some name) = description_in r name

-- The token that is copied to `cmd`, at most 47 characters, and what is left of the line.
unfoldable pub take_token : ℕ → Text → Text × Text
take_token ci [] = ([], [])
take_token ci (c ∷ p) =
    let (token, rest) = take_token (ci + 1) p in
    if not (is_blank c) && ltb (ci + 1) 48 then (c ∷ token, rest) else ([], c ∷ p)

-- The loop over the entries: a handler is called with the arguments, the context and its data.
unfoldable pub execute_in : (ℕ → Text → ℕ → ℕ → Bool) → Registry → Text → Text → ℕ → Bool
execute_in run [] cmd args context = false
execute_in run (e ∷ es) cmd args context =
    let rest = execute_in run es cmd args context in
    if not (e.handler == 0) && is_named e cmd then run e.handler args context e.user_data else rest

unfoldable pub execute_line : (ℕ → Text → ℕ → ℕ → Bool) → Registry → Text → ℕ → Bool
execute_line run r [] context = false
execute_line run r (c ∷ p) context =
    let (cmd, rest) = take_token 0 (c ∷ p) in execute_in run r cmd (skip_spaces rest) context

unfoldable pub execute : (ℕ → Text → ℕ → ℕ → Bool) → Registry → Option Text → ℕ → Bool
execute run r none context = false
execute run r (some line) context = execute_line run r (skip_spaces line) context

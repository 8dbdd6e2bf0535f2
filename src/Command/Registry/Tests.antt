-- ===== src/Command/Registry/Tests.antt =====
-- Runs of the registry of commands, and the theorems at inputs that meet their hypotheses.
use qaiosplus.Base.{
  ℕ, ◌≡◌, refl, Bool, true, false, ◌&&◌, [], ◌∷◌, ◌++◌, none, some, ◌==◌, replicate, lower, arith,
  length,
}
use qaiosplus.Command.Registry.{
  Text, Registry, skip_spaces, equals_ignore_case, is_named, is_taken, register_command_ex,
  take_token, execute_in, execute_line, execute,
}
use qaiosplus.Command.Registry.Names.{IsDistinct}
use qaiosplus.Command.Registry.Lookup.{entry, register_command_ex-IsDistinct, execute-handler}

-- "ls", "LS" and "cd".
abbrev ls : Text
ls = 108 ∷ 115 ∷ []

abbrev big_ls : Text
big_ls = 76 ∷ 83 ∷ []

abbrev cd : Text
cd = 99 ∷ 100 ∷ []

abbrev two_commands : Registry
two_commands = entry ls 1 10 none ∷ entry cd 2 20 none ∷ []

-- A handler that answers whether it is the one at 2 with one argument character.
abbrev answer : ℕ → Text → ℕ → ℕ → Bool
answer handler args context user_data = (handler == 2) && (length args == 1)

run_cd : execute answer two_commands (some (32 ∷ 99 ∷ 68 ∷ 32 ∷ 46 ∷ [])) 0 ≡ true
unfolding execute execute_line execute_in skip_spaces take_token is_named equals_ignore_case lower
run_cd = refl

refused_run : (register_command_ex two_commands (some big_ls) 3 0 none).1 ≡ false
unfolding register_command_ex is_taken is_named equals_ignore_case lower
refused_run = refl

two_commands-IsDistinct : IsDistinct two_commands
unfolding IsDistinct register_command_ex is_taken is_named equals_ignore_case lower
two_commands-IsDistinct =
    register_command_ex-IsDistinct (entry ls 1 10 none ∷ []) (some cd) 2 20 none
      (register_command_ex-IsDistinct [] (some ls) 1 10 none tt)

execute-handler_example :
    execute answer two_commands (some (replicate 2 32 ++ cd ++ 32 ∷ 46 ∷ [])) 5
    ≡ answer 2 (skip_spaces (46 ∷ [])) 5 20
unfolding is_named equals_ignore_case lower
execute-handler_example =
    execute-handler answer (entry ls 1 10 none ∷ []) [] (entry cd 2 20 none) cd (46 ∷ []) 2 5
      two_commands-IsDistinct refl (omega arith) refl (omega arith) (omega arith)

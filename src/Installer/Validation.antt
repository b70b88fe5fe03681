-- ===== src/Installer/Validation.antt =====
-- tools/safe_installer.rs: what an accepted command is made of, and that nothing else is run.
use pagi_digital_twin.Base.Results.{err, ok}
use pagi_digital_twin.Host.{◌<>◌}
use pagi_digital_twin.Base.{
  subst, String, Bool, true, false, List, [], ◌∷◌, Option, none, some, All, ◌≡◌, refl, ap, arith,
  Bool-cases, inl, inr,
}
use pagi_digital_twin.Base.Text.{
  trim, split_whitespace, any_char, IsWord, split_whitespace-IsWord, split_whitespace_without,
}
use pagi_digital_twin.Installer.{
  Words, Shell, Output, not_started, ended, allowed_package_managers, find_manager, is_dangerous,
  Accepted, allows, check_chars, check_action, check_program, check_parts,
  validate_installation_command, Ran, read_output, execute_accepted, execute_installation_command,
}

-- What is required of a command that may run.
pub record IsSafe (words : Words) (program : String) (args : List String) : Type 0 where
  pub actions : List String
  pub listed : find_manager program allowed_package_managers ≡ some actions
  pub action : String
  pub rest : List String
  pub split : args ≡ action ∷ rest
  pub allowed : allows words actions action ≡ true
  pub are_words : All IsWord args
  pub harmless : All (λ arg. any_char is_dangerous arg ≡ false) args

check_chars_ok :
    (trimmed program : String) (args : List String) (out : String × List String)
    → check_chars trimmed program args ≡ ok out
    → (any_char is_dangerous trimmed ≡ false) × (◌≡◌ {A = String × List String} (program, args) out)
unfolding check_chars
check_chars_ok trimmed program args out h = (ground (arith, h), ground (arith, h))

module _ (words : Words) (trimmed program : String) where
  check_action-IsSafe :
      (actions args : List String) (out : String × List String)
      → find_manager program allowed_package_managers ≡ some actions
      → All IsWord args
      → (any_char is_dangerous trimmed ≡ false
          → All (λ arg. any_char is_dangerous arg ≡ false) args)
      → check_action words trimmed program actions args ≡ ok out
      → IsSafe words out.0 out.1
  unfolding check_action
  check_action-IsSafe actions [] out listed ws d h = cc
  check_action-IsSafe actions (a ∷ as') out listed ws d h =
      elim (Bool-cases (allows words actions a)) [
        | inl b ↦
            let kept = check_chars_ok trimmed program (a ∷ as') out (ground (arith, b, h)) in
            subst (λ o. IsSafe words o.0 o.1) kept.1
              (record {
                actions = actions;
                listed = listed;
                action = a;
                rest = as';
                split = refl;
                allowed = b;
                are_words = ws;
                harmless = d kept.0;
              })
        | inr b ↦ ground (arith, b, h)
      ]

  check_program-IsSafe :
      (args : List String) (manager : Option (List String)) (out : String × List String)
      → find_manager program allowed_package_managers ≡ manager
      → All IsWord args
      → (any_char is_dangerous trimmed ≡ false
          → All (λ arg. any_char is_dangerous arg ≡ false) args)
      → check_program words trimmed program args manager ≡ ok out
      → IsSafe words out.0 out.1
  unfolding check_program
  check_program-IsSafe args none out listed ws d h = cc
  check_program-IsSafe args (some actions) out listed ws d h =
      check_action-IsSafe actions args out listed ws d h

check_parts-IsSafe :
    (words : Words) (trimmed : String) (parts : List String) (out : String × List String)
    → All IsWord parts
    → (any_char is_dangerous trimmed ≡ false → All (λ arg. any_char is_dangerous arg ≡ false) parts)
    → check_parts words trimmed parts ≡ ok out
    → IsSafe words out.0 out.1
unfolding check_parts
check_parts-IsSafe words trimmed [] out ws d h = cc
check_parts-IsSafe words trimmed (p ∷ args) out ws d h =
    check_program-IsSafe words trimmed (words.to_lowercase p) args
      (find_manager (words.to_lowercase p) allowed_package_managers) out refl ws.1 (λ e. (d e).1) h

-- A command that the validation accepts: its program is one of the listed package managers, its first
-- argument, in lower case, starts with an action listed for that program, and no argument is empty or
-- has white space or one of the dangerous characters.
pub validate_installation_command-IsSafe :
    (words : Words) (command : String) (out : String × List String)
    → validate_installation_command words command ≡ ok out
    → IsSafe words out.0 out.1
unfolding validate_installation_command
validate_installation_command-IsSafe words command out h =
    check_parts-IsSafe words (trim command) (split_whitespace (trim command)) out
      (split_whitespace-IsWord (trim command))
      (split_whitespace_without is_dangerous (trim command)) (ground (arith, h))

-- A process was started for the command: it is a safe one, and what it gave is the result.
abbrev pub RanSafely : Words → Shell → Bool × String × String → Type 0
RanSafely words shell out =
    (program : String) × (args : List String) × IsSafe words program args
    × (shell.run program args ≡ ended out.0 out.1 out.2)

ok_injective : {x y : Bool × String × String} → ◌≡◌ {A = Ran} (ok x) (ok y) → x ≡ y
ok_injective e = cc

ended_as :
    (command : String) (o : Output) (out : Bool × String × String)
    → read_output ("Failed to execute command '" <> (command <> "': ")) o ≡ ok out
    → o ≡ ended out.0 out.1 out.2
unfolding read_output
ended_as command (not_started e) out r = cc
ended_as command (ended success stdout stderr) out r = ap (λ o. ended o.0 o.1 o.2) (ok_injective r)

execute_accepted-RanSafely :
    (words : Words) (shell : Shell) (command : String) (accepted : Accepted)
    (out : Bool × String × String)
    → validate_installation_command words command ≡ accepted
    → execute_accepted shell command accepted ≡ ok out
    → RanSafely words shell out
unfolding execute_accepted
execute_accepted-RanSafely words shell command (err e) out v h = cc
execute_accepted-RanSafely words shell command (ok (program, args)) out v h = (
  program,
  args,
  validate_installation_command-IsSafe words command (program, args) v,
  (ended_as command (shell.run program args) out h),
)

-- Whatever the command: if the execution gives an outcome, it is that of a process whose program and
-- arguments meet every condition of the validation.
pub execute_installation_command-RanSafely :
    (words : Words) (shell : Shell) (command : String) (out : Bool × String × String)
    → execute_installation_command words shell command ≡ ok out
    → RanSafely words shell out
unfolding execute_installation_command
execute_installation_command-RanSafely words shell command out h =
    execute_accepted-RanSafely words shell command (validate_installation_command words command) out
      refl h

-- ===== src/Installer.antt =====
-- backend-rust-orchestrator/src/tools/safe_installer.rs: which installation commands are accepted,
-- their execution, the check of an installed tool and the commands that undo one. Processes are the
-- parameter `Shell`; `to_lowercase` and the print of a list of texts are parameters too.
pub mod Rollback
pub mod Sandbox
pub mod Validation
pub mod Simulation
use Prim.Native.Char.{Char, code}
use pagi_digital_twin.Base.Results.{Result, err, ok}
use pagi_digital_twin.Base.{
  ℕ, String, Bool, true, false, not, ◌&&◌, ◌||◌, List, [], ◌∷◌, Option, none, some, leb, is_some,
  is_empty, any, if◌then◌else◌, ◌==◌,
}
use pagi_digital_twin.Base.Text.{trim, split_whitespace, any_char}
use pagi_digital_twin.Host.{◌<>◌}
use text.Mathlib.Text.{starts_with, find?}

pub record Words : Type 0 where
  pub to_lowercase : String → String
  pub debug_list : List String → String

-- What a process gives: it does not start, or it ends with a status, its output and its errors.
pub data Output : Type 0 where
  not_started : String → Output
  ended : (success : Bool) (stdout stderr : String) → Output

pub record Shell : Type 0 where
  pub run : (program : String) → (args : List String) → Output

abbrev pub Managers : Type 0
Managers = List (String × List String)

abbrev pub allowed_package_managers : Managers
allowed_package_managers =
    ("pip", "install" ∷ "uninstall" ∷ "upgrade" ∷ [])
    ∷ ("pip3", "install" ∷ "uninstall" ∷ "upgrade" ∷ [])
    ∷ ("cargo", "install" ∷ "add" ∷ "update" ∷ [])
    ∷ ("npm", "install" ∷ "i" ∷ "add" ∷ "global" ∷ [])
    ∷ ("yarn", "add" ∷ "global" ∷ "install" ∷ [])
    ∷ ("brew", "install" ∷ "upgrade" ∷ "tap" ∷ [])
    ∷ ("apt-get", "install" ∷ "update" ∷ "upgrade" ∷ [])
    ∷ ("apt", "install" ∷ "update" ∷ "upgrade" ∷ [])
    ∷ ("dnf", "install" ∷ "update" ∷ "upgrade" ∷ [])
    ∷ ("yum", "install" ∷ "update" ∷ "upgrade" ∷ [])
    ∷ ("pacman", "-S" ∷ "-U" ∷ "-Sy" ∷ [])
    ∷ ("git", "clone" ∷ [])
    ∷ []

unfoldable pub find_manager : String → Managers → Option (List String)
find_manager program [] = none
find_manager program ((name, actions) ∷ managers) =
    if name == program then some actions else find_manager program managers

abbrev equal : ℕ → ℕ → Bool
equal a b = leb a b && leb b a

-- ; & | ` $ ( ) < > and the ends of a line
unfoldable pub is_dangerous : Char → Bool
is_dangerous c =
    equal (code c) b';'
    || equal (code c) b'&'
    || equal (code c) b'|'
    || equal (code c) b'`'
    || equal (code c) b'$'
    || equal (code c) b'('
    || equal (code c) b')'
    || equal (code c) b'<'
    || equal (code c) b'>'
    || equal (code c) 10
    || equal (code c) 13

abbrev pub contains : String → String → Bool
contains text part = is_some (find? text part)

abbrev pub Accepted : Type 0
Accepted = Result (String × List String)

unfoldable pub check_chars : (trimmed program : String) → List String → Accepted
check_chars trimmed program args =
    if any_char is_dangerous trimmed
    then err
        "Command contains potentially dangerous characters. Shell metacharacters are not allowed."
    else if contains trimmed ">>" || contains trimmed ">" || contains trimmed "<"
    then err "Output redirection is not allowed for security reasons"
    else ok (program, args)

abbrev pub allows : Words → List String → String → Bool
allows words actions action =
    any (λ allowed. starts_with (words.to_lowercase action) allowed) actions

unfoldable pub check_action :
    Words → (trimmed program : String) → (actions args : List String) → Accepted
check_action words trimmed program actions [] =
    err ("Command '" <> (program <> "' requires at least one argument"))
check_action words trimmed program actions (action ∷ args) =
    if allows words actions action
    then check_chars trimmed program (action ∷ args)
    else err (
        "Action '"
        <> (words.to_lowercase action
            <> ("' is not allowed for '"
                <> (program <> ("'. Allowed actions: " <> words.debug_list actions)))))

unfoldable pub check_program :
    Words → (trimmed program : String) → List String → Option (List String) → Accepted
check_program words trimmed program args none = err (
    "Package manager '"
    <> (program
        <> "' is not whitelisted. Allowed: pip, pip3, cargo, npm, yarn, brew, apt-get, apt, dnf, yum, pacman, git"))
check_program words trimmed program args (some actions) =
    check_action words trimmed program actions args

unfoldable pub check_parts : Words → (trimmed : String) → List String → Accepted
check_parts words trimmed [] = err "No command provided"
check_parts words trimmed (program ∷ args) =
    check_program words trimmed (words.to_lowercase program) args
      (find_manager (words.to_lowercase program) allowed_package_managers)

unfoldable pub validate_installation_command : Words → String → Accepted
validate_installation_command words command =
    if is_empty (trim command)
    then err "Empty command"
    else check_parts words (trim command) (split_whitespace (trim command))

abbrev pub Ran : Type 0
Ran = Result (Bool × String × String)

-- `what` is the text before the error of a process that does not start.
unfoldable pub read_output : (what : String) → Output → Ran
read_output what (not_started e) = err (what <> e)
read_output what (ended success stdout stderr) = ok (success, stdout, stderr)

unfoldable pub execute_accepted : Shell → (command : String) → Accepted → Ran
execute_accepted shell command (ok (program, args)) =
    read_output ("Failed to execute command '" <> (command <> "': ")) (shell.run program args)
execute_accepted shell command (err e) = err e

unfoldable pub execute_installation_command : Words → Shell → String → Ran
execute_installation_command words shell command =
    execute_accepted shell command (validate_installation_command words command)

unfoldable pub execute_verification_command : Shell → String → List String → Ran
execute_verification_command shell program args =
    read_output ("Failed to execute verification command '" <> (program <> "': "))
      (shell.run program args)

-- `replace("-", "_")`
unfoldable pub underscored : String → String
underscored String.[] = String.[]
underscored (String.◌∷◌ c s) = String.◌∷◌ (if equal (code c) b'-' then "_" else c) (underscored s)

abbrev unstarted : String → Bool × String
unstarted e = (false, "Verification command failed: " <> e)

unfoldable pub read_pip : String → Ran → Bool × String
read_pip tool_name (ok (success, stdout, stderr)) =
    if success
    then (true, "Python package '" <> (tool_name <> "' verified successfully"))
    else (false, "Python package '" <> (tool_name <> ("' import failed: " <> stderr)))
read_pip tool_name (err e) = unstarted e

unfoldable pub read_cargo : String → Ran → Bool × String
read_cargo tool_name (ok (success, stdout, stderr)) =
    if success && contains stdout tool_name
    then (true, "Cargo tool '" <> (tool_name <> "' verified successfully"))
    else (false, "Cargo tool '" <> (tool_name <> "' not found in cargo --list"))
read_cargo tool_name (err e) = unstarted e

unfoldable pub read_npm : String → Ran → Bool × String
read_npm tool_name (ok (success, stdout, stderr)) =
    if success && not (contains stdout "empty")
    then (true, "NPM package '" <> (tool_name <> "' verified successfully"))
    else (false, "NPM package '" <> (tool_name <> "' not found globally"))
read_npm tool_name (err e) = unstarted e

abbrev pub succeeded : Ran → Bool
succeeded (ok (success, stdout, stderr)) = success
succeeded (err e) = false

unfoldable pub verify_tool_installation :
    Shell → (tool_name installation_type : String) → Bool × String
verify_tool_installation shell tool_name kind =
    if (kind == "pip") || (kind == "pip3")
    then read_pip tool_name (
        execute_verification_command shell "python3"
          ("-c" ∷ ("import " <> underscored tool_name) ∷ []))
    else if kind == "cargo"
    then read_cargo tool_name (execute_verification_command shell "cargo" ("--list" ∷ []))
    else if (kind == "npm") || (kind == "yarn")
    then read_npm tool_name
        (execute_verification_command shell "npm" ("list" ∷ "-g" ∷ tool_name ∷ []))
    else if kind == "git"
    then (true, "Git repository cloned (manual verification recommended)")
    else if succeeded (execute_verification_command shell tool_name ("--version" ∷ []))
        || succeeded (execute_verification_command shell tool_name ("--help" ∷ []))
    then (true, "Tool '" <> (tool_name <> "' verified (responds to --version or --help)"))
    else (
      false,
      "Tool '" <> (tool_name <> "' not found in PATH or does not respond to --version/--help"),
    )

-- ===== src/Installer/Sandbox.antt =====
-- tools/safe_installer.rs: the simulation of an installation in a sandbox directory. The world as a
-- phase finds it is the parameter `World`: its processes, the paths that exist and the directories
-- that can be made. The text of a path stands for the path.
use pagi_digital_twin.Base.Results.{Result, err, ok}
use pagi_digital_twin.Base.{
  String, Bool, false, not, ◌&&◌, ◌||◌, List, [], ◌∷◌, ◌++◌, Option, none, some, is_empty,
  unwrap_or, ◌==◌, if◌then◌else◌,
}
use pagi_digital_twin.Base.Text.{split_whitespace}
use pagi_digital_twin.Host.{◌<>◌}
use pagi_digital_twin.Installer.{
  Words, Output, not_started, ended, Accepted, validate_installation_command, Ran, read_output,
  underscored,
}

pub record Command : Type 0 where
  pub program : String
  pub args : List String
  pub current_dir : Option String
  pub cargo_home : Option String

pub record World : Type 0 where
  pub run : Command → Output
  pub exists : String → Bool
  pub create_dir_all : String → Option String  -- an error
  pub remove_dir_all : String → Option String
  pub join : String → String → String
  pub with_exe : String → String  -- `with_extension("exe")`
  pub windows : Bool

pub record SimulationResult : Type 0 where
  pub success : Bool
  pub message : String
  pub installation_output : String
  pub verification_output : String
  pub sandbox_path : String
  pub errors : List String

abbrev pub is_pip : String → Bool
is_pip kind = (kind == "pip") || (kind == "pip3")

abbrev pub is_npm : String → Bool
is_npm kind = (kind == "npm") || (kind == "yarn")

abbrev pub in_dir : String → (program : String) → List String → Command
in_dir dir program args = record {
  program = program;
  args = args;
  current_dir = some dir;
  cargo_home = none;
}

-- A program of the virtual environment, by its name on Windows and elsewhere.
abbrev pub venv_program : World → String → (windows_name name : String) → String
venv_program w sandbox windows_name name =
    if w.windows
    then w.join (w.join (w.join sandbox "venv") "Scripts") windows_name
    else w.join (w.join (w.join sandbox "venv") "bin") name

unfoldable pub read_venv : Output → Result Unit
read_venv (not_started e) = err ("Failed to create virtual environment: " <> e)
read_venv (ended success stdout stderr) =
    if success then ok tt else err ("Virtual environment creation failed: " <> stderr)

unfoldable pub setup_sandbox_environment : World → (sandbox kind : String) → Result Unit
setup_sandbox_environment w sandbox kind =
    if is_pip kind
    then read_venv (
        w.run (record {
          program = if kind == "pip3" then "python3" else "python";
          args = "-m" ∷ "venv" ∷ w.join sandbox "venv" ∷ [];
          current_dir = none;
          cargo_home = none;
        }))
    else ok tt

abbrev pub install_error : String
install_error = "Failed to execute installation command: "

unfoldable pub install_cargo :
    World → (sandbox program : String) → List String → Option String → Ran
install_cargo w sandbox program args (some e) = err ("Failed to create cargo_home: " <> e)
install_cargo w sandbox program args none = read_output install_error (
    w.run
      (record (in_dir sandbox program args) { cargo_home = some (w.join sandbox "cargo_home") }))

unfoldable pub install_accepted : World → (sandbox kind : String) → Accepted → Ran
install_accepted w sandbox kind (err e) = err e
install_accepted w sandbox kind (ok (program, args)) =
    if is_pip kind
    then (let venv_pip = venv_program w sandbox "pip.exe" "pip" in
        if w.exists venv_pip
        then read_output install_error (w.run (in_dir sandbox venv_pip args))
        else err "Virtual environment pip not found. Please ensure venv was created successfully.")
    else if kind == "cargo"
    then install_cargo w sandbox program args (w.create_dir_all (w.join sandbox "cargo_home"))
    else read_output install_error (w.run (in_dir sandbox program args))

unfoldable pub execute_sandbox_installation : Words → World → (sandbox command kind : String) → Ran
execute_sandbox_installation words w sandbox command kind =
    install_accepted w sandbox kind (validate_installation_command words command)

abbrev verify_error : String
verify_error = "Failed to execute verification command: "

-- The test binds as `(exists && "python") || "python3"`.
unfoldable pub verify_custom : World → (sandbox kind : String) → List String → Ran
verify_custom w sandbox kind [] = err "Custom verification command is empty"
verify_custom w sandbox kind (program ∷ args) =
    let venv_python = venv_program w sandbox "python.exe" "python" in
    let in_venv = (w.exists venv_python && program == "python") || (program == "python3") in
    read_output verify_error
      (w.run (in_dir sandbox (if is_pip kind && in_venv then venv_python else program) args))

abbrev found : Bool → (yes_text no_text : String) → Ran
found b yes_text no_text = ok (b, (if b then yes_text else ""), (if not b then no_text else ""))

unfoldable pub read_generic : Output → Ran
read_generic (not_started e) = ok (false, "", "Tool not found: " <> e)
read_generic (ended success stdout stderr) = ok (success, stdout, stderr)

unfoldable pub verify_default : World → (sandbox tool_name kind : String) → Ran
verify_default w sandbox tool_name kind =
    if is_pip kind
    then (let venv_python = venv_program w sandbox "python.exe" "python" in
        if w.exists venv_python
        then read_output "Failed to verify Python package: "
            (w.run (in_dir sandbox venv_python ("-c" ∷ ("import " <> underscored tool_name) ∷ [])))
        else err "Virtual environment Python not found")
    else if kind == "cargo"
    then (let bin_path = w.join (w.join (w.join sandbox "cargo_home") "bin") tool_name in
        found (if w.windows then w.exists (w.with_exe bin_path) else w.exists bin_path)
          ("Tool " <> (tool_name <> " found in sandbox"))
          ("Tool " <> (tool_name <> " not found in sandbox")))
    else if is_npm kind
    then found (w.exists (w.join (w.join sandbox "node_modules") tool_name))
        ("Package " <> (tool_name <> " found in sandbox"))
        ("Package " <> (tool_name <> " not found in sandbox"))
    else read_generic (w.run (in_dir sandbox tool_name ("--version" ∷ [])))

unfoldable pub verify_sandbox_installation :
    World → (sandbox tool_name kind custom_verification : String) → Ran
verify_sandbox_installation w sandbox tool_name kind custom_verification =
    if is_empty custom_verification
    then verify_default w sandbox tool_name kind
    else verify_custom w sandbox kind (split_whitespace custom_verification)

abbrev cleaned : Option String → Result Unit
cleaned none = ok tt
cleaned (some e) = err ("Failed to remove sandbox directory: " <> e)

unfoldable pub cleanup_sandbox : World → String → Result Unit
cleanup_sandbox w sandbox = if w.exists sandbox then cleaned (w.remove_dir_all sandbox) else ok tt

abbrev pub error_of : String → Result Unit → List String
error_of what (ok _) = []
error_of what (err e) = (what <> e) ∷ []

-- Errors that a phase adds, by the texts for a failure and for an error.
abbrev pub errors_of : (failed broken : String) → Ran → List String
errors_of failed broken (ok (success, stdout, stderr)) =
    if success then [] else (failed <> stderr) ∷ []
errors_of failed broken (err e) = (broken <> e) ∷ []

abbrev pub output_of : Ran → String
output_of (ok (success, stdout, stderr)) = "STDOUT:\n" <> (stdout <> ("\n\nSTDERR:\n" <> stderr))
output_of (err e) = "Error: " <> e

abbrev join_errors : List String → String
join_errors [] = ""
join_errors (e ∷ []) = e
join_errors (e ∷ next ∷ es) = e <> ("; " <> join_errors (next ∷ es))

abbrev verified : Ran → Bool
verified (ok (success, stdout, stderr)) = success
verified (err e) = false

-- The report from what the four phases gave.
unfoldable pub report_simulation :
    (tool_name sandbox : String)
    → Result Unit
    → (installed checked : Ran) → Result Unit
    → SimulationResult
report_simulation tool_name sandbox setup installed checked cleanup =
    let errors =
      error_of "Sandbox setup failed: " setup
      ++ errors_of "Installation command failed: " "Installation execution failed: " installed
      ++ errors_of "Verification failed: " "Verification execution failed: " checked
      ++ error_of "Cleanup warning: " cleanup in
    record {
      success = verified checked;
      message =
          if verified checked
          then "Simulation successful: " <> (tool_name <> " installed and verified in sandbox")
          else "Simulation failed: " <> join_errors errors;
      installation_output = output_of installed;
      verification_output = output_of checked;
      sandbox_path = sandbox;
      errors = errors;
    }

-- The worlds that the four phases find; the first also makes the sandbox directory.
pub record Worlds : Type 0 where
  pub at_setup : World
  pub at_install : World
  pub at_verify : World
  pub at_cleanup : World

abbrev simulate :
    Words
    → Worlds
    → (sandbox tool_name command kind : String) → Option String
    → Option String
    → Result SimulationResult
simulate words ws sandbox tool_name command kind verification_command (some e) =
    err ("Failed to create sandbox directory: " <> e)
simulate words ws sandbox tool_name command kind verification_command none = ok (
    report_simulation tool_name sandbox (setup_sandbox_environment ws.at_setup sandbox kind)
      (execute_sandbox_installation words ws.at_install sandbox command kind)
      (verify_sandbox_installation ws.at_verify sandbox tool_name kind
        (unwrap_or verification_command ""))
      (cleanup_sandbox ws.at_cleanup sandbox))

unfoldable pub run_simulation :
    Words
    → Worlds
    → (sandbox tool_name command kind : String) → Option String
    → Result SimulationResult
run_simulation words ws sandbox tool_name command kind verification_command =
    simulate words ws sandbox tool_name command kind verification_command
      (ws.at_setup.create_dir_all sandbox)

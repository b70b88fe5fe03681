-- ===== src/Tests/Installs.antt =====
-- tools/safe_installer.rs at concrete commands.
use pagi_digital_twin.Base.Results.{err, ok}
use pagi_digital_twin.Base.{String, true, false, ◌≡◌, refl, List, none, any, ◌==◌}
use pagi_digital_twin.Base.Text.{
  trim, trim_start, trim_end, is_whitespace, split_whitespace, split_front,
}
use pagi_digital_twin.Host.{◌<>◌}
use pagi_digital_twin.Installer.{
  Words, Shell, ended, find_manager, is_dangerous, check_chars, check_action, check_program,
  check_parts, validate_installation_command, read_output, execute_accepted,
  execute_installation_command,
}
use pagi_digital_twin.Installer.Sandbox.{
  World, Worlds, SimulationResult, install_accepted, execute_sandbox_installation, verify_default,
  read_generic, verify_sandbox_installation, run_simulation,
}
use pagi_digital_twin.Installer.Validation.{
  IsSafe, RanSafely, execute_installation_command-RanSafely,
}
use pagi_digital_twin.Installer.Simulation.{
  RanInside, execute_sandbox_installation-RanInside, run_simulation_refused,
}

abbrev words : Words
words = record { to_lowercase = λ s. s; debug_list = λ l. "[..]" }

abbrev shell : Shell
shell = record { run = λ program args. ended true program "" }

ran : execute_installation_command words shell " yarn add x " ≡ ok (true, "yarn", "")
unfolding execute_installation_command execute_accepted validate_installation_command check_parts
    check_program check_action check_chars find_manager is_dangerous read_output trim trim_start
    trim_end is_whitespace split_whitespace split_front
ran = refl

execute_installation_command-RanSafely_example : RanSafely words shell (true, "yarn", "")
execute_installation_command-RanSafely_example =
    execute_installation_command-RanSafely words shell " yarn add x " (true, "yarn", "") ran

abbrev world : World
world = record {
  run = λ c. ended true c.program "";
  exists = λ p. false;
  create_dir_all = λ p. none;
  remove_dir_all = λ p. none;
  join = λ a b. a <> ("/" <> b);
  with_exe = λ p. p <> ".exe";
  windows = false;
}

sandboxed :
    execute_sandbox_installation words world "/tmp/s" "yarn add x" "yarn" ≡ ok (true, "yarn", "")
unfolding execute_sandbox_installation install_accepted validate_installation_command check_parts
    check_program check_action check_chars find_manager is_dangerous read_output trim trim_start
    trim_end is_whitespace split_whitespace split_front
sandboxed = refl

execute_sandbox_installation-RanInside_example :
    (program : String) × (args : List String) × IsSafe words program args
    × RanInside world "/tmp/s" args (true, "yarn", "")
execute_sandbox_installation-RanInside_example =
    execute_sandbox_installation-RanInside words world "/tmp/s" "yarn add x" "yarn"
      (true, "yarn", "") sandboxed

abbrev worlds : Worlds
worlds = record { at_setup = world; at_install = world; at_verify = world; at_cleanup = world }

empty_refused : validate_installation_command words "" ≡ err "Empty command"
unfolding validate_installation_command trim trim_start trim_end
empty_refused = refl

found_anyway :
    verify_sandbox_installation worlds.at_verify "/tmp/s" "ls" "other" "" ≡ ok (true, "ls", "")
unfolding verify_sandbox_installation verify_default read_generic
found_anyway = refl

run_simulation_refused_example :
    (r : SimulationResult) × (run_simulation words worlds "/tmp/s" "ls" "" "other" none ≡ ok r)
    × (r.success ≡ true)
    × (any (λ line. line == ("Installation execution failed: " <> "Empty command")) r.errors ≡ true)
run_simulation_refused_example =
    run_simulation_refused words worlds "/tmp/s" "ls" "" "other" none "Empty command" "ls" ""
      empty_refused refl found_anyway

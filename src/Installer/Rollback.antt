-- ===== src/Installer/Rollback.antt =====
-- tools/safe_installer.rs: the command that undoes an installation, and the proposal of a repair from
-- the audit history. The search of the history is a parameter, by path; `lower_than` is `<` on texts.
use pagi_digital_twin.Base.{
  String, Bool, true, ◌&&◌, ◌||◌, List, [], ◌∷◌, Option, none, some, unwrap_or, any, ◌==◌,
  if◌then◌else◌,
}
use pagi_digital_twin.Base.Float.{F64}
use pagi_digital_twin.Base.Text.{split_whitespace}
use pagi_digital_twin.Host.{◌<>◌}
use pagi_digital_twin.Installer.{Words, contains}

pub record RepairProposal : Type 0 where
  pub tool_name : String
  pub installation_command : String
  pub rollback_command : String
  pub last_successful_timestamp : Option String
  pub last_successful_command : Option String
  pub repair_reason : String
  pub confidence : F64

pub record Report : Type 0 where
  pub timestamp : String
  pub executive_pulse : String
  pub rising_action : List String
  pub climax : String
  pub resolutions : List String

-- The last word, with the one before as a default.
abbrev pub last_of : String → List String → String
last_of word [] = word
last_of word (next ∷ words) = last_of next words

-- `strip_suffix(".git")`
unfoldable pub strip_git : String → Option String
strip_git String.[] = none
strip_git (String.◌∷◌ c s) =
    let rest = strip_git s in
    if String.◌∷◌ c s == ".git"
    then some String.[]
    else elim rest [ none ↦ none | some name ↦ some (String.◌∷◌ c name) ]

abbrev remove_clone : Option String → String
remove_clone none = "# Git: Remove cloned repository directory manually"
remove_clone (some repo_name) = "rm -rf " <> repo_name

unfoldable pub rollback_of : (kind program tool_name : String) → String
rollback_of kind program tool_name =
    if (kind == "pip") || (kind == "pip3")
    then program <> (" uninstall -y " <> tool_name)
    else if kind == "cargo"
    then "# Cargo: Remove '"
      <> (tool_name <> "' from Cargo.toml dependencies, or manually remove binary")
    else if (kind == "npm") || (kind == "yarn")
    then if program == "yarn"
      then "yarn global remove " <> tool_name
      else "npm uninstall -g " <> tool_name
    else if kind == "brew"
    then "brew uninstall " <> tool_name
    else if ((kind == "apt-get") || (kind == "apt")) || ((kind == "dnf") || (kind == "yum"))
    then program <> (" remove -y " <> tool_name)
    else if kind == "pacman"
    then "pacman -R " <> tool_name
    else if kind == "git"
    then remove_clone (strip_git tool_name)
    else "# Generic rollback: Manually remove or uninstall '" <> (tool_name <> "'")

unfoldable pub rollback_parts : Words → (command kind : String) → List String → String
rollback_parts words command kind [] = "# Unable to generate rollback command for: " <> command
rollback_parts words command kind (program ∷ args) =
    rollback_of kind (words.to_lowercase program) (last_of program args)

unfoldable pub generate_rollback_command : Words → (command kind : String) → String
generate_rollback_command words command kind =
    rollback_parts words command kind (split_whitespace command)

abbrev join_lines : List String → String
join_lines [] = ""
join_lines (line ∷ []) = line
join_lines (line ∷ next ∷ lines) = line <> ("\n" <> join_lines (next ∷ lines))

abbrev report_text : Report → String
report_text r = r.executive_pulse <> ("\n" <> (join_lines r.rising_action <> ("\n" <> r.climax)))

unfoldable pub is_success : Words → (tool_name : String) → Report → Bool
is_success words tool_name r =
    any (λ indicator. contains (words.to_lowercase (report_text r)) (words.to_lowercase indicator))
      ("VERIFIED: SUCCESS"
        ∷ "verified successfully"
        ∷ "installation successful"
        ∷ "tool verified"
        ∷ (tool_name <> " verified")
        ∷ [])

unfoldable pub find_command : (tool_name : String) → List String → Option String
find_command tool_name [] = none
find_command tool_name (r ∷ rs) =
    if contains r tool_name || contains r "install" then some r else find_command tool_name rs

-- A report that is newer than what is kept takes its place.
abbrev newer : (String → String → Bool) → String → Option (String × String) → Bool
newer lower_than timestamp none = true
newer lower_than timestamp (some kept) = lower_than kept.0 timestamp

unfoldable pub scan_reports :
    Words
    → (String → String → Bool)
    → (tool_name command : String) → Option (String × String)
    → List Report
    → Option (String × String)
scan_reports words lower_than tool_name command kept [] = kept
scan_reports words lower_than tool_name command kept (r ∷ rs) =
    scan_reports words lower_than tool_name command
      (if is_success words tool_name r && newer lower_than r.timestamp kept
        then some (r.timestamp, unwrap_or (find_command tool_name r.resolutions) command)
        else kept)
      rs

abbrev reports_of : Option (List Report) → List Report
reports_of none = []
reports_of (some reports) = reports

-- `search` gives `none` for a failed search, which is skipped.
unfoldable pub scan_paths :
    Words
    → (String → String → Bool)
    → (search : String → Option (List Report)) → (tool_name command : String)
    → Option (String × String)
    → List String
    → Option (String × String)
scan_paths words lower_than search tool_name command kept [] = kept
scan_paths words lower_than search tool_name command kept (path ∷ paths) =
    scan_paths words lower_than search tool_name command
      (scan_reports words lower_than tool_name command kept (reports_of (search path))) paths

abbrev proposal :
    (three_quarters half : F64)
    → (tool_name command rollback : String) → Option (String × String)
    → RepairProposal
proposal three_quarters half tool_name command rollback (some (timestamp, last_command)) = record {
  tool_name = tool_name;
  installation_command = command;
  rollback_command = rollback;
  last_successful_timestamp = some timestamp;
  last_successful_command = some last_command;
  repair_reason =
      "Verification failed for '"
      <> (tool_name
          <> "'. Found last successful state in Atlas. Recommend rolling back to previous configuration or reapplying successful installation command.");
  confidence = three_quarters;
}
proposal three_quarters half tool_name command rollback none = record {
  tool_name = tool_name;
  installation_command = command;
  rollback_command = rollback;
  last_successful_timestamp = none;
  last_successful_command = none;
  repair_reason =
      "Verification failed for '"
      <> (tool_name
          <> "'. No previous successful state found in Atlas. Recommend uninstalling and retrying installation, or checking system logs for errors.");
  confidence = half;
}

-- The two constants are the bit patterns of 0.75 and 0.5.
unfoldable pub propose_rollback :
    Words
    → (String → String → Bool)
    → (search : String → Option (List Report)) → (three_quarters half : F64)
    → (tool_name command kind : String) → RepairProposal
propose_rollback words lower_than search three_quarters half tool_name command kind =
    proposal three_quarters half tool_name command (generate_rollback_command words command kind) (
      scan_paths words lower_than search tool_name command none
        (("/usr/local/bin/" <> tool_name) ∷ ("/opt/" <> tool_name) ∷ tool_name ∷ []))

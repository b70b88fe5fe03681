-- ===== src/Preferences.antt =====
-- backend-rust-orchestrator/src/preferences.rs: the preferences of each user, in memory and in their
-- file. serde_json, `to_lowercase` and the answers of the file system are parameters; a state of the
-- disk is the text of the file, if it is there.
pub mod Overlay
pub mod Update
pub mod Restart
use pagi_digital_twin.Base.Results.{Result, err, ok}
use pagi_digital_twin.Base.{
  ℕ, zero, suc, String, Bool, true, false, List, [], ◌∷◌, Option, none, some, unwrap_or, is_some,
  leb, is_empty, ◌==◌, if◌then◌else◌,
}
use pagi_digital_twin.Base.HashMap
use pagi_digital_twin.Base.HashMap.{HashMap}
use pagi_digital_twin.Base.Text.{trim}
use pagi_digital_twin.Host.{◌<>◌}

pub record UserProfile : Type 0 where
  pub nickname : String
  pub occupation : String
  pub about : String

pub data Verbosity : Type 0 where
  minimal balanced detailed : Verbosity

pub record UserPreferences : Type 0 where
  pub profile : UserProfile
  pub persona_preset : String
  pub custom_instructions : String
  pub verbosity : Verbosity
  pub enable_cynical : Bool
  pub enable_sarcastic : Bool
  pub updated_at : String

pub record PersonaPreset : Type 0 where
  pub id : String
  pub label : String
  pub description : String
  pub overlay : String

unfoldable pub default_preferences : String → UserPreferences
default_preferences now = record {
  profile = record { nickname = ""; occupation = ""; about = "" };
  persona_preset = "default";
  custom_instructions = "";
  verbosity = balanced;
  enable_cynical = false;
  enable_sarcastic = false;
  updated_at = now;
}

abbrev preset : (id label description overlay : String) → PersonaPreset
preset id label description overlay = record {
  id = id;
  label = label;
  description = description;
  overlay = overlay;
}

abbrev pub default_persona_presets : List PersonaPreset
default_persona_presets =
    preset "default" "Default" "Neutral, concise, technical when appropriate"
      "Style: Default\n- Be direct and helpful.\n- Prefer concise, information-dense responses.\n- Use markdown with code when helpful."
    ∷ preset "professional" "Professional" "Clear, structured, business-appropriate"
        "Style: Professional\n- Use clear headings and bullet points.\n- Keep tone calm and business-appropriate.\n- Avoid slang."
    ∷ preset "efficient" "Efficient" "Minimal words, maximum utility"
        "Style: Efficient\n- Answer in as few words as possible while being correct.\n- Prefer checklists and commands over prose.\n- Ask only the minimum necessary follow-up questions."
    ∷ preset "nerdy" "Nerdy"
        "Technical, precise, deep-dive friendly (without being verbose by default)"
        "Style: Nerdy\n- Prefer technical precision, explicit assumptions, and correct terminology.\n- When explaining: include minimal but meaningful context (why it works), then the steps.\n- Use small examples, edge-cases, and quick sanity checks when useful.\n- Keep it readable; do not ramble."
    ∷ preset "candid" "Candid" "Direct, no-nonsense"
        "Style: Candid\n- Be straightforward about tradeoffs and uncertainty.\n- Call out risks and missing info plainly.\n- Avoid fluff."
    ∷ preset "friendly" "Friendly" "Warm but still technical"
        "Style: Friendly\n- Use an approachable tone while staying accurate.\n- Prefer encouraging phrasing, but keep it technical."
    ∷ preset "humorous" "Humorous" "Light humor (no memes), still useful"
        "Style: Humorous\n- Light, occasional dry humor is allowed if it does not distract.\n- Never joke about sensitive topics or protected classes."
    ∷ preset "philosophical" "Philosophical" "Explore implications, values, and tradeoffs"
        "Style: Philosophical\n- Highlight underlying assumptions and tradeoffs.\n- Offer alternative framings when relevant."
    ∷ preset "motivational" "Motivational" "Encouraging, goal-oriented"
        "Style: Motivational\n- Be encouraging and action-oriented.\n- Suggest the next smallest step that makes progress."
    ∷ preset "quirky" "Quirky" "Slightly eccentric phrasing (no cringe)"
        "Style: Quirky\n- Small personality flourishes are okay, but keep clarity first."
    ∷ []

unfoldable pub find_preset : String → List PersonaPreset → Option PersonaPreset
find_preset id [] = none
find_preset id (p ∷ ps) = if p.id == id then some p else find_preset id ps

unfoldable pub find_preset_by_id : (lower : String → String) → String → Option PersonaPreset
find_preset_by_id lower id = find_preset (lower (trim id)) default_persona_presets

pub record PreferencesFile : Type 0 where
  pub version : ℕ
  pub by_twin : HashMap UserPreferences

unfoldable pub default_file : PreferencesFile
default_file = record { version = 1; by_twin = [] }

-- serde_json: the printed file, or an error; the file read, or an error.
pub record Json : Type 0 where
  pub to_string_pretty : PreferencesFile → Result String
  pub from_str : String → Result PreferencesFile

-- What the file system answers to the steps of a write: an error or none for each, and whether the
-- old file is removed.
pub record Answers : Type 0 where
  pub create_dir : Option String
  pub write_temp : Option String
  pub removes : Bool
  pub rename : Option String

abbrev pub Disk : Type 0
Disk = Option String

abbrev pub renamed : Disk → String → Option String → Result Unit × Disk
renamed disk raw none = (ok tt, some raw)
renamed disk raw (some e) = (err ("failed to replace preferences file: " <> e), disk)

abbrev pub replaced : Answers → Disk → String → Option String → Result Unit × Disk
replaced a disk raw none = renamed (if a.removes then none else disk) raw a.rename
replaced a disk raw (some e) = (err ("failed to write temp preferences file: " <> e), disk)

abbrev pub printed : Answers → Disk → Result String → Result Unit × Disk
printed a disk (ok raw) = replaced a disk raw a.write_temp
printed a disk (err e) = (err ("failed to serialize preferences: " <> e), disk)

abbrev pub in_directory :
    Json → Answers → Disk → PreferencesFile → Option String → Result Unit × Disk
in_directory json a disk prefs none = printed a disk (json.to_string_pretty prefs)
in_directory json a disk prefs (some e) = (err ("failed to create config dir: " <> e), disk)

-- The directory, a temporary file, the old file removed and the new one put in its place. The
-- texts of errors are without the path.
unfoldable pub write : Json → Answers → Disk → PreferencesFile → Result Unit × Disk
write json a disk prefs = in_directory json a disk prefs a.create_dir

abbrev pub initialised : Result Unit × Disk → Result PreferencesFile × Disk
initialised (ok _, disk) = (ok default_file, disk)
initialised (err e, disk) = (err e, disk)

abbrev pub parsed : Result PreferencesFile → Result PreferencesFile
parsed (ok file) = ok file
parsed (err e) = err ("failed to parse preferences JSON: " <> e)

-- A file that is there can be read as text.
unfoldable pub load_or_init : Json → Answers → Disk → Result PreferencesFile × Disk
load_or_init json a none = initialised (write json a none default_file)
load_or_init json a (some raw) =
    if is_empty (trim raw)
    then initialised (write json a (some raw) default_file)
    else (parsed (json.from_str raw), some raw)

-- The manager's state is the file in memory.
unfoldable pub get_for_twin : PreferencesFile → (twin_id now : String) → UserPreferences
get_for_twin file twin_id now =
    if is_empty (trim twin_id)
    then default_preferences now
    else unwrap_or (HashMap.get (trim twin_id) file.by_twin) (default_preferences now)

-- `chars().count()` and `chars().take(n)`
abbrev pub count_chars : String → ℕ
count_chars String.[] = 0
count_chars (String.◌∷◌ c s) = suc (count_chars s)

abbrev pub take_chars : ℕ → String → String
take_chars zero s = String.[]
take_chars (suc n) String.[] = String.[]
take_chars (suc n) (String.◌∷◌ c s) = String.◌∷◌ c (take_chars n s)

unfoldable pub clamp_string : String → ℕ → String
clamp_string s max_chars =
    if leb (count_chars (trim s)) max_chars then trim s else take_chars max_chars (trim s)

-- The preset's name after both fallbacks.
unfoldable pub normalize_preset : (lower : String → String) → String → String
normalize_preset lower name =
    let id = if is_empty (lower (trim name)) then "default" else lower (trim name) in
    if is_some (find_preset_by_id lower id) then id else "default"

unfoldable pub normalize :
    (lower : String → String) → UserPreferences → (now : String) → UserPreferences
normalize lower p now = record {
  profile = record {
    nickname = clamp_string p.profile.nickname 256;
    occupation = clamp_string p.profile.occupation 256;
    about = clamp_string p.profile.about 4000;
  };
  persona_preset = normalize_preset lower p.persona_preset;
  custom_instructions = clamp_string p.custom_instructions 10000;
  verbosity = p.verbosity;
  enable_cynical = p.enable_cynical;
  enable_sarcastic = p.enable_sarcastic;
  updated_at = now;
}

abbrev pub finished :
    UserPreferences
    → PreferencesFile
    → Result Unit × Disk
    → Result UserPreferences × PreferencesFile × Disk
finished updated file (ok _, disk) = (ok updated, file, disk)
finished updated file (err e, disk) = (err e, file, disk)

-- The reply, the file in memory and the disk; memory is changed before the write.
unfoldable pub update_for_twin :
    (lower : String → String)
    → Json
    → Answers
    → PreferencesFile
    → Disk
    → (twin_id : String) → UserPreferences
    → (now : String) → Result UserPreferences × PreferencesFile × Disk
update_for_twin lower json a file disk twin_id p now =
    if is_empty (trim twin_id)
    then (err "twin_id must not be empty", file, disk)
    else (let updated = normalize lower p now in
        let file' = record file { by_twin = HashMap.insert (trim twin_id) updated file.by_twin } in
        finished updated file' (write json a disk file'))

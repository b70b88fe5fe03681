-- ===== src/Preferences/Overlay.antt =====
-- preferences.rs: the text put in front of a prompt.
use pagi_digital_twin.Base.{
  String, Bool, true, false, not, ◌||◌, Option, none, some, is_empty, if◌then◌else◌,
}
use pagi_digital_twin.Base.Text.{trim}
use pagi_digital_twin.Host.{◌<>◌}
use pagi_digital_twin.Preferences.{
  PersonaPreset, Verbosity, minimal, balanced, detailed, UserProfile, UserPreferences,
  PreferencesFile, find_preset_by_id, get_for_twin,
}

abbrev filled : String → Bool
filled s = not (is_empty (trim s))

abbrev line : (name value : String) → String
line name value = if filled value then name <> (": " <> (trim value <> "\n")) else ""

unfoldable pub profile_section : UserProfile → String
profile_section p =
    if filled p.nickname || filled p.occupation || filled p.about
    then "[OPERATOR PROFILE]\n"
      <> (line "Nickname" p.nickname
          <> (line "Occupation" p.occupation <> (line "About" p.about <> "\n")))
    else ""

abbrev verbosity_text : Verbosity → String
verbosity_text minimal = "minimal"
verbosity_text balanced = "balanced"
verbosity_text detailed = "detailed"

abbrev bool_text : Bool → String
bool_text true = "true"
bool_text false = "false"

unfoldable pub style_section : PersonaPreset → UserPreferences → String
style_section preset prefs =
    "[STYLE & TONE]\n"
    <> ("PersonaPreset: "
        <> (preset.label
            <> ("\nVerbosity: "
                <> (verbosity_text prefs.verbosity
                    <> ("\nEnableCynical: "
                        <> (bool_text prefs.enable_cynical
                            <> ("\nEnableSarcastic: "
                                <> (bool_text prefs.enable_sarcastic
                                    <> ("\n\n" <> (preset.overlay <> "\n\n"))))))))))

unfoldable pub mode_section : UserPreferences → String
mode_section prefs =
    (if prefs.enable_cynical
      then "CynicalMode:\n- Be mildly skeptical and risk-aware.\n- Do not be hostile; do not insult the user.\n\n"
      else "")
    <> ((if prefs.enable_sarcastic
          then "SarcasmMode:\n- Sarcasm may be used lightly and sparingly.\n- Never target the user or protected classes.\n\n"
          else "")
        <> (if filled prefs.custom_instructions
            then "[CUSTOM INSTRUCTIONS]\n" <> (trim prefs.custom_instructions <> "\n\n")
            else ""))

abbrev pub guardrails : String
guardrails =
    "[GUARDRAILS]\n- Do not be harassing, hateful, or demeaning.\n- If the user requests harmful/unsafe actions, refuse and offer safe alternatives.\n- Prefer accuracy over confidence; state uncertainty when needed.\n"

unfoldable pub overlay_text : PersonaPreset → UserPreferences → String
overlay_text preset prefs =
    "[USER PERSONALIZATION]\nThese are style/tone preferences. They do NOT change your capabilities.\n\n"
    <> (profile_section prefs.profile
        <> (style_section preset prefs <> (mode_section prefs <> guardrails)))

abbrev or_default : Option PersonaPreset → Option PersonaPreset → Option PersonaPreset
or_default none fallback = fallback
or_default (some preset) fallback = some preset

abbrev overlay_of : UserPreferences → Option PersonaPreset → Option String
overlay_of prefs none = none
overlay_of prefs (some preset) = some (overlay_text preset prefs)

-- `none` is the panic of `expect`, when there is no preset "default".
unfoldable pub render_prompt_overlay :
    (lower : String → String) → PreferencesFile → (twin_id now : String) → Option String
render_prompt_overlay lower file twin_id now =
    let prefs = get_for_twin file twin_id now in
    overlay_of prefs (
      or_default (find_preset_by_id lower prefs.persona_preset) (find_preset_by_id lower "default"))

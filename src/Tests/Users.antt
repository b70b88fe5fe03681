-- ===== src/Tests/Users.antt =====
-- preferences.rs at concrete updates.
use pagi_digital_twin.Base.Results.{Result, err, ok}
use pagi_digital_twin.Host.{◌<>◌}
use pagi_digital_twin.Preferences.Restart.{
  ReadsBack, update_for_twin-load_or_init, update_for_twin_lost,
}
use pagi_digital_twin.Base.{
  subst, false, some, is_empty, String, true, ◌≡◌, refl, [], ◌∷◌, none, ◌==◌, if◌then◌else◌,
}
use pagi_digital_twin.Base.HashMap
use pagi_digital_twin.Base.Text.{trim, trim_start, trim_end, is_whitespace}
use pagi_digital_twin.Preferences.{
  load_or_init, UserPreferences, PreferencesFile, default_file, Json, Answers, write, get_for_twin,
  normalize, update_for_twin, default_preferences,
}
use pagi_digital_twin.Preferences.Update.{IsNormal, update_for_twin-get}

abbrev lower : String → String
lower s = s

-- Only the file of this run is printed.
abbrev mine : UserPreferences
mine = normalize lower (default_preferences "t0") "t1"

abbrev stored : PreferencesFile
stored = record { version = 1; by_twin = ("u", mine) ∷ [] }

abbrev json : Json
json = record { to_string_pretty = λ f. ok "{}"; from_str = λ s. ok stored }

abbrev fine : Answers
fine = record { create_dir = none; write_temp = none; removes = true; rename = none }

updated :
    (update_for_twin lower json fine default_file none " u " (default_preferences "t0") "t1").0
    ≡ ok mine
unfolding update_for_twin write trim trim_start trim_end is_whitespace
updated = refl

update_for_twin-get_example :
    IsNormal lower mine
    × ((j later : String)
        → get_for_twin
            (update_for_twin lower json fine default_file none " u "
              (default_preferences "t0")
              "t1").1
            j
            later
          ≡ (if trim " u " == trim j then mine else get_for_twin default_file j later))
update_for_twin-get_example =
    update_for_twin-get lower json fine default_file none " u " (default_preferences "t0") mine "t1"
      refl updated

ok_injective : {x y : String} → ◌≡◌ {A = Result String} (ok x) (ok y) → x ≡ y
ok_injective e = cc

unblank : ReadsBack json stored
unfolding trim trim_start trim_end is_whitespace
unblank raw e = (refl, subst (λ r. is_empty (trim r) ≡ false) (ok_injective e) refl)

update_for_twin-load_or_init_example :
    let out =
      update_for_twin lower json fine default_file none " u " (default_preferences "t0") "t1" in
    load_or_init json fine out.2 ≡ (ok out.1, out.2)
unfolding update_for_twin write trim trim_start trim_end is_whitespace HashMap.insert default_file
update_for_twin-load_or_init_example =
    update_for_twin-load_or_init lower json fine fine default_file none " u "
      (default_preferences "t0") mine "t1" unblank updated

abbrev stuck : Answers
stuck = record { create_dir = none; write_temp = none; removes = true; rename = some "busy" }

named : is_empty (trim "u") ≡ false
unfolding trim trim_start trim_end is_whitespace
named = refl

initialises : (write json fine none default_file).0 ≡ ok tt
unfolding write
initialises = refl

update_for_twin_lost_example :
    let out = update_for_twin lower json stuck stored (some "old") "u" mine "t2" in
    (out.0 ≡ err ("failed to replace preferences file: " <> "busy"))
    × (out.1.by_twin ≡ HashMap.insert (trim "u") (normalize lower mine "t2") stored.by_twin)
    × ((load_or_init json fine out.2).0 ≡ ok default_file)
update_for_twin_lost_example =
    update_for_twin_lost lower json stuck fine stored (some "old") "u" mine "t2" "{}" "busy" named
      refl refl refl refl refl initialises

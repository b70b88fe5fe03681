-- ===== src/Preferences/Restart.antt =====
-- preferences.rs: what a restart finds after an update that is reported as done, and after one whose
-- file could not be put in place.
use pagi_digital_twin.Base.Results.{Result, err, ok}
use pagi_digital_twin.Base.{
  subst, String, true, false, Option, none, some, is_empty, ◌≡◌, refl, if◌then◌else◌, arith,
  Bool-cases, inl, inr,
}
use pagi_digital_twin.Base.HashMap
use pagi_digital_twin.Base.Text.{trim}
use pagi_digital_twin.Host.{◌<>◌}
use pagi_digital_twin.Preferences.Update.{finished_file}
use pagi_digital_twin.Preferences.{
  UserPreferences, PreferencesFile, default_file, Json, Answers, Disk, renamed, replaced, printed,
  in_directory, write, initialised, load_or_init, normalize, finished, update_for_twin,
}

-- What serde_json documents: the file, once printed, is not blank and reads back as it was.
abbrev pub ReadsBack : Json → PreferencesFile → Type 0
ReadsBack json file =
    (raw : String)
    → json.to_string_pretty file ≡ ok raw
    → (json.from_str raw ≡ ok file) × (is_empty (trim raw) ≡ false)

-- A write that is done leaves the printed file.
abbrev Left : Json → PreferencesFile → Disk → Type 0
Left json file disk = (raw : String) × (json.to_string_pretty file ≡ ok raw) × (disk ≡ some raw)

module _ (json : Json) (a : Answers) (file : PreferencesFile) where
  renamed-Left :
      (disk : Disk) (raw : String) (o : Option String)
      → json.to_string_pretty file ≡ ok raw
      → (renamed disk raw o).0 ≡ ok tt
      → Left json file (renamed disk raw o).1
  renamed-Left disk raw none e h = (raw, e, refl)
  renamed-Left disk raw (some x) e h = cc

  replaced-Left :
      (disk : Disk) (raw : String) (o : Option String)
      → json.to_string_pretty file ≡ ok raw
      → (replaced a disk raw o).0 ≡ ok tt
      → Left json file (replaced a disk raw o).1
  replaced-Left disk raw none e h = renamed-Left (if a.removes then none else disk) raw a.rename e h
  replaced-Left disk raw (some x) e h = cc

  printed-Left :
      (disk : Disk) (r : Result String)
      → json.to_string_pretty file ≡ r
      → (printed a disk r).0 ≡ ok tt
      → Left json file (printed a disk r).1
  printed-Left disk (ok raw) e h = replaced-Left disk raw a.write_temp e h
  printed-Left disk (err x) e h = cc

  in_directory-Left :
      (disk : Disk) (o : Option String)
      → (in_directory json a disk file o).0 ≡ ok tt
      → Left json file (in_directory json a disk file o).1
  in_directory-Left disk none h = printed-Left disk (json.to_string_pretty file) refl h
  in_directory-Left disk (some x) h = cc

  finished_ok_lem :
      (updated u : UserPreferences) (out : Result Unit × Disk)
      → (finished updated file out).0 ≡ ok u
      → (out.0 ≡ ok tt) × ((finished updated file out).2 ≡ out.1)
  finished_ok_lem updated u (ok _, disk) h = (refl, refl)
  finished_ok_lem updated u (err e, disk) h = cc

  load_or_init-Left :
      (answers : Answers) (disk : Disk)
      → ReadsBack json file
      → Left json file disk
      → load_or_init json answers disk ≡ (ok file, disk)
  unfolding load_or_init
  load_or_init-Left answers disk back left =
      let read = back left.0 left.1 in rw (left.2, read.1, if◌then◌else◌, read.0) refl

restarted :
    (json : Json) (a answers : Answers) (file : PreferencesFile) (disk : Disk)
    (updated u : UserPreferences)
    → ReadsBack json (finished updated file (write json a disk file)).1
    → (finished updated file (write json a disk file)).0 ≡ ok u
    → load_or_init json answers (finished updated file (write json a disk file)).2 ≡ (
      ok (finished updated file (write json a disk file)).1,
      (finished updated file (write json a disk file)).2,
    )
unfolding write
restarted json a answers file disk updated u back h =
    let done = finished_ok_lem json a file updated u (write json a disk file) h in
    rw (done.1, finished_file updated file (write json a disk file))
      (load_or_init-Left json a file answers (write json a disk file).1
        (subst (ReadsBack json) (finished_file updated file (write json a disk file)) back)
        (in_directory-Left json a file disk a.create_dir done.0))

initialised_ok : (out : Result Unit × Disk) → out.0 ≡ ok tt → (initialised out).0 ≡ ok default_file
initialised_ok (ok _, disk) h = refl
initialised_ok (err e, disk) h = cc

-- After an update that is reported as done, when serde_json reads back as it was the file now in
-- memory, once printed: a restart finds in the file exactly what is in memory, and leaves it as it is.
pub update_for_twin-load_or_init :
    (lower : String → String) (json : Json) (a answers : Answers) (file : PreferencesFile)
    (disk : Disk) (twin_id : String) (p u : UserPreferences) (now : String)
    → ReadsBack json (update_for_twin lower json a file disk twin_id p now).1
    → (update_for_twin lower json a file disk twin_id p now).0 ≡ ok u
    → load_or_init json answers (update_for_twin lower json a file disk twin_id p now).2 ≡ (
      ok (update_for_twin lower json a file disk twin_id p now).1,
      (update_for_twin lower json a file disk twin_id p now).2,
    )
unfolding update_for_twin
update_for_twin-load_or_init lower json a answers file disk twin_id p u now back h =
    elim (Bool-cases (is_empty (trim twin_id))) [
      | inl b ↦ ground (arith, b, h)
      | inr b ↦
          let updated = normalize lower p now in
          let file' = record file {
            by_twin = HashMap.insert (trim twin_id) updated file.by_twin;
          } in
          rw (b, if◌then◌else◌)
            (restarted json a answers file' disk updated u (rw (b, if◌then◌else◌) at back)
              (ground (arith, b, h)))
    ]

-- An update whose last step fails after the old file was removed: the reply is an error, the change
-- is in memory all the same, and the file is gone, so that a restart whose own write is done starts
-- with no preferences at all, those of every user lost.
pub update_for_twin_lost :
    (lower : String → String) (json : Json) (a answers : Answers) (file : PreferencesFile)
    (disk : Disk) (twin_id : String) (p : UserPreferences) (now raw e : String)
    → is_empty (trim twin_id) ≡ false
    → a.create_dir ≡ none
    → json.to_string_pretty (record file {
      by_twin = HashMap.insert (trim twin_id) (normalize lower p now) file.by_twin;
    })
      ≡ ok raw
    → a.write_temp ≡ none
    → a.removes ≡ true
    → a.rename ≡ some e
    → (write json answers none default_file).0 ≡ ok tt
    → ((update_for_twin lower json a file disk twin_id p now).0
        ≡ err ("failed to replace preferences file: " <> e))
      × ((update_for_twin lower json a file disk twin_id p now).1.by_twin
          ≡ HashMap.insert (trim twin_id) (normalize lower p now) file.by_twin)
      × ((load_or_init json answers (update_for_twin lower json a file disk twin_id p now).2).0
          ≡ ok default_file)
unfolding update_for_twin write load_or_init
update_for_twin_lost lower json a answers file disk twin_id p now raw e k d j t r n w =
    rw (k, if◌then◌else◌, d, j, t, r, n, if◌then◌else◌)
      (refl, refl, initialised_ok (write json answers none default_file) w)

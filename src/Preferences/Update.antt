-- ===== src/Preferences/Update.antt =====
-- preferences.rs: what an update stores, and what is read back.
use pagi_digital_twin.Base.Results.{Result, err, ok}
use pagi_digital_twin.Base.{
  ℕ, zero, suc, ◌≤◌, String, true, false, is_some, is_empty, ◌≡◌, refl, ap, subst, ◌∙◌, ◌==◌,
  if◌then◌else◌, arith, Bool-cases, inl, inr, eq_iff,
}
use pagi_digital_twin.Base.HashMap
use pagi_digital_twin.Base.HashMap.{get-insert}
use pagi_digital_twin.Base.Text.{trim, trim_start, trim_end, is_whitespace}
use pagi_digital_twin.Preferences.{
  UserPreferences, PreferencesFile, find_preset_by_id, find_preset, Json, Answers, Disk, write,
  get_for_twin, count_chars, take_chars, clamp_string, normalize_preset, normalize, update_for_twin,
  finished,
}

count-take_chars : (n : ℕ) (s : String) → count_chars (take_chars n s) ≤ n
count-take_chars zero s = omega arith
count-take_chars (suc n) String.[] = omega arith
count-take_chars (suc n) (String.◌∷◌ c s) = omega (arith, count-take_chars n s)

clamp_string-le : (s : String) (n : ℕ) → count_chars (clamp_string s n) ≤ n
unfolding clamp_string
clamp_string-le s n = ground (arith, count-take_chars n (trim s))

-- The caps on the texts, and a preset that exists.
pub record IsNormal (lower : String → String) (p : UserPreferences) : Type 0 where
  pub nickname : count_chars p.profile.nickname ≤ 256
  pub occupation : count_chars p.profile.occupation ≤ 256
  pub about : count_chars p.profile.about ≤ 4000
  pub custom : count_chars p.custom_instructions ≤ 10000
  pub preset : is_some (find_preset_by_id lower p.persona_preset) ≡ true

default_known :
    (lower : String → String)
    → lower "default" ≡ "default"
    → is_some (find_preset_by_id lower "default") ≡ true
unfolding find_preset_by_id find_preset trim trim_start trim_end is_whitespace
default_known lower e = rw e refl

known_or_default :
    (lower : String → String) (id : String)
    → lower "default" ≡ "default"
    → is_some
        (find_preset_by_id lower (if is_some (find_preset_by_id lower id) then id else "default"))
      ≡ true
known_or_default lower id e = elim (Bool-cases (is_some (find_preset_by_id lower id))) [
  | inl b ↦ rw (b, if◌then◌else◌) b
  | inr b ↦ rw (b, if◌then◌else◌) (default_known lower e)
]

normalize_preset_known :
    (lower : String → String) (name : String)
    → lower "default" ≡ "default"
    → is_some (find_preset_by_id lower (normalize_preset lower name)) ≡ true
unfolding normalize_preset
normalize_preset_known lower name e =
    known_or_default lower (if is_empty (lower (trim name)) then "default" else lower (trim name)) e

normalize-IsNormal :
    (lower : String → String) (p : UserPreferences) (now : String)
    → lower "default" ≡ "default"
    → IsNormal lower (normalize lower p now)
unfolding normalize
normalize-IsNormal lower p now e = record {
  nickname = clamp_string-le p.profile.nickname 256;
  occupation = clamp_string-le p.profile.occupation 256;
  about = clamp_string-le p.profile.about 4000;
  custom = clamp_string-le p.custom_instructions 10000;
  preset = normalize_preset_known lower p.persona_preset e;
}

finished_ok :
    (updated u : UserPreferences) (file : PreferencesFile) (out : Result Unit × Disk)
    → (finished updated file out).0 ≡ ok u
    → updated ≡ u
finished_ok updated u file (ok _, disk) h = cc
finished_ok updated u file (err e, disk) h = cc

pub finished_file :
    (updated : UserPreferences) (file : PreferencesFile) (out : Result Unit × Disk)
    → (finished updated file out).1 ≡ file
finished_file updated file (ok _, disk) = refl
finished_file updated file (err e, disk) = refl

get_for_twin-insert :
    (k : String) (u : UserPreferences) (file : PreferencesFile) (j later : String)
    → is_empty k ≡ false
    → get_for_twin (record file { by_twin = HashMap.insert k u file.by_twin }) j later
      ≡ (if k == trim j then u else get_for_twin file j later)
unfolding get_for_twin
get_for_twin-insert k u file j later e = ground (
  arith,
  e,
  eq_iff k (trim j),
  eq_iff k "",
  eq_iff (trim j) "",
  get-insert k (trim j) u file.by_twin,
)

-- With an update reported as done: the preferences returned are within the caps (256, 256, 4000 and
-- 10000 characters) and name an existing preset; every later reading for the user gives them, however
-- the identifier is padded, and a reading for any other gives what it did before. The lower case of
-- "default" is itself.
pub update_for_twin-get :
    (lower : String → String) (json : Json) (a : Answers) (file : PreferencesFile) (disk : Disk)
    (twin_id : String) (p u : UserPreferences) (now : String)
    → lower "default" ≡ "default"
    → (update_for_twin lower json a file disk twin_id p now).0 ≡ ok u
    → IsNormal lower u
      × ((j later : String)
          → get_for_twin (update_for_twin lower json a file disk twin_id p now).1 j later
            ≡ (if trim twin_id == trim j then u else get_for_twin file j later))
unfolding update_for_twin
update_for_twin-get lower json a file disk twin_id p u now e h =
    elim (Bool-cases (is_empty (trim twin_id))) [
      | inl b ↦ ground (arith, b, h)
      | inr b ↦
          let updated = normalize lower p now in
          let file' = record file {
            by_twin = HashMap.insert (trim twin_id) updated file.by_twin;
          } in
          let same = finished_ok updated u file' (write json a disk file') (ground (arith, b, h)) in
          (
            subst (IsNormal lower) same (normalize-IsNormal lower p now e),
            λ j later.
                rw (b, if◌then◌else◌)
                  (ap (λ f. get_for_twin f j later)
                      (finished_file updated file' (write json a disk file'))
                    ∙ get_for_twin-insert (trim twin_id) updated file j later b
                    ∙ ap (λ v. if trim twin_id == trim j then v else get_for_twin file j later)
                        same),
          )
    ]

-- ===== src/Installer/Simulation.antt =====
-- tools/safe_installer.rs: what runs in the sandbox, and what a successful simulation means.
use pagi_digital_twin.Base.Results.{err, ok}
use pagi_digital_twin.Base.{
  String, Bool, true, List, [], ◌∷◌, ◌++◌, Option, none, some, unwrap_or, ◌≡◌, refl, ap, any, ◌==◌,
  arith, Bool-cases, inl, inr, eq_refl,
}
use pagi_digital_twin.Host.{◌<>◌}
use pagi_digital_twin.Installer.{
  Words, Output, not_started, ended, Accepted, validate_installation_command, Ran, read_output,
}
use pagi_digital_twin.Installer.Sandbox.{
  Command, World, Worlds, SimulationResult, is_pip, in_dir, venv_program, install_cargo,
  install_accepted, execute_sandbox_installation, verify_sandbox_installation, report_simulation,
  error_of, run_simulation, setup_sandbox_environment, cleanup_sandbox,
}
use pagi_digital_twin.Installer.Validation.{IsSafe, validate_installation_command-IsSafe}

-- A process with these arguments ran in the sandbox and gave this outcome.
abbrev pub RanInside : World → String → List String → Bool × String × String → Type 0
RanInside w sandbox args out =
    (c : Command) × (c.args ≡ args)
    × (c.current_dir ≡ some sandbox)
    × (w.run c ≡ ended out.0 out.1 out.2)

ok_injective : {x y : Bool × String × String} → ◌≡◌ {A = Ran} (ok x) (ok y) → x ≡ y
ok_injective e = cc

read_output_lem :
    (what : String) (o : Output) (out : Bool × String × String)
    → read_output what o ≡ ok out
    → o ≡ ended out.0 out.1 out.2
unfolding read_output
read_output_lem what (not_started e) out r = cc
read_output_lem what (ended success stdout stderr) out r =
    ap (λ o. ended o.0 o.1 o.2) (ok_injective r)

module _ (w : World) (out : Bool × String × String) where
  ended_in :
      (c : Command)
      → read_output "Failed to execute installation command: " (w.run c) ≡ ok out
      → w.run c ≡ ended out.0 out.1 out.2
  ended_in c h = read_output_lem "Failed to execute installation command: " (w.run c) out h

module _ (w : World) (sandbox program : String) (args : List String)
    (out : Bool × String × String) where
  install_cargo-RanInside :
      (made : Option String)
      → install_cargo w sandbox program args made ≡ ok out
      → RanInside w sandbox args out
  unfolding install_cargo
  install_cargo-RanInside (some e) h = cc
  install_cargo-RanInside none h =
      let c = record (in_dir sandbox program args) {
        cargo_home = some (w.join sandbox "cargo_home");
      } in
      (c, refl, refl, ended_in w out c h)

  install_accepted-RanInside :
      (kind : String)
      → install_accepted w sandbox kind (ok (program, args)) ≡ ok out
      → RanInside w sandbox args out
  unfolding install_accepted
  install_accepted-RanInside kind h = elim (Bool-cases (is_pip kind)) [
    | inl b ↦ elim (Bool-cases (w.exists (venv_program w sandbox "pip.exe" "pip"))) [
      | inl c ↦
          let pip = in_dir sandbox (venv_program w sandbox "pip.exe" "pip") args in
          (pip, refl, refl, ended_in w out pip (ground (arith, b, c, h)))
      | inr c ↦ ground (arith, b, c, h)
    ]
    | inr b ↦ elim (Bool-cases (kind == "cargo")) [
      | inl c ↦
          install_cargo-RanInside (w.create_dir_all (w.join sandbox "cargo_home"))
            (ground (arith, b, c, h))
      | inr c ↦
          let plain = in_dir sandbox program args in
          (plain, refl, refl, ended_in w out plain (ground (arith, b, c, h)))
    ]
  ]

execute_of :
    (words : Words) (w : World) (sandbox command kind : String) (accepted : Accepted)
    (out : Bool × String × String)
    → validate_installation_command words command ≡ accepted
    → install_accepted w sandbox kind accepted ≡ ok out
    → (program : String) × (args : List String) × IsSafe words program args
      × RanInside w sandbox args out
unfolding install_accepted
execute_of words w sandbox command kind (err e) out v h = cc
execute_of words w sandbox command kind (ok (program, args)) out v h = (
  program,
  args,
  validate_installation_command-IsSafe words command (program, args) v,
  install_accepted-RanInside w sandbox program args out kind h,
)

-- Whatever the command and the kind of installation: if the sandboxed installation gives an outcome,
-- it is that of a process that ran in the sandbox directory, with the arguments of a command that
-- meets every condition of the validation.
pub execute_sandbox_installation-RanInside :
    (words : Words) (w : World) (sandbox command kind : String) (out : Bool × String × String)
    → execute_sandbox_installation words w sandbox command kind ≡ ok out
    → (program : String) × (args : List String) × IsSafe words program args
      × RanInside w sandbox args out
unfolding execute_sandbox_installation
execute_sandbox_installation-RanInside words w sandbox command kind out h =
    execute_of words w sandbox command kind (validate_installation_command words command) out refl h

any_left : (p : String → Bool) (xs ys : List String) → any p xs ≡ true → any p (xs ++ ys) ≡ true
any_left p [] ys h = cc
any_left p (x ∷ xs) ys h = ground (arith, h, any_left p xs ys)

any_right : (p : String → Bool) (xs ys : List String) → any p ys ≡ true → any p (xs ++ ys) ≡ true
any_right p [] ys h = h
any_right p (x ∷ xs) ys h = ground (arith, any_right p xs ys h)

has_refusal :
    (e : String) (before between behind : List String)
    → any
        (λ line. line == ("Installation execution failed: " <> e))
        (before ++ ("Installation execution failed: " <> e) ∷ [] ++ between ++ behind)
      ≡ true
has_refusal e before between behind =
    let refusal = "Installation execution failed: " <> e in
    any_left (λ line. line == refusal) (before ++ refusal ∷ [] ++ between) behind
      (any_left (λ line. line == refusal) (before ++ refusal ∷ []) between
        (any_right (λ line. line == refusal) before (refusal ∷ [])
          (ground (arith, eq_refl refusal))))

-- A simulation can succeed although nothing was installed: when the validation refuses the command, a
-- check that ends well still makes the result a success, with the refusal among its errors.
pub run_simulation_refused :
    (words : Words) (ws : Worlds) (sandbox tool_name command kind : String) (custom : Option String)
    (e stdout stderr : String)
    → validate_installation_command words command ≡ err e
    → ws.at_setup.create_dir_all sandbox ≡ none
    → verify_sandbox_installation ws.at_verify sandbox tool_name kind (unwrap_or custom "")
      ≡ ok (true, stdout, stderr)
    → (r : SimulationResult) × (run_simulation words ws sandbox tool_name command kind custom
        ≡ ok r)
      × (r.success ≡ true)
      × (any (λ line. line == ("Installation execution failed: " <> e)) r.errors ≡ true)
unfolding run_simulation execute_sandbox_installation install_accepted report_simulation
run_simulation_refused words ws sandbox tool_name command kind custom e stdout stderr v made
      checked =
    (
      report_simulation tool_name sandbox (setup_sandbox_environment ws.at_setup sandbox kind)
          (err e) (ok (true, stdout, stderr)) (cleanup_sandbox ws.at_cleanup sandbox),
      rw (made, v, checked) refl,
      refl,
      has_refusal e
          (error_of "Sandbox setup failed: " (setup_sandbox_environment ws.at_setup sandbox kind))
          [] (error_of "Cleanup warning: " (cleanup_sandbox ws.at_cleanup sandbox)),
    )

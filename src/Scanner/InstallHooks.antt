-- ===== src/Scanner/InstallHooks.antt =====
-- app/infrastructure/scanner/install_hook_detector.py. The values of the scripts are never read.
pub mod Reports
use npm_sentinel.Base.{
  Bool, false, not, ◌&&◌, ◌||◌, Option, none, some, String, List, [], ◌∷◌, ◌++◌, if◌then◌else◌,
  is_some, str_eq, one_of, append,
}
use npm_sentinel.Base.Dict.{Dict, contains}
use npm_sentinel.Domain.Enums.{
  FindingType, install_hook_added, install_hook_removed, install_hook_present, FindingSeverity, low,
  medium, high, same_type,
}
use npm_sentinel.Domain.Findings.{Finding}

abbrev pub required_hooks : List String
required_hooks = "preinstall" ∷ "install" ∷ "postinstall" ∷ []

abbrev pub optional_hooks : List String
optional_hooks = "prepare" ∷ "prepublish" ∷ "prepublishOnly" ∷ []

abbrev pub all_hooks : List String
all_hooks = required_hooks ++ optional_hooks

unfoldable pub hook_finding : FindingType → FindingSeverity → String → String → Finding
hook_finding type severity hook_name text = record {
  finding_type = type;
  severity = severity;
  category = "scripts";
  description = append hook_name text;
  file_path = none;
  evidence = some hook_name;
}

-- One round of the loop: the finding for one hook name, if any, from whether the latest version
-- has the hook, whether there is a previous version, and whether that one has the hook.
unfoldable pub hook_round : String → Bool → Bool → Bool → List Finding
unfolding hook_finding one_of
hook_round hook_name has_latest has_previous_version has_previous =
    let required_hook = one_of required_hooks hook_name in
    if has_latest && (has_previous_version && not has_previous)
    then hook_finding install_hook_added (if required_hook then high else medium) hook_name
        " script added in latest package version."
      ∷ []
    else if has_previous && not has_latest
    then hook_finding install_hook_removed low hook_name
        " script removed in latest package version."
      ∷ []
    else if has_latest
    then hook_finding install_hook_present (if required_hook then medium else low) hook_name
        " script is present in package scripts."
      ∷ []
    else []

-- `previous_scripts or {}`
abbrev pub or_empty : Option (Dict String) → Dict String
or_empty none = []
or_empty (some d) = d

unfoldable pub hook_loop : List String → Dict String → Option (Dict String) → List Finding
hook_loop [] latest previous = []
hook_loop (hook ∷ hooks) latest previous =
    hook_round hook (contains hook latest) (is_some previous) (contains hook (or_empty previous))
    ++ hook_loop hooks latest previous

unfoldable pub detect_install_hooks : Dict String → Option (Dict String) → List Finding
unfolding hook_loop hook_round contains
detect_install_hooks latest previous = hook_loop all_hooks latest previous

-- The findings hold one of type `t` with the evidence `h`.
unfoldable pub reports : FindingType → String → List Finding → Bool
unfolding same_type
reports t h [] = false
reports t h (f ∷ fs) =
    same_type f.finding_type t && elim f.evidence [ none ↦ false | some e ↦ str_eq e h ]
    || reports t h fs

-- When a hook is to be reported, and how.
unfoldable pub due : FindingType → Bool → Bool → Bool → Bool
due install_hook_added latest versioned previous = latest && (versioned && not previous)
due install_hook_removed latest versioned previous = previous && not latest
due install_hook_present latest versioned previous = latest && (previous || not versioned)
due _ latest versioned previous = false

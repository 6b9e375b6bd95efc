-- ===== src/Scanner/InstallHooks/Reports.antt =====
-- The hook detector against the table of what is to be reported.
use mathlib.Core.Path.{ap₂}
use npm_sentinel.Base.{
  ◌∙◌, inl, inr, Bool-cases, not, ◌≡◌, refl, Bool, true, ◌&&◌, ◌||◌, Option, none, some, String,
  List, [], ◌∷◌, ◌++◌, arith, is_some, str_eq, str_eq_iff, one_of,
}
use npm_sentinel.Base.Dict.{Dict, contains}
use npm_sentinel.Domain.Enums.{FindingType, same_type}
use npm_sentinel.Domain.Findings.{Finding}
use npm_sentinel.Scanner.InstallHooks.{
  all_hooks, or_empty, hook_finding, hook_round, hook_loop, detect_install_hooks, reports, due,
}

reports-append :
    (t : FindingType) (h : String) (fs gs : List Finding)
    → reports t h (fs ++ gs) ≡ (reports t h fs || reports t h gs)
unfolding reports
reports-append t h [] gs = refl
reports-append t h (f ∷ fs) gs = ground (arith, reports-append t h fs gs)

-- What the first name contributes, and what the others do.
due_or :
    (due_for : String → Bool) (g h : String) (others : Bool)
    → (str_eq g h && due_for g || others && due_for h) ≡ ((str_eq g h || others) && due_for h)
due_or due_for g h others = elim (Bool-cases (str_eq g h)) [
  | inl same ↦ rw (same, (str_eq_iff g h).0 same) (ground arith)
  | inr other ↦ rw other
]

-- Without a previous version there are no previous hooks.
previous_known :
    (g : String) (previous : Option (Dict String))
    → (is_some previous || not (contains g (or_empty previous))) ≡ true
unfolding contains
previous_known g none = refl
previous_known g (some p) = refl

module _ (t : FindingType) (h : String) where
  -- Without a previous version there are no previous hooks.
  reports-hook_round :
      (g : String) (latest versioned previous : Bool)
      → (versioned || not previous) ≡ true
      → reports t h (hook_round g latest versioned previous)
        ≡ (str_eq g h && due t latest versioned previous)
  unfolding reports hook_round hook_finding due same_type
  reports-hook_round g latest versioned previous c = ground arith

  reports-hook_loop :
      (hooks : List String) (latest : Dict String) (previous : Option (Dict String))
      → reports t h (hook_loop hooks latest previous) ≡ (
          one_of hooks h
          && due t (contains h latest) (is_some previous) (contains h (or_empty previous)))
  unfolding reports hook_loop one_of
  reports-hook_loop [] latest previous = refl
  reports-hook_loop (g ∷ hooks) latest previous =
      let due_for = λ (n : String).
        due t (contains n latest) (is_some previous) (contains n (or_empty previous)) in
      reports-append t h
        (hook_round g (contains g latest) (is_some previous) (contains g (or_empty previous)))
        (hook_loop hooks latest previous)
      ∙ ap₂ ◌||◌
          (reports-hook_round g (contains g latest) (is_some previous)
            (contains g (or_empty previous)) (previous_known g previous))
          (reports-hook_loop hooks latest previous)
      ∙ due_or due_for g h (one_of hooks h)

-- For each of the six hook names and each type of finding, the detector reports the hook so exactly
-- when it is due by the table `due`: added if the latest version has it and the known previous one
-- has not, removed if only the previous one has it, present if the latest one has it otherwise. Of
-- other names nothing is reported.
pub detect_install_hooks-due :
    (t : FindingType) (h : String) (latest : Dict String) (previous : Option (Dict String))
    → reports t h (detect_install_hooks latest previous) ≡ (
        one_of all_hooks h
        && due t (contains h latest) (is_some previous) (contains h (or_empty previous)))
unfolding detect_install_hooks
detect_install_hooks-due t h latest previous = reports-hook_loop t h all_hooks latest previous

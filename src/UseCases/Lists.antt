-- ===== src/UseCases/Lists.antt =====
-- The use cases of the listings: list_packages.py, list_package_versions.py, list_scans.py, list_findings.py and
-- get_package_details.py of app/application/use_cases. Each builds the filters and the page, and asks the repository.
use npm_sentinel.Base.{
  ℕ, String, ◌≡◌, ◌≢◌, sym, ap, ◌∙◌, refl, Bool, false, Option, none, some, List, [], ◌∷◌, strip,
  lower, upper, is_empty, if◌then◌else◌,
}
use npm_sentinel.Base.Dict.{Dict, lookup}
use npm_sentinel.Domain.Enums.{
  FindingType, install_hook_added, install_hook_removed, install_hook_present, size_increase_medium,
  size_increase_high, executable_binary, obfuscated_code, command_execution_pattern, type_value,
}
use npm_sentinel.Db.Models.{Db}
use npm_sentinel.Db.Reads.{
  PackageListItem, PackageVersionRead, ScanResultRead, FindingRead, PackageDetail,
}
use npm_sentinel.Db.Queries.{list_scan_results, list_findings}
use npm_sentinel.Db.Queries.Packages.{list_packages, list_package_versions, get_package_detail}

abbrev pub finding_type_aliases : Dict String
finding_type_aliases =
    ("install_hook_added", "INSTALL_HOOK_ADDED")
    ∷ ("install_hook_removed", "INSTALL_HOOK_REMOVED")
    ∷ ("install_hook_present", "INSTALL_HOOK_PRESENT")
    ∷ ("size_increase_medium", "SIZE_INCREASE_MEDIUM")
    ∷ ("size_increase_high", "SIZE_INCREASE_HIGH")
    ∷ ("executable_binary", "EXECUTABLE_BINARY")
    ∷ ("obfuscated_code", "OBFUSCATED_CODE")
    ∷ ("command_execution_pattern", "COMMAND_EXECUTION_PATTERN")
    ∷ []

-- The alias, if there is one.
abbrev pub or_upper : Option String → String → String
or_upper none text = upper text
or_upper (some alias) text = alias

-- `_normalize_finding_type`
unfoldable pub normalize_finding_type : Option String → Option String
unfolding strip lower upper lookup
normalize_finding_type none = none
normalize_finding_type (some text) =
    if is_empty text
    then none
    else some (or_upper (lookup (lower (strip text)) finding_type_aliases) (strip text))

unfoldable pub list_findings_use_case :
    ℕ → ℕ → Option String → Option String → Option String → Db → List FindingRead × ℕ
unfolding normalize_finding_type list_findings
list_findings_use_case limit offset severity finding_type package_name =
    list_findings
      (record {
        severity = severity;
        finding_type = normalize_finding_type finding_type;
        package_name = package_name;
      })
      (record { limit = limit; offset = offset })

unfoldable pub list_packages_use_case :
    (String → String → Bool) → ℕ → ℕ → Option String → Option String → Db → List PackageListItem × ℕ
unfolding list_packages
list_packages_use_case text_before limit offset risk_level name_query =
    list_packages text_before (record { risk_level = risk_level; name_query = name_query })
      (record { limit = limit; offset = offset })

unfoldable pub list_scans_use_case :
    ℕ → ℕ → Option String → Option String → Option String → Db → List ScanResultRead × ℕ
unfolding list_scan_results
list_scans_use_case limit offset status risk_level package_name =
    list_scan_results
      (record { status = status; risk_level = risk_level; package_name = package_name })
      (record { limit = limit; offset = offset })

unfoldable pub list_package_versions_use_case : String → ℕ → ℕ → Db → List PackageVersionRead × ℕ
unfolding list_package_versions
list_package_versions_use_case package_name limit offset =
    list_package_versions package_name (record { limit = limit; offset = offset })

unfoldable pub get_package_details_use_case : String → Db → Option PackageDetail
unfolding get_package_detail
get_package_details_use_case package_name = get_package_detail package_name

alias_of_type :
    (t : FindingType) (stripped : String)
    → or_upper (lookup (lower (type_value t)) finding_type_aliases) stripped ≡ type_value t
unfolding lookup lower type_value
alias_of_type install_hook_added stripped = refl
alias_of_type install_hook_removed stripped = refl
alias_of_type install_hook_present stripped = refl
alias_of_type size_increase_medium stripped = refl
alias_of_type size_increase_high stripped = refl
alias_of_type executable_binary stripped = refl
alias_of_type obfuscated_code stripped = refl
alias_of_type command_execution_pattern stripped = refl

type_value-solid : (t : FindingType) → is_empty (lower (type_value t)) ≡ false
unfolding lower type_value
type_value-solid install_hook_added = refl
type_value-solid install_hook_removed = refl
type_value-solid install_hook_present = refl
type_value-solid size_increase_medium = refl
type_value-solid size_increase_high = refl
type_value-solid executable_binary = refl
type_value-solid obfuscated_code = refl
type_value-solid command_execution_pattern = refl

type_value-ne-empty : (t : FindingType) → lower (type_value t) ≢ ""
type_value-ne-empty t h = cc (ap is_empty h, type_value-solid t)

-- Each type of finding is found by its value in any case and with any white space around.
pub normalize_finding_type-any_case :
    (t : FindingType) (text : String)
    → lower (strip text) ≡ lower (type_value t)
    → normalize_finding_type (some text) ≡ some (type_value t)
unfolding normalize_finding_type
normalize_finding_type-any_case t String.[] h = absurd (type_value-ne-empty t (sym h))
normalize_finding_type-any_case t (String.◌∷◌ c s) h = ap some (
    ap (λ (k : String). or_upper (lookup k finding_type_aliases) (strip (String.◌∷◌ c s))) h
    ∙ alias_of_type t (strip (String.◌∷◌ c s)))

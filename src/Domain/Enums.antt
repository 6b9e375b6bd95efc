-- ===== src/Domain/Enums.antt =====
-- app/domain/enums.py: the enumerations, with the text that each member is.
use npm_sentinel.Base.{ℕ, String, Bool, ◌==◌}

pub data FindingType : Type 0 where
  install_hook_added install_hook_removed install_hook_present : FindingType
  size_increase_medium size_increase_high executable_binary : FindingType
  obfuscated_code command_execution_pattern : FindingType

pub data FindingSeverity : Type 0 where
  low medium high critical : FindingSeverity

-- `FindingType.value`
unfoldable pub type_value : FindingType → String
type_value install_hook_added = "INSTALL_HOOK_ADDED"
type_value install_hook_removed = "INSTALL_HOOK_REMOVED"
type_value install_hook_present = "INSTALL_HOOK_PRESENT"
type_value size_increase_medium = "SIZE_INCREASE_MEDIUM"
type_value size_increase_high = "SIZE_INCREASE_HIGH"
type_value executable_binary = "EXECUTABLE_BINARY"
type_value obfuscated_code = "OBFUSCATED_CODE"
type_value command_execution_pattern = "COMMAND_EXECUTION_PATTERN"

-- `FindingSeverity.value`
unfoldable pub severity_value : FindingSeverity → String
severity_value low = "low"
severity_value medium = "medium"
severity_value high = "high"
severity_value critical = "critical"

unfoldable pub type_index : FindingType → ℕ
type_index install_hook_added = 0
type_index install_hook_removed = 1
type_index install_hook_present = 2
type_index size_increase_medium = 3
type_index size_increase_high = 4
type_index executable_binary = 5
type_index obfuscated_code = 6
type_index command_execution_pattern = 7

-- Equality of members.
unfoldable pub same_type : FindingType → FindingType → Bool
unfolding type_index
same_type a b = type_index a == type_index b

-- ===== src/Db/Models.antt =====
-- app/infrastructure/db/models.py: the rows of the tables. A column that a check constraint holds to a few
-- texts is an enumeration where the code only ever passes those; times are numbers.
use npm_sentinel.Base.{ℕ, String, Bool, true, false, Option, List}
use npm_sentinel.Base.Int.{ℤ}
use npm_sentinel.Base.Dict.{Dict}
use npm_sentinel.Base.Json.{Json}

pub data ScanStatus : Type 0 where
  queued running completed failed : ScanStatus

pub data QueueJobStatus : Type 0 where
  queued running completed failed : QueueJobStatus

pub record PackageModel : Type 0 where
  pub id : ℕ
  pub name : String
  pub latest_scanned_version : Option String
  pub last_scanned_at : Option ℕ
  pub created_at : ℕ
  pub updated_at : ℕ

-- `PackageVersionMetadata` of app/application/ports/package_repository.py
pub record PackageVersionMetadata : Type 0 where
  pub published_at : Option ℕ
  pub tarball_url : Option String
  pub integrity : Option String
  pub unpacked_size : Option ℤ
  pub file_count : Option ℤ
  pub package_json : Dict Json
  pub dependencies : Dict Json
  pub scripts : Dict Json

pub record PackageVersionModel : Type 0 where
  pub id : ℕ
  pub package_id : ℕ
  pub version : String
  pub metadata : PackageVersionMetadata
  pub created_at : ℕ

pub record ScanResultModel : Type 0 where
  pub id : ℕ
  pub package_id : ℕ
  pub latest_version : Option String
  pub previous_version : Option String
  pub status : ScanStatus
  pub score : Option ℤ
  pub risk_level : String
  pub error_message : Option String
  pub started_at : ℕ
  pub finished_at : Option ℕ
  pub created_at : ℕ

-- `FindingCreate` of app/application/ports/package_repository.py
pub record FindingCreate : Type 0 where
  pub finding_type : String
  pub severity : String
  pub category : String
  pub description : String
  pub file_path : Option String
  pub evidence : Option String

pub record FindingModel : Type 0 where
  pub id : ℕ
  pub scan_result_id : ℕ
  pub finding : FindingCreate
  pub created_at : ℕ

pub record QueueJobModel : Type 0 where
  pub task_id : String
  pub job_type : String
  pub package_name : Option String
  pub reason : String
  pub status : QueueJobStatus
  pub error_message : Option String
  pub started_at : Option ℕ
  pub finished_at : Option ℕ
  pub created_at : ℕ

pub record Db : Type 0 where
  pub packages : List PackageModel
  pub versions : List PackageVersionModel
  pub scan_results : List ScanResultModel
  pub findings : List FindingModel
  pub queue_jobs : List QueueJobModel

abbrev pub is_running : ScanStatus → Bool
is_running ScanStatus.running = true
is_running _ = false

abbrev pub is_queued : ScanStatus → Bool
is_queued ScanStatus.queued = true
is_queued _ = false

-- `status.in_([QUEUED, FAILED])` and `status.in_([QUEUED, RUNNING])`
abbrev pub may_start : QueueJobStatus → Bool
may_start QueueJobStatus.queued = true
may_start QueueJobStatus.failed = true
may_start _ = false

abbrev pub may_end : QueueJobStatus → Bool
may_end QueueJobStatus.queued = true
may_end QueueJobStatus.running = true
may_end _ = false

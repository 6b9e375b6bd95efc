-- ===== src/Core/Exceptions.antt =====
-- app/core/exceptions.py, with the classes of Python and of the database driver that the code
-- raises or catches beside them; exceptions as values, and results that may be one.
use npm_sentinel.Base.{
  ℕ, ◌≡◌, refl, Bool, false, ◌||◌, Option, none, some, List, String, any, ◌==◌, if◌then◌else◌,
}

pub data ExceptionClass : Type 0 where
  npm_registry_error npm_package_not_found_error npm_registry_timeout_error : ExceptionClass
  npm_registry_malformed_response_error : ExceptionClass
  package_list_source_error package_list_source_timeout_error : ExceptionClass
  package_list_source_malformed_content_error : ExceptionClass
  queue_publish_error : ExceptionClass
  tarball_download_error tarball_download_timeout_error : ExceptionClass
  tarball_size_limit_exceeded_error tarball_integrity_error : ExceptionClass
  tarball_extract_error tarball_unsafe_member_error tarball_malformed_archive_error : ExceptionClass
  tarball_extraction_limit_exceeded_error scanner_limit_exceeded_error : ExceptionClass
  value_error runtime_error os_error tar_error database_error kombu_error other_error :
      ExceptionClass

-- The base class, below `Exception`.
unfoldable pub base : ExceptionClass → Option ExceptionClass
base npm_package_not_found_error = some npm_registry_error
base npm_registry_timeout_error = some npm_registry_error
base npm_registry_malformed_response_error = some npm_registry_error
base package_list_source_timeout_error = some package_list_source_error
base package_list_source_malformed_content_error = some package_list_source_error
base tarball_download_timeout_error = some tarball_download_error
base tarball_size_limit_exceeded_error = some tarball_download_error
base tarball_integrity_error = some tarball_download_error
base tarball_unsafe_member_error = some tarball_extract_error
base tarball_malformed_archive_error = some tarball_extract_error
base tarball_extraction_limit_exceeded_error = some tarball_extract_error
base _ = none

-- A number for each class, to compare them.
unfoldable pub index : ExceptionClass → ℕ
index npm_registry_error = 0
index npm_package_not_found_error = 1
index npm_registry_timeout_error = 2
index npm_registry_malformed_response_error = 3
index package_list_source_error = 4
index package_list_source_timeout_error = 5
index package_list_source_malformed_content_error = 6
index queue_publish_error = 7
index tarball_download_error = 8
index tarball_download_timeout_error = 9
index tarball_size_limit_exceeded_error = 10
index tarball_integrity_error = 11
index tarball_extract_error = 12
index tarball_unsafe_member_error = 13
index tarball_malformed_archive_error = 14
index tarball_extraction_limit_exceeded_error = 15
index scanner_limit_exceeded_error = 16
index value_error = 17
index runtime_error = 18
index os_error = 19
index database_error = 20
index other_error = 21
index tar_error = 22
index kombu_error = 23

unfoldable pub same_class : ExceptionClass → ExceptionClass → Bool
unfolding index
same_class c d = index c == index d

-- `isinstance`: the hierarchy is two levels deep.
unfoldable pub is_instance : ExceptionClass → ExceptionClass → Bool
unfolding same_class base
is_instance c d = same_class c d || elim (base c) [ none ↦ false | some b ↦ same_class b d ]

-- `isinstance` with a tuple of classes.
unfoldable pub is_instance_of_any : List ExceptionClass → ExceptionClass → Bool
unfolding is_instance
is_instance_of_any ds c = any (is_instance c) ds

pub record Exception : Type 0 where
  pub class : ExceptionClass
  pub message : String

-- What a call comes to: a value that it returns, or an exception that it raises.
pub data Result {ℓ} (A : Type ℓ) : Type ℓ where
  err : Exception → Result A
  ok : A → Result A

-- One call after another, as the lines of a function.
infixl 5 ◌>>=◌ ◌>>◌
abbrev pub ◌>>=◌ {ℓ κ} : {A : Type ℓ} {B : Type κ} → Result A → (A → Result B) → Result B
err raised >>= next = err raised
ok value >>= next = next value

abbrev pub ◌>>◌ {ℓ κ} : {A : Type ℓ} {B : Type κ} → Result A → Result B → Result B
first >> second = first >>= λ ignored. second

abbrev pub raise {ℓ} : {A : Type ℓ} → ExceptionClass → String → Result A
raise c m = err (record { class = c; message = m })

-- `if test: raise …`
abbrev pub raise_if : Bool → ExceptionClass → String → Result (Unit {0})
raise_if b c m = if b then raise c m else ok tt

-- Inversion of a successful bind.
pub >>=-eq-ok {ℓ κ} :
    {A : Type ℓ} {B : Type κ} (first : Result A) (next : A → Result B) {result : B}
    → (first >>= next) ≡ ok result
    → (value : A) × (first ≡ ok value) × (next value ≡ ok result)
>>=-eq-ok (err raised) next returned = cc
>>=-eq-ok (ok value) next returned = (value, refl, returned)

-- ===== src/Worker/Tasks/Retries.antt =====
-- Which exceptions make the queue run a scan again.
use npm_sentinel.Base.{ℕ, ◌<◌, arith, ◌≡◌, refl, ◌↔◌, ◌⊎◌, inl, inr, true}
use npm_sentinel.Core.Exceptions.{
  ExceptionClass, npm_registry_error, npm_package_not_found_error, npm_registry_timeout_error,
  npm_registry_malformed_response_error, package_list_source_error,
  package_list_source_timeout_error, package_list_source_malformed_content_error,
  queue_publish_error, tarball_download_error, tarball_download_timeout_error,
  tarball_size_limit_exceeded_error, tarball_integrity_error, tarball_extract_error,
  tarball_unsafe_member_error, tarball_malformed_archive_error,
  tarball_extraction_limit_exceeded_error, scanner_limit_exceeded_error, value_error, runtime_error,
  os_error, tar_error, database_error, kombu_error, other_error, base, is_instance,
  is_instance_of_any, same_class, index,
}
use npm_sentinel.Worker.Tasks.{is_retried}

retried_at_first :
    (c : ExceptionClass)
    → is_retried 0 c ≡ true
    → (c ≡ npm_registry_timeout_error)
      ⊎ ((c ≡ tarball_download_error) ⊎ (c ≡ tarball_download_timeout_error))
unfolding is_retried is_instance_of_any is_instance same_class index base
retried_at_first npm_registry_error h = cc
retried_at_first npm_package_not_found_error h = cc
retried_at_first npm_registry_timeout_error h = inl refl
retried_at_first npm_registry_malformed_response_error h = cc
retried_at_first package_list_source_error h = cc
retried_at_first package_list_source_timeout_error h = cc
retried_at_first package_list_source_malformed_content_error h = cc
retried_at_first queue_publish_error h = cc
retried_at_first tarball_download_error h = inr (inl refl)
retried_at_first tarball_download_timeout_error h = inr (inr refl)
retried_at_first tarball_size_limit_exceeded_error h = cc
retried_at_first tarball_integrity_error h = cc
retried_at_first tarball_extract_error h = cc
retried_at_first tarball_unsafe_member_error h = cc
retried_at_first tarball_malformed_archive_error h = cc
retried_at_first tarball_extraction_limit_exceeded_error h = cc
retried_at_first scanner_limit_exceeded_error h = cc
retried_at_first value_error h = cc
retried_at_first runtime_error h = cc
retried_at_first os_error h = cc
retried_at_first tar_error h = cc
retried_at_first database_error h = cc
retried_at_first kombu_error h = cc
retried_at_first other_error h = cc

first_suffices :
    (retries : ℕ) (c : ExceptionClass)
    → is_retried retries c ≡ true ↔ (retries < 3) × (is_retried 0 c ≡ true)
unfolding is_retried
first_suffices retries c = (λ h. ground arith, λ h. ground arith)

-- A scan that failed is run again exactly if it was retried less than three times, and failed for a timeout of the
-- registry, or for a download that failed or timed out; so for no other exception that is derived from these.
pub is_retried_iff :
    (retries : ℕ) (c : ExceptionClass)
    → is_retried retries c ≡ true
      ↔ (retries < 3)
        × ((c ≡ npm_registry_timeout_error)
            ⊎ ((c ≡ tarball_download_error) ⊎ (c ≡ tarball_download_timeout_error)))
unfolding is_retried is_instance_of_any is_instance same_class index base
is_retried_iff retries c = (
  λ h. let (few, first) = (first_suffices retries c).0 h in (few, retried_at_first c first),
  λ (few, h).
      (first_suffices retries c).1
        (few, elim h [ inl e ↦ rw e refl | inr (inl e) ↦ rw e refl | inr (inr e) ↦ rw e refl ]),
)

-- ===== src/UseCases/MonitorUpdates/Totals.antt =====
-- The counters of a run of the monitor, in whichever order its tasks take their turns.
use npm_sentinel.Base.{
  ℕ, suc, ◌+◌, String, ◌≡◌, refl, ◌∙◌, inl, inr, Bool, true, false, not, Option, none, some, List,
  [], ◌∷◌, map, arith, if◌then◌else◌, Bool-cases, length, length-append,
}
use npm_sentinel.Core.Exceptions.{ExceptionClass, Result, ok, err}
use npm_sentinel.UseCases.ScanPackage.{PackageRegistryMetadata}
use npm_sentinel.UseCases.MonitorUpdates.{
  MonitorUpdatesResult, PackageScanState, Update, new, updated, unchanged, classify_update, Awaited,
  Event, checked_event, unchanged_event, skipped_event, new_event, updated_event, failed_event,
  apply_event, apply_events, no_result, record_failure, after_enqueue, after_running,
  unless_running, act_on, after_check, after_fetch, process_package, Merge, merge_nil, merge_left,
  merge_right, Interleaving, no_tasks, with_task,
}

abbrev is_check : Event → Bool
is_check checked_event = true
is_check _ = false

abbrev pub is_fetched : {A : Type 0} → Result A → Bool
is_fetched (ok _) = true
is_fetched (err _) = false

unfoldable pub total : {A : Type 0} → (A → ℕ) → List A → ℕ
total q [] = 0
total q (a ∷ as_) = q a + total q as_

unfoldable number : {A : Type 0} → (A → Bool) → List A → ℕ
number p [] = 0
number p (e ∷ es) = if p e then suc (number p es) else number p es

abbrev pub outcomes : MonitorUpdatesResult → ℕ
outcomes r =
    r.unchanged_count
    + (r.skipped_running_count
        + (r.enqueued_new_count + (r.enqueued_updated_count + r.failed_count)))

-- A counter that goes up at the events that are tested for, and at no others.
module _ (m : MonitorUpdatesResult → ℕ) (p : Event → Bool)
    (step : (e : Event) (r : MonitorUpdatesResult)
      → m (apply_event e r) ≡ (if p e then 1 else 0) + m r) where
  counter_lem :
      (es : List Event) (r : MonitorUpdatesResult) → m (apply_events es r) ≡ number p es + m r
  unfolding apply_events number
  counter_lem [] r = omega arith
  counter_lem (e ∷ es) r =
      let rest = counter_lem es (apply_event e r) in
      let first = step e r in ground (arith, rest, first)

number-Merge :
    (p : Event → Bool) {l r n : List Event} → Merge l r n → number p n ≡ number p l + number p r
unfolding number
number-Merge p merge_nil = refl
number-Merge p (merge_left {l} {r} {m} e h) = ground (arith, number-Merge p h)
number-Merge p (merge_right {l} {r} {m} e h) = ground (arith, number-Merge p h)

step_outcomes :
    (e : Event) (r : MonitorUpdatesResult)
    → outcomes (apply_event e r) ≡ (if not (is_check e) then 1 else 0) + outcomes r
unfolding apply_event
step_outcomes checked_event r = omega arith
step_outcomes unchanged_event r = omega arith
step_outcomes skipped_event r = omega arith
step_outcomes new_event r = omega arith
step_outcomes updated_event r = omega arith
step_outcomes (failed_event x) r = omega arith

step_checked :
    (e : Event) (r : MonitorUpdatesResult)
    → (apply_event e r).checked_count ≡ (if is_check e then 1 else 0) + r.checked_count
unfolding apply_event
step_checked checked_event r = omega arith
step_checked unchanged_event r = omega arith
step_checked skipped_event r = omega arith
step_checked new_event r = omega arith
step_checked updated_event r = omega arith
step_checked (failed_event x) r = omega arith

step_errors :
    (e : Event) (r : MonitorUpdatesResult)
    → r.failed_count ≡ length r.errors
    → (apply_event e r).failed_count ≡ length (apply_event e r).errors
unfolding apply_event
step_errors checked_event r h = h
step_errors unchanged_event r h = h
step_errors skipped_event r h = h
step_errors new_event r h = h
step_errors updated_event r h = h
step_errors (failed_event x) r h = omega (arith, h, length-append r.errors (x ∷ []))

-- Every failure is recorded.
apply_events-errors :
    (es : List Event) (r : MonitorUpdatesResult)
    → r.failed_count ≡ length r.errors
    → (apply_events es r).failed_count ≡ length (apply_events es r).errors
unfolding apply_events
apply_events-errors [] r h = h
apply_events-errors (e ∷ es) r h = apply_events-errors es (apply_event e r) (step_errors e r h)

abbrev pub Totals : List Awaited → MonitorUpdatesResult → Type 0
Totals tasks result =
    (outcomes result ≡ length tasks)
    × (result.checked_count ≡ total (λ a. if is_fetched a.metadata then 1 else 0) tasks)
    × (result.failed_count ≡ length result.errors)

module _ (class_name : ExceptionClass → String) (skip_running : Bool) where
  no_check-after_enqueue :
      (n : String) (kind : Update) (r : Result String)
      → is_check (after_enqueue class_name n kind r) ≡ false
  unfolding after_enqueue record_failure
  no_check-after_enqueue n kind (err e) = refl
  no_check-after_enqueue n new (ok _) = refl
  no_check-after_enqueue n updated (ok _) = refl
  no_check-after_enqueue n unchanged (ok _) = refl

  no_check-running :
      (a : Awaited) (kind : Update) (r : Result Bool)
      → is_check (after_running class_name a kind r) ≡ false
  unfolding after_running record_failure
  no_check-running a kind (err e) = refl
  no_check-running a kind (ok true) = refl
  no_check-running a kind (ok false) = no_check-after_enqueue a.package_name kind a.enqueued

  no_check-unless_running :
      (a : Awaited) (kind : Update) (i : Option ℕ)
      → is_check (unless_running class_name skip_running a kind i) ≡ false
  unfolding unless_running
  no_check-unless_running a kind none = no_check-after_enqueue a.package_name kind a.enqueued
  no_check-unless_running a kind (some i) = elim (Bool-cases skip_running) [
    | inl skips ↦ rw (skips, unless_running) (no_check-running a kind a.running)
    | inr goes ↦ rw (goes, unless_running) (no_check-after_enqueue a.package_name kind a.enqueued)
  ]

  no_check-act_on :
      (a : Awaited) (state : PackageScanState) (kind : Update)
      → is_check (act_on class_name skip_running a state kind) ≡ false
  unfolding act_on
  no_check-act_on a state new = no_check-unless_running a new state.package_id
  no_check-act_on a state updated = no_check-unless_running a updated state.package_id
  no_check-act_on a state unchanged = refl

  no_check-after_check :
      (a : Awaited) (metadata : PackageRegistryMetadata) (s : Result PackageScanState)
      → is_check (after_check class_name skip_running a metadata s) ≡ false
  unfolding after_check record_failure
  no_check-after_check a metadata (err e) = refl
  no_check-after_check a metadata (ok state) =
      no_check-act_on a state
        (classify_update state.latest_scanned_version metadata.latest_version.version)

  number-fetched :
      (a : Awaited) (r : Result PackageRegistryMetadata)
      → (number (λ e. not (is_check e)) (after_fetch class_name skip_running a r) ≡ 1)
        × (number is_check (after_fetch class_name skip_running a r)
            ≡ (if is_fetched r then 1 else 0))
  unfolding after_fetch record_failure number
  number-fetched a (err e) = (refl, refl)
  number-fetched a (ok metadata) =
      let none_more = no_check-after_check a metadata a.state in
      (rw none_more refl, rw none_more refl)

  -- A task has one outcome, and is counted as checked if the registry answered.
  number-process_package :
      (a : Awaited)
      → (number (λ e. not (is_check e)) (process_package class_name skip_running a) ≡ 1)
        × (number is_check (process_package class_name skip_running a)
            ≡ (if is_fetched a.metadata then 1 else 0))
  unfolding process_package
  number-process_package a = number-fetched a a.metadata

  number-tasks :
      (p : Event → Bool) (q : Awaited → ℕ) (tasks : List Awaited)
      → ((a : Awaited) → number p (process_package class_name skip_running a) ≡ q a)
      → {es : List Event} → Interleaving (map (process_package class_name skip_running) tasks) es
      → number p es ≡ total q tasks
  unfolding number total
  number-tasks p q [] each {es} no_tasks = refl
  number-tasks p q (a ∷ tasks) each (with_task i m) =
      let here = each a in
      let rest = number-tasks p q tasks each i in
      let merged = number-Merge p m in omega (arith, here, rest, merged)

  total-one : (tasks : List Awaited) → total (λ a. 1) tasks ≡ length tasks
  unfolding total
  total-one [] = refl
  total-one (a ∷ tasks) = omega (arith, total-one tasks)

  -- In whichever order the tasks take their turns, each package is counted once: as unchanged, as skipped, as
  -- enqueued (new or updated) or as failed. A package is counted as checked if the registry answered for it,
  -- and each failure has its entry among the errors.
  pub process_package-Totals :
      (tasks : List Awaited) {es : List Event}
      → Interleaving (map (process_package class_name skip_running) tasks) es
      → Totals tasks (apply_events es no_result)
  process_package-Totals tasks {es} i =
      let once =
        number-tasks (λ e. not (is_check e)) (λ a. 1) tasks (λ a. (number-process_package a).0) i in
      let checks =
        number-tasks is_check (λ a. if is_fetched a.metadata then 1 else 0) tasks
          (λ a. (number-process_package a).1) i in
      (
        counter_lem outcomes (λ e. not (is_check e)) step_outcomes es no_result
            ∙ omega (arith, once, total-one tasks),
        counter_lem (λ r. r.checked_count) is_check step_checked es no_result
            ∙ omega (arith, checks),
        apply_events-errors es no_result refl,
      )

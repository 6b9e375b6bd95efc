-- ===== src/Npm/Registry.antt =====
-- app/infrastructure/npm/registry_client.py: what the client makes of an answer of the registry. The request
-- itself, `quote` and `datetime.fromisoformat` are parameters.
use npm_sentinel.UseCases.ScanPackage.{RegistryVersionMetadata, PackageRegistryMetadata}
pub mod Previous
use npm_sentinel.Base.{
  ℕ, String, Bool, true, false, not, Option, none, some, [], ltb, leb, ◌==◌, if◌then◌else◌, str_eq,
  ◌∷◌, append, is_empty,
}
use npm_sentinel.Core.Exceptions.{
  npm_registry_error, npm_package_not_found_error, npm_registry_timeout_error,
  npm_registry_malformed_response_error, other_error, Result, ok, ◌>>=◌, raise, ◌>>◌, raise_if,
}
use Prim.Native.Char.{code}
use npm_sentinel.Base.Int.{ℤ, pos}
use npm_sentinel.Base.Dict.{Dict, lookup, contains}
use npm_sentinel.Base.Json.{Json, null, bool, int, str, as_dict, as_str}

-- An answer, with its JSON if it is one.
pub record Response : Type 0 where
  pub status_code : ℕ
  pub json : Option Json

-- What a request comes to.
pub data Outcome : Type 0 where
  timed_out request_failed : Outcome
  answered : Response → Outcome

-- A `datetime`: with an offset or without, and its instant.
pub record Stamp : Type 0 where
  pub aware : Bool
  pub instant : ℕ

abbrev malformed : {A : Type 0} → String → Result A
malformed text = raise npm_registry_malformed_response_error text

abbrev same_awareness : Stamp → Stamp → Bool
same_awareness a b = if a.aware then b.aware else not b.aware

-- `a >= b` and `a > b`: Python refuses to compare a time with an offset and one without.
unfoldable pub at_or_after : Stamp → Stamp → Result Bool
at_or_after a b =
    if same_awareness a b
    then ok (leb b.instant a.instant)
    else raise other_error "can't compare offset-naive and offset-aware datetimes"

unfoldable pub after : Stamp → Stamp → Result Bool
after a b =
    if same_awareness a b
    then ok (ltb b.instant a.instant)
    else raise other_error "can't compare offset-naive and offset-aware datetimes"

-- `_as_optional_str`, for `dist.get(…)`
unfoldable pub as_optional_str : Option Json → Result (Option String)
as_optional_str none = ok none
as_optional_str (some null) = ok none
as_optional_str (some (str s)) = ok (some s)
as_optional_str (some _) = malformed "expected string field in dist payload"

-- `_as_optional_int`; a `bool` is an `int`.
unfoldable pub as_optional_int : Option Json → Result (Option ℤ)
as_optional_int none = ok none
as_optional_int (some null) = ok none
as_optional_int (some (int n)) = ok (some n)
as_optional_int (some (bool true)) = ok (some (pos 1))
as_optional_int (some (bool false)) = ok (some (pos 0))
as_optional_int (some _) = malformed "expected integer"

-- `if not isinstance(value, dict): raise …`
abbrev require_dict : String → Option Json → Result (Dict Json)
require_dict text none = malformed text
require_dict text (some value) = elim (as_dict value) [ none ↦ malformed text | some d ↦ ok d ]

abbrev require_str : String → Option Json → Result String
require_str text none = malformed text
require_str text (some value) = elim (as_str value) [ none ↦ malformed text | some s ↦ ok s ]

-- `payload.get(key, {})`
abbrev or_object : Option Json → Result (Dict Json)
or_object none = ok []
or_object (some value) = require_dict "must be an object" (some value)

-- `_fetch_package_payload`, for the outcome of its request.
unfoldable pub fetch_package_payload : Outcome → Result (Dict Json)
unfolding as_dict
fetch_package_payload timed_out = raise npm_registry_timeout_error "registry request timed out"
fetch_package_payload request_failed = raise npm_registry_error "registry request failed"
fetch_package_payload (answered response) =
    if response.status_code == 404
    then raise npm_package_not_found_error "package not found"
    else if leb 400 response.status_code
    then raise npm_registry_error "registry returned an error"
    else require_dict "registry payload must be an object" response.json

-- `value.replace("Z", "+00:00")`
unfoldable pub replace_z : String → String
replace_z String.[] = ""
replace_z (String.◌∷◌ c s) =
    if code c == b'Z' then append "+00:00" (replace_z s) else String.◌∷◌ c (replace_z s)

abbrev pub Candidate : Type 0
Candidate = Option (String × Stamp)

-- `best_candidate is None or published_at > best_candidate[1]`
unfoldable pub is_better : Stamp → Candidate → Result Bool
is_better published_at none = ok true
is_better published_at (some (name, best)) = after published_at best

-- The last test of a round, unless the version is too late.
unfoldable pub unless_late : String → Stamp → Candidate → Bool → Result Candidate
unless_late version_name published_at best true = ok best
unless_late version_name published_at best false = do
  better ← is_better published_at best
  ok (if better then some (version_name, published_at) else best)

abbrev pub name_of : Candidate → Option String
name_of none = none
name_of (some (version_name, published_at)) = some version_name

module _ (fromisoformat : String → Option Stamp) where
  -- `_parse_version_publish_time`
  unfoldable pub parse_version_publish_time : String → Dict Json → Result Stamp
  unfolding as_str lookup
  parse_version_publish_time version time_map = do
    value ← require_str "missing publish timestamp" (lookup version time_map)
    elim (fromisoformat (replace_z value)) [
      | none ↦ malformed "invalid publish timestamp"
      | some stamp ↦ ok stamp
    ]

  -- One round of the loop.
  unfoldable pub consider : Dict Json → String → Stamp → Candidate → String → Result Candidate
  consider time_map latest_version latest_published_at best version_name =
      if str_eq version_name latest_version then ok best else do
        published_at ← parse_version_publish_time version_name time_map
        too_late ← at_or_after published_at latest_published_at
        unless_late version_name published_at best too_late

  -- The loop, over the names of the versions.
  unfoldable pub best_of : Dict Json → String → Stamp → Candidate → Dict Json → Result Candidate
  best_of time_map latest_version latest_published_at best [] = ok best
  best_of time_map latest_version latest_published_at best ((version_name, payload) ∷ versions) = do
    better ← consider time_map latest_version latest_published_at best version_name
    best_of time_map latest_version latest_published_at better versions

  -- `_resolve_previous_version_name`
  unfoldable pub resolve_previous_version_name :
      String → Dict Json → Dict Json → Result (Option String)
  resolve_previous_version_name latest_version versions time_map = do
    latest_published_at ← parse_version_publish_time latest_version time_map
    best ← best_of time_map latest_version latest_published_at none versions
    ok (name_of best)

  -- `_build_version_metadata`
  unfoldable pub build_version_metadata :
      String → String → Dict Json → Dict Json → Result RegistryVersionMetadata
  unfolding lookup
  build_version_metadata package_name version versions time_map = do
    payload ← require_dict "missing payload" (lookup version versions)
    dist ← require_dict "missing dist payload" (lookup "dist" payload)
    tarball_url ← require_str "missing tarball url" (lookup "tarball" dist)
    raise_if (is_empty tarball_url) npm_registry_malformed_response_error "missing tarball url"
    dependencies ← or_object (lookup "dependencies" payload)
    scripts ← or_object (lookup "scripts" payload)
    published_at ← parse_version_publish_time version time_map
    integrity ← as_optional_str (lookup "integrity" dist)
    unpacked_size ← as_optional_int (lookup "unpackedSize" dist)
    file_count ← as_optional_int (lookup "fileCount" dist)
    ok (record {
      package_name = package_name;
      version = version;
      published_at = some published_at.instant;
      tarball_url = tarball_url;
      integrity = integrity;
      unpacked_size = unpacked_size;
      file_count = file_count;
      package_json = payload;
      dependencies = dependencies;
      scripts = scripts;
    })

  unfoldable pub build_previous :
      String → Option String → Dict Json → Dict Json → Result (Option RegistryVersionMetadata)
  build_previous package_name none versions time_map = ok none
  build_previous package_name (some version) versions time_map = do
    metadata ← build_version_metadata package_name version versions time_map
    ok (some metadata)

  -- `fetch_metadata`, for the outcome of its request.
  unfoldable pub fetch_metadata : String → Outcome → Result PackageRegistryMetadata
  unfolding lookup contains
  fetch_metadata package_name outcome = do
    payload ← fetch_package_payload outcome
    versions ←
        require_dict "missing required versions, dist-tags, or time" (lookup "versions" payload)
    dist_tags ←
        require_dict "missing required versions, dist-tags, or time" (lookup "dist-tags" payload)
    time_map ← require_dict "missing required versions, dist-tags, or time" (lookup "time" payload)
    latest_version ←
        require_str "latest version is missing from versions map" (lookup "latest" dist_tags)
    raise_if (not (contains latest_version versions)) npm_registry_malformed_response_error
        "latest version is missing from versions map"
    latest_metadata ← build_version_metadata package_name latest_version versions time_map
    previous_version_name ← resolve_previous_version_name latest_version versions time_map
    previous_metadata ← build_previous package_name previous_version_name versions time_map
    ok (record {
      package_name = package_name;
      latest_version = latest_metadata;
      previous_version = previous_metadata;
    })

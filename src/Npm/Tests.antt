-- ===== src/Npm/Tests.antt =====
-- Runs of the registry's client and of the downloader, and their theorems at concrete inputs.
use npm_sentinel.Base.{String, ◌≡◌, refl, true, Option, none, some, [], ◌∷◌, take, count, is_space}
use npm_sentinel.Core.Exceptions.{ok}
use npm_sentinel.Base.Dict.{Dict}
use npm_sentinel.Base.Json.{Json, str, null}
use npm_sentinel.Npm.Registry.{
  Stamp, resolve_previous_version_name, parse_version_publish_time, best_of, consider, at_or_after,
  unless_late, replace_z, is_better, after,
}
use npm_sentinel.Npm.Registry.Previous.{Published, Chosen, resolve_previous_version_name-Chosen}
use npm_sentinel.Npm.Tarball.{
  Bytes, Url, complete, Answer, TarballDownloader, build_integrity_check, download, validate_url,
  first_token, write_stream_to_file, written, write_chunks, verify, same_bytes,
}
use npm_sentinel.Npm.Tarball.Accepted.{Stored, download-Stored}

-- A clock whose texts are as long as their time is late.
abbrev clock : String → Option Stamp
clock text = some (record { aware = true; instant = count text })

abbrev times : Dict Json
times =
    ("1.0.0", str "a")
    ∷ ("1.1.0", str "aaa")
    ∷ ("2.0.0", str "aaaa")
    ∷ ("1.0.1", str "aa")
    ∷ ("3.0.0", str "aaaaa")
    ∷ []

abbrev versions : Dict Json
versions =
    ("1.0.0", null) ∷ ("1.1.0", null) ∷ ("2.0.0", null) ∷ ("1.0.1", null) ∷ ("3.0.0", null) ∷ []

resolved : resolve_previous_version_name clock "2.0.0" versions times ≡ ok (some "1.1.0")
unfolding resolve_previous_version_name parse_version_publish_time best_of consider at_or_after
    unless_late replace_z is_better after
resolved = refl

resolve_previous_version_name-Chosen_example :
    (t : Stamp) × Published clock times "2.0.0" "2.0.0" t
    × Chosen clock times "2.0.0" t versions (some "1.1.0")
resolve_previous_version_name-Chosen_example =
    resolve_previous_version_name-Chosen clock times "2.0.0" versions {previous = some "1.1.0"}
      resolved

abbrev no_base64 : String → Option Bytes
no_base64 text = some (1 ∷ [])

-- A digest that is the first byte.
abbrev first_byte : String → Bytes → Bytes
first_byte algorithm content = take 1 content

abbrev downloader : TarballDownloader
downloader = record { max_bytes = 3 }

abbrev url : Url
url = record { scheme = "https"; netloc = "registry.npmjs.org"; path = "/a.tgz" }

abbrev answer : Answer
answer = record { status_code = 200; chunks = (1 ∷ 2 ∷ []) ∷ (3 ∷ []) ∷ []; end = complete }

download_tests :
    (download no_base64 first_byte downloader url (some "md5-x sha512-AQ==") answer none
      ≡ (ok tt, some (1 ∷ 2 ∷ 3 ∷ [])))
    × ((download no_base64 first_byte (record { max_bytes = 2 }) url none answer none).1 ≡ none)
unfolding download validate_url build_integrity_check first_token is_space write_stream_to_file
    written write_chunks verify same_bytes
download_tests = (refl, refl)

download-Stored_example :
    Stored no_base64 first_byte downloader url
      (some "md5-x sha512-AQ==")
      answer
      none
      (download no_base64 first_byte downloader url (some "md5-x sha512-AQ==") answer none)
download-Stored_example =
    download-Stored no_base64 first_byte downloader url (some "md5-x sha512-AQ==") answer none

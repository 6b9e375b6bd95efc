-- ===== src/Scanner/PackageJson.antt =====
-- app/infrastructure/scanner/package_json_reader.py
use npm_sentinel.Base.{ℕ, String, Option, none, some, ltb, if◌then◌else◌}
use npm_sentinel.Core.Exceptions.{os_error, is_instance, Result, ok, err, ◌>>=◌}
use npm_sentinel.Base.Dict.{Dict}
use npm_sentinel.Base.Json.{Json, as_dict}

-- The answers of the file system about `package/package.json`: its size, or an `OSError`; its text, or
-- an `OSError`, or the `UnicodeDecodeError` (a `ValueError`) of a file that is no UTF-8.
pub record PackageJsonFile : Type 0 where
  pub size : Result ℕ
  pub content : Result String

-- The block under `try … except OSError: return None`.
unfoldable pub read_content : ℕ → PackageJsonFile → Result (Option String)
read_content max_bytes file = do
  size ← file.size
  if ltb max_bytes size then ok none else do content ← file.content; ok (some content)

abbrev pub catch_os_error : Result (Option String) → Result (Option String)
catch_os_error (ok r) = ok r
catch_os_error (err e) = if is_instance e.class os_error then ok none else err e

-- `loads` is `json.loads`, with `none` for a `JSONDecodeError`.
module _ (loads : String → Option Json) where
  abbrev parsed : Option String → Option (Dict Json)
  parsed none = none
  parsed (some text) = elim (loads text) [ none ↦ none | some value ↦ as_dict value ]

  unfoldable pub read_package_json : ℕ → PackageJsonFile → Result (Option (Dict Json))
  unfolding read_content as_dict is_instance
  read_package_json max_bytes file = do
    content ← catch_os_error (read_content max_bytes file)
    ok (parsed content)

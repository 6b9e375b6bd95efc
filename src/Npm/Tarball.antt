-- ===== src/Npm/Tarball.antt =====
-- app/infrastructure/npm/tarball_downloader.py. The parsing of a URL, base64 and the hashes are parameters. What
-- the server and the disk do is the answer's status, the chunks that come, and what ends them.
pub mod Integrity
pub mod Accepted
use npm_sentinel.Base.{
  ℕ, ◌+◌, String, Bool, true, false, not, ◌&&◌, ◌||◌, Option, none, some, List, [], ◌∷◌, ◌++◌, ltb,
  leb, ◌==◌, if◌then◌else◌, length, is_space, is_empty, one_of,
}
use npm_sentinel.Core.Exceptions.{
  tarball_download_error, tarball_download_timeout_error, tarball_size_limit_exceeded_error,
  tarball_integrity_error, Result, ok, err, ◌>>=◌, ◌>>◌, raise, raise_if,
}
use Prim.Native.Char.{code}

abbrev pub Bytes : Type 0
Bytes = List ℕ

-- `urlparse`
pub record Url : Type 0 where
  pub scheme : String
  pub netloc : String
  pub path : String

-- What ends a stream: its end, a timeout or another error of the connection, or an error of the disk.
pub data End : Type 0 where
  complete timed_out http_failed disk_failed : End

pub record Answer : Type 0 where
  pub status_code : ℕ
  pub chunks : List Bytes
  pub end : End

pub record TarballDownloader : Type 0 where
  pub max_bytes : ℕ

-- The algorithm and the digest that is expected.
pub record IntegrityCheck : Type 0 where
  pub algorithm : String
  pub expected_digest : Bytes

-- `text.split()`: the words, with the one that is being read in front.
unfoldable pub split_words : String → List String
split_words String.[] = "" ∷ []
split_words (String.◌∷◌ c s) = elim (split_words s) [
  | [] ↦ []
  | word ∷ words ↦ if is_space (code c) then "" ∷ (word ∷ words) else String.◌∷◌ c word ∷ words
]

unfoldable pub drop_empty : List String → List String
drop_empty [] = []
drop_empty (w ∷ ws) = if is_empty w then drop_empty ws else w ∷ drop_empty ws

-- `token.split("-", 1)`, if there is a `-` in it.
unfoldable pub split_dash : String → Option (String × String)
split_dash String.[] = none
split_dash (String.◌∷◌ c s) =
    if code c == b'-'
    then some ("", s)
    else elim (split_dash s) [ none ↦ none | some (a, b) ↦ some (String.◌∷◌ c a, b) ]

abbrev pub algorithms : List String
algorithms = "sha1" ∷ "sha256" ∷ "sha384" ∷ "sha512" ∷ []

module _ (b64decode : String → Option Bytes) where
  abbrev pub decoded : String → Option Bytes → Result (Option IntegrityCheck)
  decoded algorithm none = raise tarball_integrity_error "tarball integrity metadata is malformed"
  decoded algorithm (some digest) =
      ok (some (record { algorithm = algorithm; expected_digest = digest }))

  -- The loop: the first token with a known algorithm decides.
  unfoldable pub first_token : List String → Result (Option IntegrityCheck)
  unfolding split_dash one_of
  first_token [] =
      raise tarball_integrity_error "tarball integrity metadata has no supported digest"
  first_token (token ∷ tokens) =
      let rest = first_token tokens in
      elim (split_dash token) [
        | none ↦ rest
        | some (algorithm, encoded_digest) ↦
            if one_of algorithms algorithm
            then decoded algorithm (b64decode encoded_digest)
            else rest
      ]

  -- `_build_integrity_check`
  unfoldable pub build_integrity_check : Option String → Result (Option IntegrityCheck)
  unfolding split_words drop_empty
  build_integrity_check none = ok none
  build_integrity_check (some integrity) =
      if is_empty integrity then ok none else first_token (drop_empty (split_words integrity))

-- `_validate_url`
unfoldable pub validate_url : Url → Result (Unit {0})
unfolding one_of
validate_url url =
    raise_if (not (one_of ("http" ∷ "https" ∷ []) url.scheme) || is_empty url.netloc)
      tarball_download_error "tarball url must be an absolute http(s) URL"

abbrev pub ended : End → Bytes → Result Bytes
ended complete written = ok written
ended timed_out written = raise tarball_download_timeout_error "tarball download timed out"
ended http_failed written = raise tarball_download_error "tarball download failed"
ended disk_failed written = raise tarball_download_error "failed writing tarball"

-- The loop over the chunks, with what is written so far.
unfoldable pub write_chunks : ℕ → End → Bytes → List Bytes → Result Bytes
write_chunks max_bytes end written [] = ended end written
write_chunks max_bytes end written (chunk ∷ chunks) = do
  raise_if (ltb max_bytes (length written + length chunk)) tarball_size_limit_exceeded_error
      "tarball exceeds max size"
  write_chunks max_bytes end (written ++ chunk) chunks

unfoldable pub same_bytes : Bytes → Bytes → Bool
same_bytes [] [] = true
same_bytes [] (c ∷ cs) = false
same_bytes (b ∷ bs) [] = false
same_bytes (b ∷ bs) (c ∷ cs) = b == c && same_bytes bs cs

-- What the stream leaves at the target: the content if it is accepted, and no file otherwise.
unfoldable pub written : Result Bytes → Result (Unit {0}) × Option Bytes
written (ok content) = (ok tt, some content)
written (err e) = (err e, none)

module _ (b64decode : String → Option Bytes) (digest : String → Bytes → Bytes)
    (downloader : TarballDownloader) where
  -- The comparison of the digests.
  unfoldable pub verify : Option IntegrityCheck → Bytes → Result Bytes
  verify none content = ok content
  verify (some check) content =
      if same_bytes (digest check.algorithm content) check.expected_digest
      then ok content
      else raise tarball_integrity_error "tarball integrity check failed"

  -- `_write_stream_to_file`, under the handlers of `download`; a status of 400 or more is raised before the
  -- file is opened.
  unfoldable pub write_stream_to_file :
      Option IntegrityCheck → Answer → Option Bytes → Result (Unit {0}) × Option Bytes
  write_stream_to_file check answer before =
      if leb 400 answer.status_code
      then (raise tarball_download_error "tarball source returned an error", before)
      else written (do
        content ← write_chunks downloader.max_bytes answer.end [] answer.chunks
        verify check content)

  abbrev pub with_check :
      Answer → Option Bytes → Result (Option IntegrityCheck) → Result (Unit {0}) × Option Bytes
  with_check answer before (ok check) = write_stream_to_file check answer before
  with_check answer before (err e) = (err e, before)

  abbrev pub with_url :
      Option String → Answer → Option Bytes → Result (Unit {0}) → Result (Unit {0}) × Option Bytes
  with_url integrity answer before (ok _) =
      with_check answer before (build_integrity_check b64decode integrity)
  with_url integrity answer before (err e) = (err e, before)

  -- `download`: the result, and the file at the target.
  unfoldable pub download :
      Url → Option String → Answer → Option Bytes → Result (Unit {0}) × Option Bytes
  download url integrity answer before = with_url integrity answer before (validate_url url)

-- ===== src/Scanner/Extractor/Safe.antt =====
-- What an accepted archive is.
use npm_sentinel.Base.{
  ℕ, ◌+◌, ◌≤◌, ◌≡◌, true, false, List, [], ◌∷◌, arith, if◌then◌else◌, length, ◌&&◌, ltb, All,
}
use npm_sentinel.Core.Exceptions.{ok, Result, err, raise_if, >>=-eq-ok}
use npm_sentinel.Scanner.Paths.{Location, parts, is_absolute, parent, resolve}
use npm_sentinel.Scanner.Paths.Within.{Within, is_relative_to-sound}
use npm_sentinel.Scanner.Extractor.{
  TarInfo, SafeExtractor, is_file, is_link, is_special, is_other, ensure_within_destination,
  validate_link, validate_member, validate_members, validate_archive, extract, convert,
  extract_members,
}

-- A member that may be extracted below the root.
pub record IsSafe (extractor : SafeExtractor) (root : Location) (member : TarInfo) : Type 0 where
  pub relative : is_absolute member.name ≡ false
  pub within : Within root (resolve root (parts member.name))
  pub depth : length (parts member.name) ≤ extractor.max_path_depth
  pub no_device : is_special member.kind ≡ false
  pub known : is_other member.kind ≡ false
  pub file_size : is_file member.kind ≡ true → member.size ≤ extractor.max_file_bytes
  pub link_relative : is_link member.kind ≡ true → is_absolute member.linkname ≡ false
  pub link_within :
      is_link member.kind ≡ true
      → Within root (resolve (parent (resolve root (parts member.name))) (parts member.linkname))

-- The bytes of the regular files.
unfoldable pub file_bytes : List TarInfo → ℕ
file_bytes [] = 0
file_bytes (m ∷ ms) = (if is_file m.kind then m.size else 0) + file_bytes ms

ensure_within-sound : (l root : Location) → ensure_within_destination l root ≡ ok tt → Within root l
unfolding ensure_within_destination
ensure_within-sound l root h = is_relative_to-sound root l (ground arith)

module _ (extractor : SafeExtractor) (root : Location) where
  validate_member-IsSafe :
      (m : TarInfo) → validate_member extractor root m ≡ ok tt → IsSafe extractor root m
  unfolding validate_member validate_link
  validate_member-IsSafe m h = record {
    relative = ground arith;
    within = ensure_within-sound (resolve root (parts m.name)) root (ground arith);
    depth = ground arith;
    no_device = ground arith;
    known = ground arith;
    file_size = ground arith;
    link_relative = ground arith;
    link_within = λ link.
        ensure_within-sound (resolve (parent (resolve root (parts m.name))) (parts m.linkname)) root
          (ground arith);
  }

  validate_members-IsSafe :
      (ms : List TarInfo) (total : ℕ)
      → validate_members extractor root total ms ≡ ok tt
      → total ≤ extractor.max_total_uncompressed_bytes
      → All (IsSafe extractor root) ms
        × (total + file_bytes ms ≤ extractor.max_total_uncompressed_bytes)
  unfolding validate_members file_bytes
  validate_members-IsSafe [] total h le = (tt, omega arith)
  validate_members-IsSafe (m ∷ ms) total h le =
      let next = if is_file m.kind then total + m.size else total in
      let (_, valid, h₁) = >>=-eq-ok (validate_member extractor root m) _ h in
      let (_, counted, h₂) =
        >>=-eq-ok (raise_if (is_file m.kind && ltb extractor.max_total_uncompressed_bytes next) _ _)
          _ h₁ in
      let (rest, bytes) = validate_members-IsSafe ms next h₂ (ground arith) in
      ((validate_member-IsSafe m valid, rest), ground arith)

-- What an accepted archive is: at most the allowed number of members, each of them safe (a relative
-- name that stays below the destination, at most the allowed depth, no device and no unknown kind, a
-- bounded size if it is a file, and a relative target below the destination if it is a link), and files
-- of at most the allowed bytes together.
pub record IsSafeArchive (e : SafeExtractor) (root : Location) (members : List TarInfo)
    : Type 0 where
  pub few : length members ≤ e.max_members
  pub safe : All (IsSafe e root) members
  pub bytes : file_bytes members ≤ e.max_total_uncompressed_bytes

pub validate_archive-IsSafeArchive :
    (extractor : SafeExtractor) (root : Location) (members : List TarInfo)
    → validate_archive extractor root members ≡ ok tt
    → IsSafeArchive extractor root members
unfolding validate_archive
validate_archive-IsSafeArchive extractor root members h =
    let (_, counted, h₁) =
      >>=-eq-ok (raise_if (ltb extractor.max_members (length members)) _ _) _ h in
    let (safe, bytes) = validate_members-IsSafe extractor root members 0 h₁ (omega arith) in
    record { few = ground arith; safe = safe; bytes = omega (arith, bytes) }

pub convert-ok : (r : Result Location) {l : Location} → convert r ≡ ok l → r ≡ ok l
unfolding convert
convert-ok (ok l) h = h
convert-ok (err e) h = ground arith

-- An extraction that returns gives the destination, and every member of the archive was safe in the
-- sense of `IsSafeArchive`.
pub extract-IsSafeArchive :
    (extractor : SafeExtractor) (members : List TarInfo)
    (extract_member : TarInfo → Result (Unit {0})) (root : Location) {l : Location}
    → extract extractor (ok members) extract_member root ≡ ok l
    → (l ≡ root) × IsSafeArchive extractor root members
unfolding extract
extract-IsSafeArchive extractor members extract_member root h =
    let (_, valid, h₁) = >>=-eq-ok (validate_archive extractor root members) _ (convert-ok _ h) in
    let (_, written, h₂) = >>=-eq-ok (extract_members extract_member members) _ h₁ in
    (cc h₂, validate_archive-IsSafeArchive extractor root members valid)

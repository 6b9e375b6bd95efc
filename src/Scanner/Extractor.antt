-- ===== src/Scanner/Extractor.antt =====
-- app/infrastructure/scanner/extractor.py. The members of an archive are what `tarfile` reads from it; its
-- own extraction of one member is a parameter.
pub mod Safe
use npm_sentinel.Base.{
  ℕ, ◌+◌, String, Bool, true, false, not, ◌&&◌, ◌||◌, List, [], ◌∷◌, ltb, if◌then◌else◌, length,
  str_eq,
}
use npm_sentinel.Core.Exceptions.{
  tarball_unsafe_member_error, tarball_malformed_archive_error,
  tarball_extraction_limit_exceeded_error, os_error, tar_error, is_instance, Result, ok, err, ◌>>=◌,
  ◌>>◌, raise, raise_if,
}
use npm_sentinel.Scanner.Paths.{Location, parts, is_absolute, parent, resolve, is_relative_to}

pub data MemberKind : Type 0 where
  regular_file directory symbolic_link hard_link character_device block_device fifo other_kind :
      MemberKind

-- `tarfile.TarInfo`
pub record TarInfo : Type 0 where
  pub name : String
  pub kind : MemberKind
  pub size : ℕ
  pub linkname : String

pub record SafeExtractor : Type 0 where
  pub max_members : ℕ
  pub max_total_uncompressed_bytes : ℕ
  pub max_file_bytes : ℕ
  pub max_path_depth : ℕ

abbrev pub is_file : MemberKind → Bool
is_file regular_file = true
is_file _ = false

abbrev pub is_link : MemberKind → Bool
is_link symbolic_link = true
is_link hard_link = true
is_link _ = false

-- `member.isdev() or member.isfifo()`
abbrev pub is_special : MemberKind → Bool
is_special character_device = true
is_special block_device = true
is_special fifo = true
is_special _ = false

abbrev pub is_other : MemberKind → Bool
is_other other_kind = true
is_other _ = false

-- `_ensure_within_destination`
unfoldable pub ensure_within_destination : Location → Location → Result (Unit {0})
unfolding is_relative_to
ensure_within_destination candidate destination_root =
    raise_if (not (is_relative_to destination_root candidate)) tarball_unsafe_member_error
      "archive member escapes destination"

-- The last block of `_validate_member`, for a link.
unfoldable pub validate_link : Location → Location → TarInfo → Result (Unit {0})
validate_link destination_root resolved_member_path member =
    if is_link member.kind
    then (do
      raise_if (is_absolute member.linkname) tarball_unsafe_member_error
          "absolute link target is not allowed"
      ensure_within_destination (resolve (parent resolved_member_path) (parts member.linkname))
          destination_root)
    else ok tt

-- `for member in members: archive.extract(member, …)`
unfoldable pub extract_members : (TarInfo → Result (Unit {0})) → List TarInfo → Result (Unit {0})
extract_members extract_member [] = ok tt
extract_members extract_member (member ∷ members) = do
  extract_member member
  extract_members extract_member members

-- The handlers: the extractor's own exceptions pass, those of `tarfile` and of the system become a
-- malformed archive.
unfoldable pub convert : Result Location → Result Location
unfolding is_instance
convert (ok l) = ok l
convert (err e) =
    if is_instance e.class tarball_extraction_limit_exceeded_error
      || is_instance e.class tarball_unsafe_member_error
    then err e
    else if is_instance e.class tar_error || is_instance e.class os_error
    then raise tarball_malformed_archive_error "invalid tarball archive"
    else err e

module _ (extractor : SafeExtractor) where
  -- `_validate_member`
  unfoldable pub validate_member : Location → TarInfo → Result (Unit {0})
  validate_member destination_root member = do
    raise_if (str_eq member.name "" || str_eq member.name "." || str_eq member.name "./")
        tarball_unsafe_member_error "empty archive path is not allowed"
    raise_if (is_absolute member.name) tarball_unsafe_member_error
        "absolute archive path is not allowed"
    raise_if (ltb extractor.max_path_depth (length (parts member.name)))
        tarball_extraction_limit_exceeded_error "archive path depth exceeds the limit"
    let resolved_member_path = resolve destination_root (parts member.name)
    ensure_within_destination resolved_member_path destination_root
    raise_if (is_special member.kind) tarball_unsafe_member_error
        "special archive member is not allowed"
    raise_if (is_other member.kind) tarball_unsafe_member_error "unsupported archive member type"
    raise_if (is_file member.kind && ltb extractor.max_file_bytes member.size)
        tarball_extraction_limit_exceeded_error "archive member exceeds the limit"
    validate_link destination_root resolved_member_path member

  -- The loop of `_validate_archive`, with the bytes counted so far.
  unfoldable pub validate_members : Location → ℕ → List TarInfo → Result (Unit {0})
  validate_members destination_root total [] = ok tt
  validate_members destination_root total (member ∷ members) = do
    validate_member destination_root member
    let total' = if is_file member.kind then total + member.size else total
    raise_if (is_file member.kind && ltb extractor.max_total_uncompressed_bytes total')
        tarball_extraction_limit_exceeded_error "archive uncompressed size exceeds the limit"
    validate_members destination_root total' members

  -- `_validate_archive`
  unfoldable pub validate_archive : Location → List TarInfo → Result (Unit {0})
  validate_archive destination_root members = do
    raise_if (ltb extractor.max_members (length members)) tarball_extraction_limit_exceeded_error
        "archive has too many members"
    validate_members destination_root 0 members

  -- `archive` is the list of members that `getmembers` reads, or what opening or reading raises.
  unfoldable pub extract :
      Result (List TarInfo) → (TarInfo → Result (Unit {0})) → Location → Result Location
  extract archive extract_member destination_root = convert (do
    members ← archive
    validate_archive destination_root members
    extract_members extract_member members
    ok destination_root)

-- ===== src/Scanner/Binary.antt =====
-- app/infrastructure/scanner/binary_detector.py
pub mod Report
use npm_sentinel.Base.{
  ℕ, String, Bool, true, false, ◌&&◌, Option, none, some, List, [], ◌∷◌, ◌==◌, if◌then◌else◌,
  append, lower, one_of,
}
use npm_sentinel.Core.Exceptions.{Result, ok}
use npm_sentinel.Domain.Enums.{executable_binary, high}
use npm_sentinel.Domain.Findings.{Finding}
use npm_sentinel.Scanner.Files.{FileEntry, Tree, iter_regular_files, for_each, suffix}

abbrev pub executable_extensions : List String
executable_extensions = ".exe" ∷ ".dll" ∷ ".so" ∷ ".dylib" ∷ ".node" ∷ []

-- `_read_magic`: no bytes where the file cannot be read.
abbrev pub read_magic : FileEntry → List ℕ
read_magic f = elim f.magic [ none ↦ [] | some bytes ↦ bytes ]

-- `bytes.startswith`
unfoldable pub begins_with : List ℕ → List ℕ → Bool
begins_with [] bytes = true
begins_with (b ∷ bs) [] = false
begins_with (b ∷ bs) (c ∷ cs) = b == c && begins_with bs cs

-- The reason to report a file.
unfoldable pub binary_reason : FileEntry → Option String
unfolding begins_with suffix lower one_of
binary_reason f =
    let extension = lower (suffix f.name) in
    if one_of executable_extensions extension
    then some (append "extension:" extension)
    else if begins_with (0x7f ∷ b'E' ∷ b'L' ∷ b'F' ∷ []) (read_magic f)
    then some "magic:ELF"
    else if begins_with (b'M' ∷ b'Z' ∷ []) (read_magic f)
    then some "magic:PE"
    else none

unfoldable pub binary_finding : String → String → Finding
binary_finding path reason = record {
  finding_type = executable_binary;
  severity = high;
  category = "binary";
  description = "Executable binary pattern detected in package files.";
  file_path = some path;
  evidence = some reason;
}

unfoldable pub binary_body : FileEntry → Result (List Finding)
binary_body f = elim f.relative [
  | none ↦ ok []
  | some path ↦ elim (binary_reason f) [
    | none ↦ ok []
    | some reason ↦ ok (binary_finding path reason ∷ [])
  ]
]

unfoldable pub detect_executable_binaries : ℕ → Tree → Result (List Finding)
detect_executable_binaries max_files root = for_each binary_body (iter_regular_files max_files root)

-- ===== src/Scanner/Binary/Report.antt =====
-- The binary detector against a description of what it reports.
use std.Path.{subst}
use npm_sentinel.Base.{
  ◌≤◌, ◌∙◌, ◌⊎◌, ◌↔◌, inl, inr, String, refl, sym, ap, true, false, Bool-cases, Option-cases,
  append, lower, one_of, str_eq, str_eq_iff, ℕ, ◌≡◌, none, some, List, [], ◌∷◌, ◌++◌, arith, leb,
  if◌then◌else◌, length,
}
use npm_sentinel.Domain.Enums.{executable_binary, high}
use npm_sentinel.Core.Exceptions.{ok, err}
use npm_sentinel.Domain.Findings.{Finding}
use npm_sentinel.Scanner.Files.{
  FileEntry, Tree, for_each-regular-ok, gather, regular, too_many, suffix,
}
use npm_sentinel.Scanner.Binary.{
  begins_with, read_magic, binary_reason, binary_body, binary_finding, detect_executable_binaries,
}

-- The finding about one regular file: it has one if it has a path below the root and a reason.
unfoldable pub binary_of : FileEntry → List Finding
binary_of f = elim f.relative [
  | none ↦ []
  | some path ↦ elim (binary_reason f) [ none ↦ [] | some reason ↦ binary_finding path reason ∷ [] ]
]

binary_body-ok : (f : FileEntry) → binary_body f ≡ ok (binary_of f)
unfolding binary_body binary_of
binary_body-ok f = ground arith

abbrev pub Among : {A : Type 0} → A → List A → Type 0
Among x [] = ⊥
Among x (y ∷ ys) = (x ≡ y) ⊎ Among x ys

abbrev pub extensions : List String
extensions = ".exe" ∷ ".dll" ∷ ".so" ∷ ".dylib" ∷ ".node" ∷ []

-- What is found in a file: one of the extensions, in any case of its letters; otherwise the first four bytes of an ELF
-- file; otherwise the first two of a PE file.
abbrev pub Evidence : FileEntry → String → Type 0
Evidence f evidence =
    let extension = lower (suffix f.name) in
    (Among extension extensions × (evidence ≡ append "extension:" extension))
    ⊎ ((Among extension extensions → ⊥)
        × (((rest : List ℕ) × (f.magic ≡ some (127 ∷ 69 ∷ 76 ∷ 70 ∷ rest))
              × (evidence ≡ "magic:ELF"))
            ⊎ ((rest : List ℕ) × (f.magic ≡ some (77 ∷ 90 ∷ rest)) × (evidence ≡ "magic:PE"))))

-- The finding is of the file: at its path below the root, with what is found in it.
abbrev pub Reports : FileEntry → Finding → Type 0
Reports f finding =
    (path : String) × (evidence : String) × (f.relative ≡ some path)
    × Evidence f evidence
    × (finding ≡ record {
      finding_type = executable_binary;
      severity = high;
      category = "binary";
      description = "Executable binary pattern detected in package files.";
      file_path = some path;
      evidence = some evidence;
    })

one_of-Among : (ts : List String) (s : String) → one_of ts s ≡ true ↔ Among s ts
unfolding one_of
one_of-Among [] s = (λ h. cc h, λ x. elim x [ ])
one_of-Among (t ∷ ts) s = (
  λ h. elim (Bool-cases (str_eq t s)) [
    | inl same ↦ inl (sym ((str_eq_iff t s).0 same))
    | inr other ↦ inr ((one_of-Among ts s).0 (ground arith))
  ],
  λ x. elim x [
    | inl same ↦ ground (arith, str_eq_iff t s)
    | inr there ↦ let found : one_of ts s ≡ true = (one_of-Among ts s).1 there in ground arith
  ],
)

begins_with_iff :
    (bs cs : List ℕ) → begins_with bs cs ≡ true ↔ ((rest : List ℕ) × (cs ≡ bs ++ rest))
unfolding begins_with
begins_with_iff [] cs = (λ h. (cs, refl), λ x. refl)
begins_with_iff (b ∷ bs) [] = (λ h. cc h, λ (rest, e). cc e)
begins_with_iff (b ∷ bs) (c ∷ cs) = (
  λ h.
      let (rest, e) = (begins_with_iff bs cs).0 (ground arith) in
      let head : c ≡ b = ground arith in (rest, rw (head, e) refl),
  λ (rest, e).
      let head : c ≡ b = ground arith in
      let tail : begins_with bs cs ≡ true = (begins_with_iff bs cs).1 (rest, ground arith) in
      ground arith,
)

starts_with_iff :
    (f : FileEntry) (b : ℕ) (bs : List ℕ)
    → begins_with (b ∷ bs) (read_magic f) ≡ true
      ↔ ((rest : List ℕ) × (f.magic ≡ some (b ∷ (bs ++ rest))))
unfolding begins_with
starts_with_iff f b bs = elim (Option-cases f.magic) [
  | inl unread ↦ rw unread (λ h. cc h, λ (rest, e). cc e)
  | inr (bytes, read) ↦ rw read (
    λ h. let (rest, e) = (begins_with_iff (b ∷ bs) bytes).0 h in (rest, ap some e),
    λ (rest, e). (begins_with_iff (b ∷ bs) bytes).1 (rest, ground (arith, e)),
  )
]

elf :
    (f : FileEntry)
    → begins_with (0x7f ∷ b'E' ∷ b'L' ∷ b'F' ∷ []) (read_magic f) ≡ true
      ↔ ((rest : List ℕ) × (f.magic ≡ some (127 ∷ 69 ∷ 76 ∷ 70 ∷ rest)))
elf f = starts_with_iff f 127 (69 ∷ 76 ∷ 70 ∷ [])

pe :
    (f : FileEntry)
    → begins_with (b'M' ∷ b'Z' ∷ []) (read_magic f) ≡ true
      ↔ ((rest : List ℕ) × (f.magic ≡ some (77 ∷ 90 ∷ rest)))
pe f = starts_with_iff f 77 (90 ∷ [])

binary_reason-Evidence :
    (f : FileEntry) {evidence : String} → binary_reason f ≡ some evidence → Evidence f evidence
unfolding binary_reason
binary_reason-Evidence f {evidence} h =
    let extension = lower (suffix f.name) in
    elim (Bool-cases (one_of extensions extension)) [
      | inl known ↦ inl ((one_of-Among extensions extension).0 known, ground arith)
      | inr unknown ↦ inr (
        λ x. cc (unknown, (one_of-Among extensions extension).1 x),
        elim (Bool-cases (begins_with (0x7f ∷ b'E' ∷ b'L' ∷ b'F' ∷ []) (read_magic f))) [
          | inl is_elf ↦ let (rest, e) = (elf f).0 is_elf in inl (rest, e, ground arith)
          | inr no_elf ↦ elim (Bool-cases (begins_with (b'M' ∷ b'Z' ∷ []) (read_magic f))) [
            | inl is_pe ↦ let (rest, e) = (pe f).0 is_pe in inr (rest, e, ground arith)
            | inr no_pe ↦ ground arith
          ]
        ],
      )
    ]

Evidence-binary_reason :
    (f : FileEntry) {evidence : String} → Evidence f evidence → binary_reason f ≡ some evidence
unfolding binary_reason
Evidence-binary_reason f {evidence} h =
    let extension = lower (suffix f.name) in
    elim h [
      | inl (known, e) ↦
          let is_known : one_of extensions extension ≡ true =
            (one_of-Among extensions extension).1 known in
          ground arith
      | inr (unknown, found) ↦
          let is_unknown : one_of extensions extension ≡ false =
            elim (Bool-cases (one_of extensions extension)) [
              | inl known ↦ elim (unknown ((one_of-Among extensions extension).0 known)) [ ]
              | inr it ↦ it
            ] in
          elim found [
            | inl (rest, starts, e) ↦ let is_elf = (elf f).1 (rest, starts) in ground arith
            | inr (rest, starts, e) ↦
                let no_elf : begins_with (0x7f ∷ b'E' ∷ b'L' ∷ b'F' ∷ []) (read_magic f) ≡ false =
                  elim (Bool-cases (begins_with (0x7f ∷ b'E' ∷ b'L' ∷ b'F' ∷ []) (read_magic f))) [
                    | inl is_elf ↦ let (other, e₂) = (elf f).0 is_elf in ground (arith, starts, e₂)
                    | inr it ↦ it
                  ] in
                let is_pe = (pe f).1 (rest, starts) in ground arith
          ]
    ]

binary_of_iff :
    (f : FileEntry) (finding : Finding) → Among finding (binary_of f) ↔ Reports f finding
unfolding binary_of binary_finding
binary_of_iff f finding =
    let about : List Finding → Type 0 = λ found. Among finding found ↔ Reports f finding in
    elim (Option-cases f.relative) [
      | inl outside ↦
          let empty : [] ≡ binary_of f = ground arith in
          subst about empty (λ x. elim x [ ], λ (path, evidence, at, _, _). cc (outside, at))
      | inr (place, inside) ↦ elim (Option-cases (binary_reason f)) [
        | inl none_found ↦
            let empty : [] ≡ binary_of f = ground arith in
            subst about empty (
              λ x. elim x [ ],
              λ (path, evidence, at, found, _).
                  cc (none_found, Evidence-binary_reason f {evidence = evidence} found),
            )
        | inr (reason, found) ↦
            let one : binary_finding place reason ∷ [] ≡ binary_of f = ground arith in
            subst about one (
              λ x. elim x [
                | inl same ↦ (
                  place,
                  reason,
                  inside,
                  binary_reason-Evidence f {evidence = reason} found,
                  same,
                )
                | inr nowhere ↦ elim nowhere [ ]
              ],
              λ (path, evidence, at, seen, same).
                  let there = Evidence-binary_reason f {evidence = evidence} seen in
                  let same_path : path ≡ place = ground (arith, at, inside) in
                  let same_reason : evidence ≡ reason = ground (arith, there, found) in
                  inl (same ∙ rw (same_path, same_reason) refl),
            )
      ]
    ]

one_at_most : (f : FileEntry) → length (binary_of f) ≤ 1
unfolding binary_of
one_at_most f = ground arith

-- With at most `max_files` regular files in the tree, the detector returns the findings about each of them, in the
-- tree's order; with more, it raises and returns none. About a file there is at most one finding, and a finding is about
-- a file exactly if the file has a path below the root, and the finding gives this path and what is found in the
-- file: that the suffix of its name, in lower case, is one of five; or, if not, that the file starts with the bytes of an
-- ELF file; or with those of a PE file.
pub detect_executable_binaries-gather :
    (max_files : ℕ) (root : Tree)
    → (detect_executable_binaries max_files root ≡ (
        if leb (length (regular root)) max_files
        then ok (gather binary_of (regular root))
        else err too_many))
      × ((f : FileEntry) → length (binary_of f) ≤ 1)
      × ((f : FileEntry) (finding : Finding) → Among finding (binary_of f) ↔ Reports f finding)
unfolding detect_executable_binaries
detect_executable_binaries-gather max_files root = (
  for_each-regular-ok binary_body binary_of binary_body-ok max_files root,
  one_at_most,
  binary_of_iff,
)

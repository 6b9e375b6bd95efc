-- ===== src/Scanner/Files.antt =====
-- app/infrastructure/scanner/file_iteration.py and the tests on one file that the detectors share. An
-- extracted tree is what `root.rglob("*")` yields, in its order, each path with the answers of the
-- file system about it.
use npm_sentinel.Base.{
  ℕ, suc, ◌+◌, ◌-◌, ◌≤◌, String, ◌≡◌, refl, inl, inr, Bool, true, false, not, ◌||◌, Option, none,
  some, List, [], ◌∷◌, ◌++◌, arith, ltb, leb, ◌==◌, if◌then◌else◌, Bool-cases, length, take,
}
use npm_sentinel.Core.Exceptions.{scanner_limit_exceeded_error, Exception, Result, ok, err, ◌>>=◌}
use Prim.Native.Char.{code}

pub record FileEntry : Type 0 where
  pub name : String
  -- the path below the root as a text; `none` where `relative_to` raises
  pub relative : Option String
  pub is_symlink : Bool
  pub is_file : Bool
  -- `none` where the call raises `OSError`
  pub size : Option ℕ
  -- the first four bytes
  pub magic : Option (List ℕ)
  pub text : Option String

abbrev pub Tree : Type 0
Tree = List FileEntry

-- The generator: the paths that it yields, and the exception that it ends with, if any.
abbrev pub Yields : Type 0
Yields = List FileEntry × Option Exception

abbrev pub too_many : Exception
too_many = record { class = scanner_limit_exceeded_error; message = "package file count exceeds" }

unfoldable pub iter_from : ℕ → ℕ → Tree → Yields
iter_from max_files seen [] = ([], none)
iter_from max_files seen (f ∷ fs) =
    if f.is_symlink || not f.is_file
    then iter_from max_files seen fs
    else elim (ltb max_files (suc seen)) [
      | true ↦ ([], some too_many)
      | false ↦ let (yielded, end) = iter_from max_files (suc seen) fs in (f ∷ yielded, end)
    ]

unfoldable pub iter_regular_files : ℕ → Tree → Yields
unfolding iter_from
iter_regular_files max_files root = iter_from max_files 0 root

-- `for path in …: findings.extend(body(path))`, where the generator or the body may raise.
unfoldable pub for_each {ℓ} :
    {A : Type ℓ} → (FileEntry → Result (List A)) → Yields → Result (List A)
for_each body ([], none) = ok []
for_each body ([], some e) = err e
for_each body (f ∷ fs, end) = do found ← body f; rest ← for_each body (fs, end); ok (found ++ rest)

-- What stands from the last full stop on.
unfoldable pub last_stop : String → Option String
last_stop String.[] = none
last_stop (String.◌∷◌ c s) = elim (last_stop s) [
  | some t ↦ some t
  | none ↦ if code c == b'.' then some (String.◌∷◌ c s) else none
]

unfoldable pub drop_stops : String → String
drop_stops String.[] = ""
drop_stops (String.◌∷◌ c s) = if code c == b'.' then drop_stops s else String.◌∷◌ c s

-- `path.suffix` of Python 3.14: from the last full stop on, if there is another character before it.
unfoldable pub suffix : String → String
unfolding last_stop drop_stops
suffix name = elim (last_stop (drop_stops name)) [ none ↦ "" | some t ↦ t ]

suffix_tests :
    (suffix "a.tar.GZ" ≡ ".GZ")
    × (suffix ".bashrc" ≡ "")
    × (suffix "end." ≡ ".")
    × (suffix "..a" ≡ "")
    × (suffix "x" ≡ "")
unfolding suffix
suffix_tests = (refl, refl, refl, refl, refl)

-- The regular files of a tree.
unfoldable pub regular : Tree → List FileEntry
regular [] = []
regular (f ∷ fs) = if f.is_symlink || not f.is_file then regular fs else f ∷ regular fs

iter_from-regular :
    (max_files seen : ℕ) (fs : Tree)
    → seen ≤ max_files
    → iter_from max_files seen fs ≡ (
        if leb (seen + length (regular fs)) max_files
        then (regular fs, none)
        else (take (max_files - seen) (regular fs), some too_many))
unfolding iter_from regular
iter_from-regular max_files seen [] h = ground arith
iter_from-regular max_files seen (f ∷ fs) h = elim (Bool-cases (f.is_symlink || not f.is_file)) [
  | inl skip ↦ rw skip (iter_from-regular max_files seen fs h)
  | inr file ↦ elim (Bool-cases (ltb max_files (suc seen))) [
    | inl full ↦
        let none_left : max_files - seen ≡ 0 = ground arith in
        rw (file, full, none_left) (ground arith)
    | inr room ↦
        let one_more : max_files - seen ≡ suc (max_files - suc seen) = ground arith in
        rw (file, room, iter_from-regular max_files (suc seen) fs (ground arith), one_more)
          (ground arith)
  ]
]

-- With at most `max_files` regular files below the root the generator yields exactly these; with more
-- it yields the first `max_files` of them and then raises.
pub iter_regular_files-regular :
    (max_files : ℕ) (fs : Tree)
    → iter_regular_files max_files fs ≡ (
        if leb (length (regular fs)) max_files
        then (regular fs, none)
        else (take max_files (regular fs), some too_many))
unfolding iter_regular_files
iter_regular_files-regular max_files fs =
    let counted : 0 + length (regular fs) ≡ length (regular fs) = omega arith in
    let left : max_files - 0 ≡ max_files = omega arith in
    rw (iter_from-regular max_files 0 fs (omega arith), counted, left)

-- What a function gives for each file, one after the other.
unfoldable pub gather {ℓ} : {A : Type ℓ} → (FileEntry → List A) → List FileEntry → List A
gather g [] = []
gather g (f ∷ fs) = g f ++ gather g fs

abbrev pub finish {ℓ} : {A : Type ℓ} → Option Exception → List A → Result (List A)
finish none found = ok found
finish (some e) found = err e

-- A loop whose body never raises.
pub for_each-ok {ℓ} :
    {A : Type ℓ} (body : FileEntry → Result (List A)) (g : FileEntry → List A)
    → ((f : FileEntry) → body f ≡ ok (g f))
    → (fs : List FileEntry) (end : Option Exception)
    → for_each body (fs, end) ≡ finish end (gather g fs)
unfolding for_each gather
for_each-ok body g h [] none = refl
for_each-ok body g h [] (some e) = refl
for_each-ok body g h (f ∷ fs) none = rw (h f, for_each-ok body g h fs none)
for_each-ok body g h (f ∷ fs) (some e) = rw (h f, for_each-ok body g h fs (some e))

-- Such a loop over the regular files of a tree.
pub for_each-regular-ok {ℓ} :
    {A : Type ℓ} (body : FileEntry → Result (List A)) (g : FileEntry → List A)
    → ((f : FileEntry) → body f ≡ ok (g f))
    → (max_files : ℕ) (root : Tree)
    → for_each body (iter_regular_files max_files root) ≡ (
        if leb (length (regular root)) max_files
        then ok (gather g (regular root))
        else err too_many)
for_each-regular-ok body g h max_files root =
    elim (Bool-cases (leb (length (regular root)) max_files)) [
      | inl few ↦
          rw (iter_regular_files-regular max_files root, few)
            (for_each-ok body g h (regular root) none)
      | inr many ↦
          rw (iter_regular_files-regular max_files root, many)
            (for_each-ok body g h (take max_files (regular root)) (some too_many))
    ]

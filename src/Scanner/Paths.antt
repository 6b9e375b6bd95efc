-- ===== src/Scanner/Paths.antt =====
-- The paths that the extractor computes with: `pathlib` on texts without a drive. A place in the file
-- system is the list of the names on its path, the last one first. `resolve` follows `..` by the path
-- alone, which is what it does where no link stands on the way.
pub mod Within
use Prim.Native.Char.{code}
use npm_sentinel.Base.{
  String, ◌≡◌, refl, Bool, true, false, ◌&&◌, ◌||◌, List, [], ◌∷◌, ◌==◌, if◌then◌else◌, str_eq,
}

-- `text.split("/")`, with the part that is being read in front.
unfoldable pub split_slash : String → List String
split_slash String.[] = "" ∷ []
split_slash (String.◌∷◌ c s) = elim (split_slash s) [
  | [] ↦ []
  | part ∷ parts ↦ if code c == b'/' then "" ∷ (part ∷ parts) else String.◌∷◌ c part ∷ parts
]

unfoldable pub drop_blank : List String → List String
drop_blank [] = []
drop_blank (p ∷ ps) = if str_eq p "" || str_eq p "." then drop_blank ps else p ∷ drop_blank ps

-- The parts of a relative `Path`: pathlib drops empty ones and `.`.
unfoldable pub parts : String → List String
unfolding split_slash drop_blank
parts name = drop_blank (split_slash name)

-- `path.is_absolute()`
unfoldable pub is_absolute : String → Bool
is_absolute String.[] = false
is_absolute (String.◌∷◌ c s) = code c == b'/'

abbrev pub Location : Type 0
Location = List String

abbrev pub parent : Location → Location
parent [] = []
parent (p ∷ ps) = ps

-- `(location / path).resolve()`
unfoldable pub resolve : Location → List String → Location
resolve l [] = l
resolve l (p ∷ ps) = resolve (if str_eq p ".." then parent l else p ∷ l) ps

unfoldable pub same_location : Location → Location → Bool
same_location [] [] = true
same_location [] (q ∷ qs) = false
same_location (p ∷ ps) [] = false
same_location (p ∷ ps) (q ∷ qs) = str_eq p q && same_location ps qs

-- `candidate.relative_to(root)` does not raise.
unfoldable pub is_relative_to : Location → Location → Bool
unfolding same_location
is_relative_to root [] = same_location root []
is_relative_to root (p ∷ ps) = same_location root (p ∷ ps) || is_relative_to root ps

parts_tests :
    (parts "package//./lib/../a.js" ≡ "package" ∷ "lib" ∷ ".." ∷ "a.js" ∷ [])
    × (parts "./" ≡ [])
    × (resolve ("root" ∷ []) ("a" ∷ ".." ∷ "b" ∷ []) ≡ "b" ∷ "root" ∷ [])
    × (is_relative_to ("root" ∷ []) ("b" ∷ "root" ∷ []) ≡ true)
    × (is_relative_to ("root" ∷ []) ("rootkit" ∷ []) ≡ false)
unfolding parts resolve is_relative_to
parts_tests = (refl, refl, refl, refl, refl)

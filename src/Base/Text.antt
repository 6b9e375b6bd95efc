-- ===== src/Base/Text.antt =====
-- Python's `str`: a native text, and the operations that walk over its characters.
use Prim.Native.Nat.{ℕ, zero, suc, ◌-◌}
use Prim.Native.Char.{code}
use Prim.Native.String.{String, char_at}
use mathlib.Core.Bool.{Bool, true, false, ◌&&◌, ◌||◌}
use mathlib.Core.List.{List, [], ◌∷◌}
use mathlib.Core.Path.{◌≡◌, refl}
use mathlib.Core.Logic.{inl, inr}
use npm_sentinel.Base.Tests.{leb, ◌==◌, if◌then◌else◌, Bool-cases}
pub use text.Mathlib.Text.{◌==◌ as str_eq}
pub use text.Mathlib.TextEquality.{eq_iff as str_eq_iff}
pub use text.Mathlib.TextPositions.{eq_refl as str_eq_refl}
pub use Prim.Native.String.{count, ◌++◌ as append}

-- `str.isspace` on one character: the white space of Unicode.
unfoldable pub is_space : ℕ → Bool
is_space c =
    leb 9 c && leb c 13
    || leb 28 c && leb c 32
    || c == 133
    || c == 160
    || c == 5760
    || leb 8192 c && leb c 8202
    || c == 8232
    || c == 8233
    || c == 8239
    || c == 8287
    || c == 12288

abbrev pub is_empty : String → Bool
is_empty String.[] = true
is_empty (String.◌∷◌ c s) = false

-- `str.lstrip`
unfoldable pub lstrip : String → String
unfolding is_space
lstrip String.[] = ""
lstrip (String.◌∷◌ c s) = if is_space (code c) then lstrip s else String.◌∷◌ c s

-- `str.rstrip`
unfoldable pub rstrip : String → String
unfolding is_space
rstrip String.[] = ""
rstrip (String.◌∷◌ c s) =
    let r = rstrip s in if is_space (code c) && is_empty r then "" else String.◌∷◌ c r

-- `str.strip`
unfoldable pub strip : String → String
unfolding lstrip rstrip
strip s = rstrip (lstrip s)

-- The first character, if there is one, is no white space.
abbrev StartsSolid : String → Type 0
StartsSolid String.[] = Unit
StartsSolid (String.◌∷◌ c s) = is_space (code c) ≡ false

lstrip-StartsSolid : (s : String) → StartsSolid (lstrip s)
unfolding lstrip
lstrip-StartsSolid String.[] = tt
lstrip-StartsSolid (String.◌∷◌ c s) = elim (Bool-cases (is_space (code c))) [
  | inl space ↦ rw space (lstrip-StartsSolid s)
  | inr solid ↦ rw solid solid
]

lstrip_of_StartsSolid : (s : String) → StartsSolid s → lstrip s ≡ s
unfolding lstrip
lstrip_of_StartsSolid String.[] h = refl
lstrip_of_StartsSolid (String.◌∷◌ c s) h = rw h

rstrip-StartsSolid : (s : String) → StartsSolid s → StartsSolid (rstrip s)
unfolding rstrip
rstrip-StartsSolid String.[] h = tt
rstrip-StartsSolid (String.◌∷◌ c s) h = rw h h

rstrip_idem : (s : String) → rstrip (rstrip s) ≡ rstrip s
unfolding rstrip
rstrip_idem String.[] = refl
rstrip_idem (String.◌∷◌ c s) = elim (Bool-cases (is_space (code c) && is_empty (rstrip s))) [
  | inl gone ↦ rw gone
  | inr kept ↦ rw kept (rw (rstrip_idem s, kept))
]

-- Stripping twice is stripping once.
pub strip_idem : (s : String) → strip (strip s) ≡ strip s
unfolding strip
strip_idem s =
    rw
      (lstrip_of_StartsSolid (rstrip (lstrip s))
        (rstrip-StartsSolid (lstrip s) (lstrip-StartsSolid s)))
      (rstrip_idem (lstrip s))

-- `str.lower` on the characters of ASCII.
unfoldable pub lower : String → String
lower String.[] = ""
lower (String.◌∷◌ c s) =
    String.◌∷◌
      (if leb b'A' (code c) && leb (code c) b'Z'
        then char_at "abcdefghijklmnopqrstuvwxyz" (code c - b'A')
        else c)
      (lower s)

-- `str.upper` on the characters of ASCII.
unfoldable pub upper : String → String
upper String.[] = ""
upper (String.◌∷◌ c s) =
    String.◌∷◌
      (if leb b'a' (code c) && leb (code c) b'z'
        then char_at "ABCDEFGHIJKLMNOPQRSTUVWXYZ" (code c - b'a')
        else c)
      (upper s)

-- The first `n` characters, `s[:n]`.
unfoldable pub prefix : ℕ → String → String
prefix zero s = ""
prefix (suc n) String.[] = ""
prefix (suc n) (String.◌∷◌ c s) = String.◌∷◌ c (prefix n s)

-- `x in {a, b, …}` for a set of texts.
unfoldable pub one_of : List String → String → Bool
one_of [] s = false
one_of (t ∷ ts) s = str_eq t s || one_of ts s

text_tests :
    (strip "  a b\n" ≡ "a b")
    × (lower ".Exe" ≡ ".exe")
    × (upper "size_x" ≡ "SIZE_X")
    × (prefix 2 "abc" ≡ "ab")
unfolding strip lower upper prefix
text_tests = (refl, refl, refl, refl)

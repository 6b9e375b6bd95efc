-- ===== src/UseCases/PackageName.antt =====
-- `is_valid_package_name` of app/application/use_cases/enqueue_scan.py
use Prim.Native.Char.{Char, code}
use mathlib.Core.Path.{subst, ap₂}
use text.Mathlib.TextEquality.{Char-path}
use text.Mathlib.TextLemmas.{append-nil, nil-append, cons-append}
use npm_sentinel.Base.{
  refl, inl, inr, true, ℕ, String, ◌≡◌, refl, sym, ap, ◌∙◌, ◌⊎◌, Bool, true, ◌||◌, Option, some,
  ◌==◌, append, ◌↔◌, none, arith,
}
use npm_sentinel.Re.{Pattern, char, star, seq, opt, within, full_match}
use npm_sentinel.Re.Meaning.{full_match_iff, Run, Matches}

-- `[a-z0-9~]` and `[a-z0-9._~-]`
abbrev pub starts_name : ℕ → Bool
starts_name c = within b'a' b'z' c || within b'0' b'9' c || c == b'~'

abbrev pub in_name : ℕ → Bool
in_name c =
    within b'a' b'z' c || within b'0' b'9' c || c == b'.' || c == b'_' || c == b'~' || c == b'-'

abbrev part_pattern : Pattern
part_pattern = seq (char starts_name) (star in_name)

-- `^(?:@[a-z0-9~][a-z0-9._~-]*/)?[a-z0-9~][a-z0-9._~-]*$`; `fullmatch` anchors it at both ends.
abbrev pub package_name_pattern : Pattern
package_name_pattern =
    seq (opt (seq (char (λ c. c == b'@')) (seq part_pattern (char (λ c. c == b'/'))))) part_pattern

unfoldable pub is_valid_package_name : String → Bool
unfolding full_match
is_valid_package_name s = full_match package_name_pattern s

-- Every character is of the class.
pub data AllOf (f : ℕ → Bool) : String → Type 0 where
  nil : AllOf f ""
  cons : {c : Char} {s : String} → f (code c) ≡ true → AllOf f s → AllOf f (String.◌∷◌ c s)

-- One part of a package name: a letter, a digit or `~`, and then also full stops, `_` and `-`.
pub data IsPart : String → Type 0 where
  part :
      {c : Char} {s : String}
      → starts_name (code c) ≡ true
      → AllOf in_name s
      → IsPart (String.◌∷◌ c s)

-- A package name: a part, or `@`, a part, `/` and a part.
abbrev pub IsPackageName : String → Type 0
IsPackageName s =
    IsPart s
    ⊎ ((a : String) × (b : String) × (s ≡ String.◌∷◌ "@" (append a (String.◌∷◌ "/" b)))
        × IsPart a
        × IsPart b)

Run-AllOf :
    {f : ℕ → Bool} {p q : Option ℕ} {s r : String}
    → Run f p s q r
    → (x : String) × (s ≡ append x r) × AllOf f x
Run-AllOf {r = r} Run.stop = ("", sym (nil-append r), nil)
Run-AllOf {r = r} (Run.step {c = c} m run) =
    let (x, e, all_of) = Run-AllOf run in
    (String.◌∷◌ c x, ap (String.◌∷◌ c) e ∙ sym (cons-append c x r), cons m all_of)

AllOf-Run :
    {f : ℕ → Bool} (p : Option ℕ) {x : String} (r : String)
    → AllOf f x
    → (q : Option ℕ) × Run f p (append x r) q r
AllOf-Run {f} p r nil = (p, rw nil-append Run.stop)
AllOf-Run {f} p r (cons {c = c} m all_of) =
    let (q, run) = AllOf-Run (some (code c)) r all_of in (q, rw cons-append (Run.step m run))

IsPart-sound :
    (p : Option ℕ) {q : Option ℕ} {s r : String}
    → Matches part_pattern p s q r
    → (x : String) × (s ≡ append x r) × IsPart x
IsPart-sound p {r = r} (u, t, (c, e, m, l), run) =
    let (x, e', all_of) = Run-AllOf run in
    (String.◌∷◌ c x, e ∙ ap (String.◌∷◌ c) e' ∙ sym (cons-append c x r), part m all_of)

part_complete :
    (p : Option ℕ) {x : String} (r : String)
    → IsPart x
    → (q : Option ℕ) × Matches part_pattern p (append x r) q r
part_complete p r (part {c = c} {s = s} m all_of) =
    let (q, run) = AllOf-Run (some (code c)) r all_of in
    (q, (some (code c), append s r, (c, cons-append c s r, m, refl), run))

same_char : {c : Char} (d : Char) → (code c == code d) ≡ true → c ≡ d
same_char {c} d h = Char-path c d (ground arith)

sound : {s : String} {q : Option ℕ} → Matches package_name_pattern none s q "" → IsPackageName s
sound (u, t, inr (e, e'), m) =
    let (x, split, is_part) = IsPart-sound u m in
    inl (subst IsPart (sym (append-nil x) ∙ sym split ∙ e') is_part)
sound (u, t, inl (v, w, (c, at, is_at, _), (y, z, scope, (d, slash, is_slash, _))), m) =
    let (a, split_a, part_a) = IsPart-sound v scope in
    let (b, split_b, part_b) = IsPart-sound u m in
    inr (
      a,
      b,
      at
          ∙ ap₂ String.◌∷◌ (same_char "@" is_at) (
              split_a
              ∙ ap (append a)
                  (slash ∙ ap₂ String.◌∷◌ (same_char "/" is_slash) (split_b ∙ append-nil b))),
      part_a,
      part_b,
    )

complete :
    (s : String) → IsPackageName s → (q : Option ℕ) × Matches package_name_pattern none s q ""
complete s (inl is_part) =
    let (q, m) = part_complete none "" is_part in
    (q, (none, s, inr (refl, refl), rw append-nil at m))
complete s (inr (a, b, e, part_a, part_b)) =
    let (y, scope) = part_complete (some b'@') (String.◌∷◌ "/" b) part_a in
    let (q, m) = part_complete (some b'/') "" part_b in
    (
      q,
      (
        some b'/',
        b,
        inl (
          some b'@',
          append a (String.◌∷◌ "/" b),
          ("@", e, refl, refl),
          (y, String.◌∷◌ "/" b, scope, ("/", refl, refl, refl)),
        ),
        rw append-nil at m,
      ),
    )

-- The pattern accepts exactly the package names: a part alone, or a scope and a part.
pub is_valid_package_name_iff : (s : String) → (is_valid_package_name s ≡ true) ↔ IsPackageName s
unfolding is_valid_package_name
is_valid_package_name_iff s = (
  λ h. let (q, m) = (full_match_iff package_name_pattern s).0 h in sound m,
  λ name. (full_match_iff package_name_pattern s).1 (complete s name),
)

-- ===== src/Npm/Tarball/Integrity.antt =====
-- What `_validate_url` accepts, and what `_build_integrity_check` of app/infrastructure/npm/tarball_downloader.py reads
-- in an integrity text.
use text.Mathlib.TextEquality.{Char-path}
use Prim.Native.Char.{code}
use npm_sentinel.Base.{
  String, ◌≡◌, refl, ap, ◌⊎◌, ◌↔◌, inl, inr, true, false, Option, none, some, List, [], ◌∷◌, ◌++◌,
  arith, Bool-cases, Option-cases, is_empty, one_of, str_eq, str_eq_iff, ◌==◌,
}
use npm_sentinel.Core.Exceptions.{ok}
use npm_sentinel.Npm.Tarball.{
  Bytes, Url, IntegrityCheck, validate_url, split_words, drop_empty, split_dash, algorithms,
  first_token, build_integrity_check,
}

-- An absolute URL of one of the two schemes.
abbrev pub IsHttp : Url → Type 0
IsHttp url = ((url.scheme ≡ "http") ⊎ (url.scheme ≡ "https")) × (is_empty url.netloc ≡ false)

pub validate_url-IsHttp : (url : Url) {r : Unit {0}} → validate_url url ≡ ok r → IsHttp url
unfolding validate_url one_of
validate_url-IsHttp url {r} h =
    ground (arith, str_eq_iff "http" url.scheme, str_eq_iff "https" url.scheme)

abbrev pub Supported : String → Type 0
Supported algorithm =
    (algorithm ≡ "sha1")
    ⊎ ((algorithm ≡ "sha256") ⊎ ((algorithm ≡ "sha384") ⊎ (algorithm ≡ "sha512")))

-- The token of an algorithm and a digest's text: both with a dash between them.
abbrev pub dashed : String → String → String
dashed String.[] encoded = String.◌∷◌ "-" encoded
dashed (String.◌∷◌ c algorithm) encoded = String.◌∷◌ c (dashed algorithm encoded)

split_dash-eq :
    (token algorithm encoded : String)
    → split_dash token ≡ some (algorithm, encoded)
    → token ≡ dashed algorithm encoded
unfolding split_dash
split_dash-eq String.[] algorithm encoded h = cc
split_dash-eq (String.◌∷◌ c s) algorithm encoded h = elim (Bool-cases (code c == b'-')) [
  | inl dash ↦
      let head : c ≡ "-" = Char-path c "-" (ground arith) in
      let before : "" ≡ algorithm = ground arith in
      let behind : s ≡ encoded = ground arith in rw (head, ← before, behind) refl
  | inr other ↦ elim (Option-cases (split_dash s)) [
    | inl without ↦ ground arith
    | inr ((a, b), found) ↦
        let before : String.◌∷◌ c a ≡ algorithm = ground arith in
        let behind : b ≡ encoded = ground arith in
        rw (← before, ← behind) (ap (String.◌∷◌ c) (split_dash-eq s a b found))
  ]
]

split_dash-dashed :
    (algorithm encoded : String)
    → Supported algorithm
    → split_dash (dashed algorithm encoded) ≡ some (algorithm, encoded)
unfolding split_dash
split_dash-dashed algorithm encoded h = elim h [
  | inl e ↦ rw e refl
  | inr (inl e) ↦ rw e refl
  | inr (inr (inl e)) ↦ rw e refl
  | inr (inr (inr e)) ↦ rw e refl
]

one_of_iff : (algorithm : String) → one_of algorithms algorithm ≡ true ↔ Supported algorithm
unfolding one_of
one_of_iff a = ground (
  arith,
  str_eq_iff "sha1" a,
  str_eq_iff "sha256" a,
  str_eq_iff "sha384" a,
  str_eq_iff "sha512" a,
)

-- A token of a supported algorithm is read as such.
read_token :
    (token other rest : String)
    → Supported other
    → str_eq token (dashed other rest) ≡ true
    → split_dash token ≡ some (other, rest)
read_token token other rest s same =
    let e : token ≡ dashed other rest = (str_eq_iff token (dashed other rest)).0 same in
    rw e (split_dash-dashed other rest s)

no_dash :
    (token other rest : String)
    → split_dash token ≡ none
    → Supported other
    → str_eq token (dashed other rest) ≡ false
no_dash token other rest without s = elim (Bool-cases (str_eq token (dashed other rest))) [
  | inl same ↦ cc (without, read_token token other rest s same)
  | inr apart ↦ apart
]

unlisted :
    (token algorithm encoded other rest : String)
    → split_dash token ≡ some (algorithm, encoded)
    → one_of algorithms algorithm ≡ false
    → Supported other
    → str_eq token (dashed other rest) ≡ false
unlisted token algorithm encoded other rest split unsupported s =
    elim (Bool-cases (str_eq token (dashed other rest))) [
      | inl same ↦
          cc (split, unsupported, read_token token other rest s same, (one_of_iff other).1 s)
      | inr apart ↦ apart
    ]

module _ (b64decode : String → Option Bytes) where
  -- What an integrity text asks for: nothing, if it is absent or empty; otherwise one of its words is a token of a
  -- supported algorithm, whose digest's text decodes to the expected digest, and no word before it is such a token.
  abbrev pub Asked : Option String → Option IntegrityCheck → Type 0
  Asked none check = check ≡ none
  Asked (some text) check =
      ((text ≡ "") × (check ≡ none))
      ⊎ ((algorithm : String) × (encoded : String) × (expected : Bytes) × (before : List String)
          × (after : List String) × (drop_empty (split_words text)
              ≡ before ++ dashed algorithm encoded ∷ after)
          × Supported algorithm
          × ((other rest : String) → Supported other → one_of before (dashed other rest) ≡ false)
          × (b64decode encoded ≡ some expected)
          × (check ≡ some (record { algorithm = algorithm; expected_digest = expected })))

  abbrev Decides : List String → Option IntegrityCheck → Type 0
  Decides tokens check =
      (algorithm : String) × (encoded : String) × (expected : Bytes) × (before : List String)
      × (after : List String) × (tokens ≡ before ++ dashed algorithm encoded ∷ after)
      × Supported algorithm
      × ((other rest : String) → Supported other → one_of before (dashed other rest) ≡ false)
      × (b64decode encoded ≡ some expected)
      × (check ≡ some (record { algorithm = algorithm; expected_digest = expected }))

  -- A word that is no token of a supported algorithm is passed over.
  passed :
      (token : String) (tokens : List String) {check : Option IntegrityCheck}
      → ((other rest : String) → Supported other → str_eq token (dashed other rest) ≡ false)
      → Decides tokens check
      → Decides (token ∷ tokens) check
  unfolding one_of
  passed token tokens not_it
        (algorithm, encoded, expected, before, after, e, supported, fresh, found, is) =
      (
        algorithm,
        encoded,
        expected,
        token ∷ before,
        after,
        ap (λ (l : List String). token ∷ l) e,
        supported,
        λ other rest s. rw (not_it other rest s) (fresh other rest s),
        found,
        is,
      )

  first_token-Decides :
      (tokens : List String) {check : Option IntegrityCheck}
      → first_token b64decode tokens ≡ ok check
      → Decides tokens check
  unfolding first_token one_of
  first_token-Decides [] h = cc
  first_token-Decides (token ∷ tokens) {check} h = elim (Option-cases (split_dash token)) [
    | inl without ↦
        passed token tokens (λ other rest s. no_dash token other rest without s)
          (first_token-Decides tokens (ground arith))
    | inr ((algorithm, encoded), split) ↦ elim (Bool-cases (one_of algorithms algorithm)) [
      | inl supported ↦ elim (Option-cases (b64decode encoded)) [
        | inl malformed ↦ ground arith
        | inr (expected, found) ↦ (
          algorithm,
          encoded,
          expected,
          [],
          tokens,
          ap (λ (t : String). t ∷ tokens) (split_dash-eq token algorithm encoded split),
          (one_of_iff algorithm).0 supported,
          λ other rest s. refl,
          found,
          ground arith,
        )
      ]
      | inr unsupported ↦
          passed token tokens
            (λ other rest s. unlisted token algorithm encoded other rest split unsupported s)
            (first_token-Decides tokens (ground arith))
    ]
  ]

  pub build_integrity_check-Asked :
      (integrity : Option String) {check : Option IntegrityCheck}
      → build_integrity_check b64decode integrity ≡ ok check
      → Asked integrity check
  unfolding build_integrity_check
  build_integrity_check-Asked none {check} h = ground arith
  build_integrity_check-Asked (some String.[]) {check} h = inl (refl, ground arith)
  build_integrity_check-Asked (some (String.◌∷◌ c s)) h =
      inr (first_token-Decides (drop_empty (split_words (String.◌∷◌ c s))) h)

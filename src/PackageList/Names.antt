-- ===== src/PackageList/Names.antt =====
-- What the list of names holds that `load_package_names` returns.
use std.Path.{subst}
use npm_sentinel.Base.{
  length-take, ℕ, ◌<◌, ◌≤◌, ◌-◌, String, ◌≡◌, refl, inl, inr, false, Option, none, some, List, [],
  ◌∷◌, arith, Bool-cases, leb, count, strip, prefix, is_empty, length, take, All,
}
use npm_sentinel.Core.Exceptions.{ok, >>=-eq-ok}
use npm_sentinel.Re.Meaning.{Matches, Place}
use npm_sentinel.Re.First.Sound.{match_first_sound, FoundIn, find_all_sound}
use npm_sentinel.PackageList.Distinct.{
  Distinct, Distinct-take, All-take, decoded_name, Distinct-add_names, All-add_names, Listed,
  Listed-add_names,
}
use npm_sentinel.PackageList.{
  before_name, name_group, after_name, link_at, links, add_names, unless_none, parse_package_names,
  Outcome, answered, timed_out, request_failed, fetch_content, limited, load_package_names,
  group_at, close_at,
}

-- At a place of the content the pattern of a link matches, with this text for its group.
abbrev pub IsLink : String → String → Type 0
IsLink content group =
    (u : Option ℕ) × (t : String) × (q : Option ℕ) × (r : String) × (q' : Option ℕ) × (r' : String)
    × (q'' : Option ℕ) × (rest : String) × Place none content u t
    × Matches before_name u t q r
    × Matches name_group q r q' r'
    × Matches after_name q' r' q'' rest
    × (group ≡ prefix (count r - count r') r)

link_at_sound :
    (content : String) (u : Option ℕ) (t : String) {group rest : String}
    → Place none content u t
    → link_at u t ≡ some (group, rest)
    → IsLink content group
unfolding link_at
link_at_sound content u t {group} {rest} place h =
    let (q, r, m, e) = match_first_sound before_name u t group_at {x = (group, rest)} h in
    let (q', r', n, f) = match_first_sound name_group q r (close_at r) {x = (group, rest)} e in
    let (q'', r'', o, g) =
      match_first_sound after_name q' r' (λ q'' rest. some (prefix (count r - count r') r, rest))
        {x = (group, rest)} f in
    (u, t, q, r, q', r', q'', r'', place, m, n, o, cc g)

All-weaken :
    (P Q : String → Type 0) (xs : List String) → ((x : String) → P x → Q x) → All P xs → All Q xs
All-weaken P Q [] imp h = tt
All-weaken P Q (x ∷ xs) imp (h, hs) = (imp x h, All-weaken P Q xs imp hs)

links_sound : (content : String) → All (IsLink content) (links content)
unfolding links
links_sound content =
    All-weaken (FoundIn link_at none content) (IsLink content) (links content)
      (λ g (u, t, rest, place, found).
        link_at_sound content u t {group = g} {rest = rest} place found)
      (find_all_sound link_at 0 none content)

-- A name of the list is that of a link, and not empty.
abbrev pub NameIn : (String → String) → String → String → Type 0
NameIn unquote content name =
    (group : String) × IsLink content group
    × (name ≡ strip (unquote group))
    × (is_empty name ≡ false)

abbrev pub AtMost : Option ℕ → List String → Type 0
AtMost none names = Unit
AtMost (some limit) names = length names ≤ limit

-- The name of every link stands in the list, or is empty.
abbrev pub HasAll : (String → String) → String → List String → Type 0
HasAll unquote content names = All (Listed unquote names) (links content)

-- The list has all names, or the first ones of such a list, up to the limit.
abbrev pub Complete : (String → String) → Option ℕ → String → List String → Type 0
Complete unquote none content names = HasAll unquote content names
Complete unquote (some limit) content names =
    (whole : List String) × HasAll unquote content whole × (names ≡ take limit whole)

-- What the names are that are read from a content.
abbrev pub Read : (String → String) → Option ℕ → String → List String → Type 0
Read unquote limit content names =
    Distinct names
    × AtMost limit names
    × All (NameIn unquote content) names
    × Complete unquote limit content names

Read-limited :
    (unquote : String → String) (limit : Option ℕ) (content : String) (found : List String)
    → Distinct found
    → All (NameIn unquote content) found
    → All (Listed unquote found) (links content)
    → Read unquote limit content (limited limit found)
Read-limited unquote none content found distinct named complete = (distinct, tt, named, complete)
Read-limited unquote (some limit) content found distinct named complete = (
  Distinct-take limit found distinct,
  omega (arith, length-take limit found),
  All-take (NameIn unquote content) limit found named,
  (found, complete, refl),
)

fetch_content-ok :
    (outcome : Outcome) {content : String}
    → fetch_content outcome ≡ ok content
    → (status_code : ℕ) × (outcome ≡ answered status_code content) × (status_code < 400)
unfolding fetch_content
fetch_content-ok timed_out h = cc
fetch_content-ok request_failed h = cc
fetch_content-ok (answered status_code text) {content} h = elim (Bool-cases (leb 400 status_code)) [
  | inl bad ↦ absurd (ground arith)
  | inr fine ↦ (status_code, ground arith, ground arith)
]

unless_none-ok :
    (found : List String) {names : List String} → unless_none found ≡ ok names → names ≡ found
unless_none-ok [] h = cc
unless_none-ok (n ∷ ns) h = cc

parsed_names :
    (unquote : String → String) (content : String) {names : List String}
    → parse_package_names unquote content ≡ ok names
    → (names ≡ add_names unquote (links content) [])
      × Distinct names
      × All (NameIn unquote content) names
      × All (Listed unquote names) (links content)
unfolding parse_package_names
parsed_names unquote content {names} h =
    let e = unless_none-ok (add_names unquote (links content) []) {names = names} h in
    rw e (
      refl,
      Distinct-add_names unquote (links content) [] tt,
      All-add_names unquote (NameIn unquote content) (links content) []
          (All-weaken (IsLink content)
            (λ g.
              is_empty (decoded_name unquote g) ≡ false
              → NameIn unquote content (decoded_name unquote g))
            (links content) (λ g link solid. (g, link, refl, solid)) (links_sound content))
          tt,
      Listed-add_names unquote (links content) [],
    )

-- If the names are returned, then the request was answered with a status below 400, no name stands twice, there
-- are at most as many as the limit, and each is the name of a link in the content, decoded and stripped, and not
-- empty; without a limit the name of every link that the search finds is among them, unless it is empty, and
-- with a limit they are the first ones of a list that has all these.
pub load_package_names-NameIn :
    (unquote : String → String) (outcome : Outcome) (limit : Option ℕ) {names : List String}
    → load_package_names unquote outcome limit ≡ ok names
    → (status_code : ℕ) × (content : String) × (outcome ≡ answered status_code content)
      × (status_code < 400)
      × Read unquote limit content names
unfolding load_package_names
load_package_names-NameIn unquote outcome limit {names} h =
    let (content, fetched, h₁) = >>=-eq-ok (fetch_content outcome) _ {result = names} h in
    let (found, parsed, h₂) =
      >>=-eq-ok (parse_package_names unquote content) _ {result = names} h₁ in
    let (status_code, answer, fine) = fetch_content-ok outcome {content = content} fetched in
    let (whole, distinct, named, complete) = parsed_names unquote content {names = found} parsed in
    let e : limited limit found ≡ names = cc h₂ in
    (
      status_code,
      content,
      answer,
      fine,
      subst (Read unquote limit content) e
          (Read-limited unquote limit content found distinct named complete),
    )

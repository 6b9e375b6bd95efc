-- ===== src/PackageList.antt =====
-- app/infrastructure/package_list/meyond_top_packages_source.py
mod Tests
pub mod Distinct
pub mod Names
use npm_sentinel.Base.{
  ℕ, String, Bool, true, false, not, ◌&&◌, ◌||◌, ◌==◌, ◌-◌, Option, none, some, List, [], ◌∷◌, ◌++◌,
  if◌then◌else◌, leb, count, is_space, is_empty, strip, prefix, one_of, take,
}
use npm_sentinel.Core.Exceptions.{
  Result, ok, err, ◌>>=◌, raise, package_list_source_error, package_list_source_timeout_error,
  package_list_source_malformed_content_error,
}
use npm_sentinel.Re.{Pattern, char, star, seq, alt, not_behind, opt, plus, literal, within}
use npm_sentinel.Re.First.{match_first, find_all}

abbrev pub digit : ℕ → Bool
digit c = within b'0' b'9' c

-- `^` in lines: at the start of the text, or behind a line feed.
abbrev pub line_start : Pattern
line_start = not_behind (λ c. not (c == b'\n'))

-- `_NPM_PACKAGE_LINK_PATTERN` up to its group, on the digits of ASCII.
abbrev pub before_name : Pattern
before_name = seq line_start (
    seq (star is_space) (
      seq (plus digit) (
        seq (literal ".") (
          seq (plus is_space) (
            seq (literal "[") (
              seq (plus (λ c. not (c == b']'))) (
                seq (literal "](http") (
                  seq (opt (literal "s")) (
                    seq (literal "://www.npmjs.")
                      (seq (alt (literal "org") (literal "com")) (literal "/package/")))))))))))

-- The group.
abbrev pub name_group : Pattern
name_group = plus (λ c. not (c == b')') && not (is_space c))

abbrev pub after_name : Pattern
after_name = literal ")"

abbrev pub close_at : String → Option ℕ → String → Option (String × String)
close_at r q' r' =
    match_first after_name q' r' λ q'' rest. some (prefix (count r - count r') r, rest)

abbrev pub group_at : Option ℕ → String → Option (String × String)
group_at q r = match_first name_group q r (close_at r)

-- A match at a place: the text of its group, and the text behind it.
unfoldable pub link_at : Option ℕ → String → Option (String × String)
unfolding match_first is_space prefix
link_at p s = match_first before_name p s group_at

-- `finditer(content)`, the groups alone.
unfoldable pub links : String → List String
unfolding find_all link_at
links content = find_all link_at 0 none content

-- The loop: a name is added if it is not empty and new. `seen` has the names of the list.
unfoldable pub add_names : (String → String) → List String → List String → List String
unfolding strip one_of
add_names unquote [] names = names
add_names unquote (group ∷ groups) names =
    let name = strip (unquote group) in
    add_names unquote groups
      (if is_empty name || one_of names name then names else names ++ name ∷ [])

abbrev pub unless_none : List String → Result (List String)
unless_none [] =
    raise package_list_source_malformed_content_error "no package names found in source content"
unless_none (n ∷ ns) = ok (n ∷ ns)

-- `_parse_package_names`
unfoldable pub parse_package_names : (String → String) → String → Result (List String)
unfolding links add_names
parse_package_names unquote content = unless_none (add_names unquote (links content) [])

-- What the request for the list comes to.
pub data Outcome : Type 0 where
  timed_out request_failed : Outcome
  answered : ℕ → String → Outcome

-- `_fetch_content`
unfoldable pub fetch_content : Outcome → Result String
fetch_content timed_out =
    raise package_list_source_timeout_error "top package source request timed out"
fetch_content request_failed = raise package_list_source_error "top package source request failed"
fetch_content (answered status_code text) =
    if leb 400 status_code
    then raise package_list_source_error "top package source returned HTTP"
    else ok text

abbrev pub limited : Option ℕ → List String → List String
limited none names = names
limited (some limit) names = take limit names

-- `load_package_names`, for a limit that is not negative.
unfoldable pub load_package_names : (String → String) → Outcome → Option ℕ → Result (List String)
unfolding fetch_content parse_package_names
load_package_names unquote outcome limit = do
  content ← fetch_content outcome
  package_names ← parse_package_names unquote content
  ok (limited limit package_names)

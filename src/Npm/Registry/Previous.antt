-- ===== src/Npm/Registry/Previous.antt =====
-- Which version `_resolve_previous_version_name` chooses.
use npm_sentinel.Base.{
  ◌≤◌, ◌<◌, String, ◌≡◌, ◌⊎◌, inl, inr, Bool, true, false, Option, none, some, [], ◌∷◌, arith, ltb,
  leb, if◌then◌else◌, Bool-cases, All, str_eq,
}
use npm_sentinel.Core.Exceptions.{ok, >>=-eq-ok}
use npm_sentinel.Base.Dict.{Dict}
use npm_sentinel.Base.Json.{Json}
use std.Path.{subst}
use npm_sentinel.Npm.Registry.{
  unless_late, Stamp, at_or_after, after, Candidate, is_better, parse_version_publish_time,
  consider, best_of, name_of, resolve_previous_version_name,
}

ok_inj : {A : Type 0} {a b : A} → ok a ≡ ok b → a ≡ b
ok_inj e = cc e

module _ (fromisoformat : String → Option Stamp) (time_map : Dict Json) (latest : String) where
  -- The time at which a version was published.
  abbrev pub Published : String → Stamp → Type 0
  Published version stamp = parse_version_publish_time fromisoformat version time_map ≡ ok stamp

  -- The candidate is older than the latest version; without one there is nothing to say.
  abbrev Older : Stamp → Candidate → Type 0
  Older t none = Unit
  Older t (some (name, u)) =
      (str_eq name latest ≡ false) × Published name u × (u.instant < t.instant)

  abbrev pub NotLater : Stamp → Candidate → Type 0
  NotLater u none = ⊥
  NotLater u (some (name, best)) = u.instant ≤ best.instant

  -- The version is the latest one, or as late, or not later than the candidate.
  abbrev pub Beaten : Stamp → Candidate → String → Type 0
  Beaten t best name =
      (str_eq name latest ≡ true)
      ⊎ ((u : Stamp) × Published name u × ((t.instant ≤ u.instant) ⊎ NotLater u best))

  abbrev Improves : Candidate → Candidate → Type 0
  Improves b c = (u : Stamp) → NotLater u b → NotLater u c

  -- What a round has done.
  abbrev Considered : Stamp → Candidate → String → Candidate → Type 0
  Considered t best name next = Older t next × Improves best next × Beaten t next name

  Considered-same :
      (t : Stamp) (best : Candidate) (name : String) {next : Candidate}
      → Older t best
      → Beaten t best name
      → best ≡ next
      → Considered t best name next
  Considered-same t best name h beaten e =
      subst (λ (c : Candidate). Considered t best name c) e (h, (λ u k. k), beaten)

  after_lem : (a b : Stamp) {r : Bool} → after a b ≡ ok r → r ≡ ltb b.instant a.instant
  unfolding after
  after_lem a b e = ground arith

  Considered-better :
      (t : Stamp) (best : Candidate) (name : String) (u : Stamp) (better : Bool) {next : Candidate}
      → Older t best
      → (str_eq name latest ≡ false)
      → Published name u
      → u.instant < t.instant
      → is_better u best ≡ ok better
      → (if better then some (name, u) else best) ≡ next
      → Considered t best name next
  unfolding is_better
  Considered-better t none name u true h other published early found e =
      subst (λ (c : Candidate). Considered t none name c) e
        ((other, published, early), (λ v k. absurd k), inr (u, published, inr (omega arith)))
  Considered-better t none name u false h other published early found e = cc found
  Considered-better t (some (m, b)) name u true h other published early found e =
      let later = after_lem u b {r = true} found in
      subst (λ (c : Candidate). Considered t (some (m, b)) name c) e
        (
          (other, published, early),
          (λ v k. ground (arith, later, k)),
          inr (u, published, inr (omega arith)),
        )
  Considered-better t (some (m, b)) name u false h other published early found e =
      let later = after_lem u b {r = false} found in
      subst (λ (c : Candidate). Considered t (some (m, b)) name c) e
        (h, (λ v k. k), inr (u, published, inr (ground (arith, later))))

  Considered-unless_late :
      (t : Stamp) (best : Candidate) (name : String) (u : Stamp) (late : Bool) {next : Candidate}
      → Older t best
      → (str_eq name latest ≡ false)
      → Published name u
      → late ≡ leb t.instant u.instant
      → unless_late name u best late ≡ ok next
      → Considered t best name next
  unfolding unless_late
  Considered-unless_late t best name u true h other published e found =
      Considered-same t best name h (inr (u, published, inl (ground arith))) (cc found)
  Considered-unless_late t best name u false h other published e found =
      let (better, compared, chosen) = >>=-eq-ok (is_better u best) _ found in
      Considered-better t best name u better h other published (ground arith) compared (cc chosen)

  at_or_after_lem : (a b : Stamp) {r : Bool} → at_or_after a b ≡ ok r → r ≡ leb b.instant a.instant
  unfolding at_or_after
  at_or_after_lem a b e = ground arith

  Considered-consider :
      (t : Stamp) (best : Candidate) (name : String) {next : Candidate}
      → Older t best
      → consider fromisoformat time_map latest t best name ≡ ok next
      → Considered t best name next
  unfolding consider
  Considered-consider t best name h e = elim (Bool-cases (str_eq name latest)) [
    | inl same ↦ Considered-same t best name h (inl same) (ground arith)
    | inr other ↦
        let (u, published, e₁) =
          >>=-eq-ok (parse_version_publish_time fromisoformat name time_map) _
            (rw (other, consider) at e) in
        let (late, compared, e₂) = >>=-eq-ok (at_or_after u t) _ e₁ in
        Considered-unless_late t best name u late h other published (at_or_after_lem u t compared)
          e₂
  ]

  -- Every version of the list is the latest one, or as late, or not later than the candidate.
  abbrev AllBeaten : Stamp → Candidate → Dict Json → Type 0
  AllBeaten t best versions = All (λ v. Beaten t best v.0) versions

  Beaten-Improves :
      (t : Stamp) (b c : Candidate) (name : String)
      → Improves b c
      → Beaten t b name
      → Beaten t c name
  Beaten-Improves t b c name imp (inl same) = inl same
  Beaten-Improves t b c name imp (inr (u, published, inl late)) = inr (u, published, inl late)
  Beaten-Improves t b c name imp (inr (u, published, inr beaten)) =
      inr (u, published, inr (imp u beaten))

  best_of-AllBeaten :
      (t : Stamp) (best : Candidate) (versions : Dict Json) {last : Candidate}
      → Older t best
      → best_of fromisoformat time_map latest t best versions ≡ ok last
      → Older t last × Improves best last × AllBeaten t last versions
  unfolding best_of
  best_of-AllBeaten t best [] {last} h e =
      subst (λ (c : Candidate). Older t c × Improves best c × AllBeaten t c []) (ok_inj e)
        (h, (λ u k. k), tt)
  best_of-AllBeaten t best ((name, payload) ∷ versions) {last} h e =
      let (next, considered, e₁) =
        >>=-eq-ok (consider fromisoformat time_map latest t best name) _ e in
      let (older, improves, beaten) = Considered-consider t best name {next = next} h considered in
      let (oldest, further, rest) = best_of-AllBeaten t next versions {last = last} older e₁ in
      (
        oldest,
        (λ u k. further u (improves u k)),
        (Beaten-Improves t next last name further beaten, rest),
      )

  -- The choice: none, where no version but the latest is older than it; otherwise a version older than the
  -- latest, with no version between the two.
  abbrev pub Chosen : Stamp → Dict Json → Option String → Type 0
  Chosen t versions none = All (λ v. Beaten t none v.0) versions
  Chosen t versions (some name) =
      (u : Stamp) × (str_eq name latest ≡ false)
      × Published name u
      × (u.instant < t.instant)
      × All (λ v. Beaten t (some (name, u)) v.0) versions

  Chosen-name_of :
      (t : Stamp) (versions : Dict Json) (last : Candidate)
      → Older t last
      → AllBeaten t last versions
      → Chosen t versions (name_of last)
  Chosen-name_of t versions none h k = k
  Chosen-name_of t versions (some (name, u)) (other, published, early) k =
      (u, other, published, early, k)

  -- If the choice returns, the latest version has a time; and it is none, if every other version is as late as
  -- the latest one, or a version other than the latest, published before it, such that every version is the
  -- latest, or as late as it, or not later than the one chosen.
  pub resolve_previous_version_name-Chosen :
      (versions : Dict Json) {previous : Option String}
      → resolve_previous_version_name fromisoformat latest versions time_map ≡ ok previous
      → (t : Stamp) × Published latest t × Chosen t versions previous
  unfolding resolve_previous_version_name
  resolve_previous_version_name-Chosen versions {previous} e =
      let (t, published, e₁) =
        >>=-eq-ok (parse_version_publish_time fromisoformat latest time_map) _ e in
      let (last, found, e₂) =
        >>=-eq-ok (best_of fromisoformat time_map latest t none versions) _ e₁ in
      let (older, _, beaten) = best_of-AllBeaten t none versions {last = last} tt found in
      (
        t,
        published,
        subst (λ (p : Option String). Chosen t versions p) (ok_inj e₂)
            (Chosen-name_of t versions last older beaten),
      )

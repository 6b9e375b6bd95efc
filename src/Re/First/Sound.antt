-- ===== src/Re/First/Sound.antt =====
-- What is read of a match is read of a match in the sense of `Matches`.
use Prim.Native.Char.{Char, code}
use npm_sentinel.Base.{
  ℕ, zero, suc, ◌-◌, String, ◌≡◌, refl, inl, inr, Bool, true, false, not, Option, some, List, [],
  ◌∷◌, count, arith, Bool-cases, Option-cases, All,
}
use npm_sentinel.Re.{
  Pattern, char, star, seq, alt, blank, boundary, not_behind, not_ahead, before, ahead, xor_bool,
}
use npm_sentinel.Re.Meaning.{Matches, Run, stop, step, Place, here, later}
use npm_sentinel.Re.First.{only_if, star_first, match_first, find_all}

module _ {R : Type 0} where
  abbrev pub Reads : (Option ℕ → String → Option R) → (Option ℕ → String → Type 0) → R → Type 0
  Reads k P x = (q : Option ℕ) × (r : String) × P q r × (k q r ≡ some x)

  only_if-some :
      (b : Bool) (o : Option R) {x : R} → only_if b o ≡ some x → (b ≡ true) × (o ≡ some x)
  only_if-some true o h = (refl, h)
  only_if-some false o h = cc

  star_first_sound :
      (k : Option ℕ → String → Option R) (f : ℕ → Bool) (p : Option ℕ) (s : String) {x : R}
      → star_first k f p s ≡ some x
      → Reads k (Run f p s) x
  unfolding star_first
  star_first_sound k f p String.[] h = (p, "", stop, h)
  star_first_sound k f p (String.◌∷◌ c s) {x} h = elim (Bool-cases (f (code c))) [
    | inl more ↦ elim (Option-cases (star_first k f (some (code c)) s)) [
      | inl stuck ↦ (p, String.◌∷◌ c s, stop, ground arith)
      | inr (y, found) ↦
          let (q, r, run, e) = star_first_sound k f (some (code c)) s {x = x} (ground arith) in
          (q, r, step more run, e)
    ]
    | inr last ↦ (p, String.◌∷◌ c s, stop, ground arith)
  ]

  pub match_first_sound :
      (a : Pattern) (p : Option ℕ) (s : String) (k : Option ℕ → String → Option R) {x : R}
      → match_first a p s k ≡ some x
      → Reads k (Matches a p s) x
  unfolding match_first
  match_first_sound (char f) p String.[] k h = cc
  match_first_sound (char f) p (String.◌∷◌ c s) k {x} h =
      let (e, l) = only_if-some (f (code c)) (k (some (code c)) s) {x = x} h in
      (some (code c), s, (c, refl, e, refl), l)
  match_first_sound (star f) p s k {x} h = star_first_sound k f p s {x = x} h
  match_first_sound (seq a b) p s k {x} h =
      let (u, t, m, e) = match_first_sound a p s (λ q r. match_first b q r k) {x = x} h in
      let (q, r, n, l) = match_first_sound b u t k {x = x} e in (q, r, (u, t, m, n), l)
  match_first_sound (alt a b) p s k {x} h = elim (Option-cases (match_first a p s k)) [
    | inl no_left ↦
        let (q, r, m, e) = match_first_sound b p s k {x = x} (ground arith) in (q, r, inr m, e)
    | inr (y, left) ↦
        let (q, r, m, e) = match_first_sound a p s k {x = x} (ground arith) in (q, r, inl m, e)
  ]
  match_first_sound blank p s k h = (p, s, (refl, refl), h)
  match_first_sound (boundary w) p s k {x} h =
      let (e, l) = only_if-some (xor_bool (before w p) (ahead w s)) (k p s) {x = x} h in
      (p, s, (e, refl, refl), l)
  match_first_sound (not_behind f) p s k {x} h =
      let (e, l) = only_if-some (not (before f p)) (k p s) {x = x} h in
      (p, s, (ground arith, refl, refl), l)
  match_first_sound (not_ahead f) p s k {x} h =
      let (e, l) = only_if-some (not (ahead f s)) (k p s) {x = x} h in
      (p, s, (ground arith, refl, refl), l)

  -- What `finditer` finds is found at places of the text.
  abbrev pub FoundIn : (Option ℕ → String → Option (R × String)) → Option ℕ → String → R → Type 0
  FoundIn try p s x =
      (u : Option ℕ) × (t : String) × (rest : String) × Place p s u t × (try u t ≡ some (x, rest))

  All-later :
      (try : Option ℕ → String → Option (R × String)) (c : Char) (p : Option ℕ) (s : String)
      (xs : List R)
      → All (FoundIn try (some (code c)) s) xs
      → All (FoundIn try p (String.◌∷◌ c s)) xs
  All-later try c p s [] h = tt
  All-later try c p s (x ∷ xs) ((u, t, rest, place, e), hs) =
      ((u, t, rest, later place, e), All-later try c p s xs hs)

  pub find_all_sound :
      (try : Option ℕ → String → Option (R × String)) (skip : ℕ) (p : Option ℕ) (s : String)
      → All (FoundIn try p s) (find_all try skip p s)
  unfolding find_all
  find_all_sound try zero p String.[] = tt
  find_all_sound try (suc skip) p String.[] = tt
  find_all_sound try (suc skip) p (String.◌∷◌ c s) =
      All-later try c p s (find_all try skip (some (code c)) s)
        (find_all_sound try skip (some (code c)) s)
  find_all_sound try zero p (String.◌∷◌ c s) = elim (Option-cases (try p (String.◌∷◌ c s))) [
    | inl nothing ↦ rw nothing (
        All-later try c p s (find_all try 0 (some (code c)) s)
          (find_all_sound try 0 (some (code c)) s))
    | inr ((x, rest), found) ↦ rw found (
      (p, String.◌∷◌ c s, rest, here, found),
      All-later try c p s (find_all try (count (String.◌∷◌ c s) - count rest - 1) (some (code c)) s)
          (find_all_sound try (count (String.◌∷◌ c s) - count rest - 1) (some (code c)) s),
    )
  ]

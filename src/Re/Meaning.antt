-- ===== src/Re/Meaning.antt =====
-- What a pattern matches, without reference to the matcher, and that the matcher finds exactly that.
use text.Mathlib.TextLemmas.{nil≢cons, cons-eq-cons}
use Prim.Native.Char.{Char, code}
use npm_sentinel.Base.{
  ℕ, String, ◌≡◌, refl, ◌↔◌, ◌⊎◌, inl, inr, Bool, true, false, not, Option, none, some, arith,
  Bool-cases, and_true, is_empty,
}
use npm_sentinel.Re.{
  Pattern, char, star, seq, alt, blank, boundary, not_behind, not_ahead, before, ahead, xor_bool,
  star_loop, match_here, full_match, search_from, search_text,
}

-- A run of characters of the class, from one place to another.
pub data Run (f : ℕ → Bool) : Option ℕ → String → Option ℕ → String → Type 0 where
  stop : {p : Option ℕ} {s : String} → Run f p s p s
  step :
      {c : Char} {p q : Option ℕ} {s r : String}
      → f (code c) ≡ true
      → Run f (some (code c)) s q r
      → Run f p (String.◌∷◌ c s) q r

-- The pattern matches from the place `p`, `s` to the place `q`, `r`.
abbrev pub Matches : Pattern → Option ℕ → String → Option ℕ → String → Type 0
Matches (char f) p s q r =
    (c : Char) × (s ≡ String.◌∷◌ c r) × (f (code c) ≡ true) × (q ≡ some (code c))
Matches (star f) p s q r = Run f p s q r
Matches (seq a b) p s q r = (u : Option ℕ) × (t : String) × Matches a p s u t × Matches b u t q r
Matches (alt a b) p s q r = Matches a p s q r ⊎ Matches b p s q r
Matches blank p s q r = (q ≡ p) × (r ≡ s)
Matches (boundary w) p s q r = (xor_bool (before w p) (ahead w s) ≡ true) × (q ≡ p) × (r ≡ s)
Matches (not_behind f) p s q r = (before f p ≡ false) × (q ≡ p) × (r ≡ s)
Matches (not_ahead f) p s q r = (ahead f s ≡ false) × (q ≡ p) × (r ≡ s)

abbrev Ends : (Option ℕ → String → Bool) → (Option ℕ → String → Type 0) → Type 0
Ends k P = (q : Option ℕ) × (r : String) × P q r × (k q r ≡ true)

star_loop_sound :
    (k : Option ℕ → String → Bool) (f : ℕ → Bool) (p : Option ℕ) (s : String)
    → star_loop k f p s ≡ true
    → Ends k (Run f p s)
unfolding star_loop
star_loop_sound k f p String.[] h = (p, "", stop, h)
star_loop_sound k f p (String.◌∷◌ c s) h = elim (Bool-cases (f (code c))) [
  | inl more ↦ elim (Bool-cases (star_loop k f (some (code c)) s)) [
    | inl found ↦
        let (q, r, run, e) = star_loop_sound k f (some (code c)) s found in (q, r, step more run, e)
    | inr stuck ↦ (p, String.◌∷◌ c s, stop, ground (arith))
  ]
  | inr last ↦ (p, String.◌∷◌ c s, stop, ground (arith))
]

match_here_sound :
    (a : Pattern) (p : Option ℕ) (s : String) (k : Option ℕ → String → Bool)
    → match_here a p s k ≡ true
    → Ends k (Matches a p s)
unfolding match_here
match_here_sound (char f) p String.[] k h = cc
match_here_sound (char f) p (String.◌∷◌ c s) k h =
    let (e, l) = and_true _ _ h in (some (code c), s, (c, refl, e, refl), l)
match_here_sound (star f) p s k h = star_loop_sound k f p s h
match_here_sound (seq a b) p s k h =
    let (u, t, m, e) = match_here_sound a p s (λ q r. match_here b q r k) h in
    let (q, r, n, l) = match_here_sound b u t k e in (q, r, (u, t, m, n), l)
match_here_sound (alt a b) p s k h = elim (Bool-cases (match_here a p s k)) [
  | inl left ↦ let (q, r, m, e) = match_here_sound a p s k left in (q, r, inl m, e)
  | inr no_left ↦ let (q, r, m, e) = match_here_sound b p s k (ground arith) in (q, r, inr m, e)
]
match_here_sound blank p s k h = (p, s, (refl, refl), h)
match_here_sound (boundary w) p s k h = let (e, l) = and_true _ _ h in (p, s, (e, refl, refl), l)
match_here_sound (not_behind f) p s k h =
    let (e, l) = and_true (not (before f p)) (k p s) h in (p, s, (ground arith, refl, refl), l)
match_here_sound (not_ahead f) p s k h =
    let (e, l) = and_true (not (ahead f s)) (k p s) h in (p, s, (ground arith, refl, refl), l)

star_loop_complete :
    (k : Option ℕ → String → Bool) {f : ℕ → Bool} {p q : Option ℕ} {s r : String}
    → Run f p s q r
    → k q r ≡ true
    → star_loop k f p s ≡ true
unfolding star_loop
star_loop_complete k {s = String.[]} stop h = h
star_loop_complete k {s = String.◌∷◌ c s} stop h = ground arith
star_loop_complete k (step m run) h = let rest = star_loop_complete k run h in ground arith

match_here_complete :
    (a : Pattern) (p : Option ℕ) (s : String) (k : Option ℕ → String → Bool)
    → Ends k (Matches a p s)
    → match_here a p s k ≡ true
unfolding match_here
match_here_complete (char f) p String.[] k (q, r, (c, e, m, l), h) = absurd (nil≢cons e)
match_here_complete (char f) p (String.◌∷◌ d s) k (q, r, (c, e, m, l), h) =
    let (same, rest) = cons-eq-cons.0 e in rw (same, rest, m, ← l) h
match_here_complete (star f) p s k (q, r, run, h) = star_loop_complete k run h
match_here_complete (seq a b) p s k (q, r, (u, t, m, n), h) =
    match_here_complete a p s (λ u t. match_here b u t k)
      (u, t, m, match_here_complete b u t k (q, r, n, h))
match_here_complete (alt a b) p s k (q, r, inl m, h) =
    rw (match_here_complete a p s k (q, r, m, h)) refl
match_here_complete (alt a b) p s k (q, r, inr m, h) =
    rw (match_here_complete b p s k (q, r, m, h)) (ground arith)
match_here_complete blank p s k (q, r, (e, l), h) = cc
match_here_complete (boundary w) p s k (q, r, (m, e, l), h) = ground arith
match_here_complete (not_behind f) p s k (q, r, (m, e, l), h) = ground arith
match_here_complete (not_ahead f) p s k (q, r, (m, e, l), h) = ground arith

is_empty-nil : (r : String) → is_empty r ≡ true → r ≡ ""
is_empty-nil String.[] h = refl
is_empty-nil (String.◌∷◌ c r) h = cc

-- `fullmatch` accepts exactly the texts that the pattern matches from their start to their end.
pub full_match_iff :
    (a : Pattern) (s : String) → (full_match a s ≡ true) ↔ ((q : Option ℕ) × Matches a none s q "")
unfolding full_match
full_match_iff a s = (
  λ h.
      let (q, r, m, e) = match_here_sound a none s (λ q r. is_empty r) h in
      (q, rw (is_empty-nil r e) at m),
  λ (q, m). match_here_complete a none s (λ q r. is_empty r) (q, "", m, refl),
)

-- `q`, `r` is a place of the text that is read on from `p`, `s`.
pub data Place : Option ℕ → String → Option ℕ → String → Type 0 where
  here : {p : Option ℕ} {s : String} → Place p s p s
  later :
      {c : Char} {p q : Option ℕ} {s r : String}
      → Place (some (code c)) s q r
      → Place p (String.◌∷◌ c s) q r

-- The pattern matches at some place of the text.
abbrev pub Occurs : Pattern → Option ℕ → String → Type 0
Occurs a p s =
    (u : Option ℕ) × (t : String) × Place p s u t
    × (q : Option ℕ) × (r : String) × Matches a u t q r

search_from_sound :
    (a : Pattern) (p : Option ℕ) (s : String) → search_from a p s ≡ true → Occurs a p s
unfolding search_from
search_from_sound a p String.[] h =
    let (q, r, m, _) = match_here_sound a p "" (λ q r. true) h in (p, "", here, q, r, m)
search_from_sound a p (String.◌∷◌ c s) h =
    elim (Bool-cases (match_here a p (String.◌∷◌ c s) (λ q r. true))) [
      | inl now ↦
          let (q, r, m, _) = match_here_sound a p (String.◌∷◌ c s) (λ q r. true) now in
          (p, String.◌∷◌ c s, here, q, r, m)
      | inr not_now ↦
          let (u, t, place, q, r, m) = search_from_sound a (some (code c)) s (ground arith) in
          (u, t, later place, q, r, m)
    ]

search_from_complete :
    (a : Pattern) {p u : Option ℕ} {s t : String} (q : Option ℕ) (r : String)
    → Place p s u t
    → Matches a u t q r
    → search_from a p s ≡ true
unfolding search_from
search_from_complete a {p} {s = String.[]} q r here m =
    match_here_complete a p "" (λ q r. true) (q, r, m, refl)
search_from_complete a {p} {s = String.◌∷◌ c s} q r here m =
    rw (match_here_complete a p (String.◌∷◌ c s) (λ q r. true) (q, r, m, refl))
search_from_complete a q r (later place) m =
    let found = search_from_complete a q r place m in ground arith

-- `search` finds a pattern exactly where it matches at some place of the text.
pub search_text_iff : (a : Pattern) (s : String) → (search_text a s ≡ true) ↔ Occurs a none s
unfolding search_text
search_text_iff a s =
    (search_from_sound a none s, λ (u, t, place, q, r, m). search_from_complete a q r place m)

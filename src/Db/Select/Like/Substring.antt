-- ===== src/Db/Select/Like/Substring.antt =====
-- A pattern `%…%` around a text without wild cards finds the texts that contain it.
use text.Mathlib.TextLemmas.{nil-append, cons-append}
use text.Mathlib.TextEquality.{Char-path}
use Prim.Native.Char.{Char, code}
use npm_sentinel.Base.{
  String, ◌≡◌, refl, sym, ap, ◌∙◌, ◌↔◌, inl, inr, Bool, true, false, ◌&&◌, ◌||◌, arith, ◌==◌,
  Bool-cases, and_true, is_empty, lower, append,
}
use npm_sentinel.Db.Select.Like.{any_rest, like_from, ilike}

-- No character of the text is a wild card or the escape.
abbrev pub IsPlain : String → Type 0
IsPlain String.[] = Unit
IsPlain (String.◌∷◌ c s) =
    (code c == b'%' ≡ false) × (code c == b'_' ≡ false) × (code c == b'\\' ≡ false) × IsPlain s

-- The text is the other with texts around it.
abbrev pub Contains : String → String → Type 0
Contains t s = (a : String) × (b : String) × (t ≡ append a (append s b))

any_rest_sound :
    (k : String → Bool) (t : String)
    → any_rest k t ≡ true
    → (a : String) × (r : String) × (t ≡ append a r) × (k r ≡ true)
unfolding any_rest
any_rest_sound k String.[] h = ("", "", refl, h)
any_rest_sound k (String.◌∷◌ c t) h = elim (Bool-cases (k (String.◌∷◌ c t))) [
  | inl hit ↦ ("", String.◌∷◌ c t, sym (nil-append (String.◌∷◌ c t)), hit)
  | inr miss ↦
      let (a, r, e, l) = any_rest_sound k t (ground arith) in
      (String.◌∷◌ c a, r, ap (String.◌∷◌ c) e ∙ sym (cons-append c a r), l)
]

any_rest_here : (k : String → Bool) (r : String) → k r ≡ true → any_rest k r ≡ true
unfolding any_rest
any_rest_here k String.[] h = h
any_rest_here k (String.◌∷◌ c r) h = rw h refl

or_true : (b : Bool) → (b || true) ≡ true
or_true true = refl
or_true false = refl

any_rest_complete : (k : String → Bool) (a r : String) → k r ≡ true → any_rest k (append a r) ≡ true
unfolding any_rest
any_rest_complete k String.[] r h = rw (nil-append r) (any_rest_here k r h)
any_rest_complete k (String.◌∷◌ c a) r h =
    rw (cons-append c a r, any_rest_complete k a r h) (or_true _)

anything : (t : String) → any_rest is_empty t ≡ true
unfolding any_rest
anything String.[] = refl
anything (String.◌∷◌ c t) = anything t

step_plain :
    (c d : Char) (q t : String)
    → code c == b'%' ≡ false
    → code c == b'_' ≡ false
    → code c == b'\\' ≡ false
    → (code d == code c && like_from false (append q "%") t)
      ≡ like_from false (append (String.◌∷◌ c q) "%") (String.◌∷◌ d t)
unfolding like_from
step_plain c d q t h₁ h₂ h₃ = rw (cons-append c q "%", like_from, h₁, h₂, h₃) refl

empty_plain :
    (c : Char) (q : String)
    → code c == b'%' ≡ false
    → code c == b'_' ≡ false
    → code c == b'\\' ≡ false
    → like_from false (append (String.◌∷◌ c q) "%") "" ≡ false
unfolding like_from
empty_plain c q h₁ h₂ h₃ = rw (cons-append c q "%", like_from, h₁, h₂, h₃) refl

anything_like : (t : String) → like_from false "%" t ≡ true
unfolding like_from
anything_like t = anything t

cons_congr : {c d : Char} {s t : String} → c ≡ d → s ≡ t → String.◌∷◌ c s ≡ String.◌∷◌ d t
cons_congr e f = cc (e, f)

plain_sound :
    (q t : String)
    → IsPlain q
    → like_from false (append q "%") t ≡ true
    → (b : String) × (t ≡ append q b)
unfolding like_from
plain_sound String.[] t h l = (t, sym (nil-append t))
plain_sound (String.◌∷◌ c q) String.[] (h₁, h₂, h₃, h) l = cc (empty_plain c q h₁ h₂ h₃, l)
plain_sound (String.◌∷◌ c q) (String.◌∷◌ d t) (h₁, h₂, h₃, h) l =
    let m : (code d == code c && like_from false (append q "%") t) ≡ true =
      step_plain c d q t h₁ h₂ h₃ ∙ l in
    let (same, rest) = and_true (code d == code c) (like_from false (append q "%") t) m in
    let (b, e) = plain_sound q t h rest in
    let head : d ≡ c = Char-path d c (ground arith) in
    (b, cons_congr head e ∙ sym (cons-append c q b))

plain_complete : (q b : String) → IsPlain q → like_from false (append q "%") (append q b) ≡ true
plain_complete String.[] b h = rw (nil-append b) (anything_like b)
plain_complete (String.◌∷◌ c q) b (h₁, h₂, h₃, h) =
    rw (cons-append c q b, ← step_plain c c q (append q b) h₁ h₂ h₃, plain_complete q b h)
      (ground arith)

percent_first : (p t : String) → like_from false (append "%" p) t ≡ any_rest (like_from false p) t
unfolding like_from
percent_first p t =
    let e : append "%" p ≡ String.◌∷◌ "%" p =
      cons-append "%" "" p ∙ ap (String.◌∷◌ "%") (nil-append p) in
    ap (λ (x : String). like_from false x t) e

lower-append : (s t : String) → lower (append s t) ≡ append (lower s) (lower t)
unfolding lower
lower-append String.[] t = rw (nil-append t, nil-append (lower t)) refl
lower-append (String.◌∷◌ c s) t =
    rw (cons-append c s t, cons-append _ (lower s) (lower t), lower-append s t) refl

ilike-around :
    (text q : String)
    → ilike text (append "%" (append q "%"))
      ≡ any_rest (like_from false (append (lower q) "%")) (lower text)
unfolding ilike
ilike-around text q =
    rw (lower-append "%" (append q "%"), lower-append q "%")
      (percent_first (append (lower q) "%") (lower text))

-- If the text that is looked for has, in lower case, no wild card and no escape, then the texts that are like
-- the filter's pattern are those that contain it, where upper and lower case do not differ.
pub ilike_iff :
    (text q : String)
    → IsPlain (lower q)
    → (ilike text (append "%" (append q "%")) ≡ true) ↔ Contains (lower text) (lower q)
ilike_iff text q h = (
  λ l.
      let (a, r, e, m) =
        any_rest_sound (like_from false (append (lower q) "%")) (lower text)
          (sym (ilike-around text q) ∙ l) in
      let (b, d) = plain_sound (lower q) r h m in (a, b, e ∙ ap (append a) d),
  λ (a, b, e).
      ilike-around text q
      ∙ rw e (
          any_rest_complete (like_from false (append (lower q) "%")) a (append (lower q) b)
            (plain_complete (lower q) b h)),
)

-- ===== src/PackageList/Distinct.antt =====
-- The loop of `_parse_package_names`: the names that it adds are different, and none is left out.

use npm_sentinel.Base.{
  ℕ, zero, suc, String, ◌≡◌, refl, ◌∙◌, ◌⊎◌, inl, inr, true, false, ◌||◌, List, [], ◌∷◌, ◌++◌,
  arith, Bool-cases, if◌then◌else◌, strip, is_empty, one_of, str_eq, str_eq_iff, str_eq_refl, take,
  All, All-append, or_false,
}
use npm_sentinel.PackageList.{add_names}

-- No name stands twice.
abbrev pub Distinct : List String → Type 0
Distinct [] = Unit
Distinct (n ∷ ns) = (one_of ns n ≡ false) × Distinct ns

one_of-snoc :
    (ns : List String) (n x : String) → one_of (ns ++ n ∷ []) x ≡ (one_of ns x || str_eq n x)
unfolding one_of
one_of-snoc [] n x = ground arith
one_of-snoc (m ∷ ns) n x = ground (arith, one_of-snoc ns n x)

str_eq_comm : (a b : String) → str_eq a b ≡ false → str_eq b a ≡ false
str_eq_comm a b h = ground (arith, str_eq_iff a b, str_eq_iff b a)

Distinct-snoc :
    (ns : List String) (n : String) → Distinct ns → one_of ns n ≡ false → Distinct (ns ++ n ∷ [])
unfolding one_of
Distinct-snoc [] n d h = (refl, tt)
Distinct-snoc (m ∷ ns) n (fresh, d) h =
    let (other, rest) = or_false (str_eq m n) (one_of ns n) h in
    (one_of-snoc ns n m ∙ rw (fresh, str_eq_comm m n other) refl, Distinct-snoc ns n d rest)

one_of-take :
    (k : ℕ) (ns : List String) (x : String) → one_of ns x ≡ false → one_of (take k ns) x ≡ false
unfolding one_of
one_of-take zero ns x h = refl
one_of-take (suc k) [] x h = refl
one_of-take (suc k) (n ∷ ns) x h = ground (arith, one_of-take k ns x)

pub Distinct-take : (k : ℕ) (ns : List String) → Distinct ns → Distinct (take k ns)
Distinct-take zero ns d = tt
Distinct-take (suc k) [] d = tt
Distinct-take (suc k) (n ∷ ns) (fresh, d) = (one_of-take k ns n fresh, Distinct-take k ns d)

pub All-take : (P : String → Type 0) (k : ℕ) (ns : List String) → All P ns → All P (take k ns)
All-take P zero ns h = tt
All-take P (suc k) [] h = tt
All-take P (suc k) (n ∷ ns) (h, hs) = (h, All-take P k ns hs)

module _ (unquote : String → String) where
  abbrev pub decoded_name : String → String
  decoded_name group = strip (unquote group)

  abbrev added : String → List String → List String
  added name names = if is_empty name || one_of names name then names else names ++ name ∷ []

  added-Distinct :
      (name : String) (names : List String) → Distinct names → Distinct (added name names)
  added-Distinct name names d = elim (Bool-cases (is_empty name || one_of names name)) [
    | inl skip ↦ rw skip d
    | inr new ↦
        rw new (Distinct-snoc names name d (or_false (is_empty name) (one_of names name) new).1)
  ]

  pub Distinct-add_names :
      (groups names : List String) → Distinct names → Distinct (add_names unquote groups names)
  unfolding add_names
  Distinct-add_names [] names d = d
  Distinct-add_names (g ∷ gs) names d =
      Distinct-add_names gs (added (decoded_name g) names) (added-Distinct (decoded_name g) names d)

  All-added :
      (P : String → Type 0) (name : String) (names : List String)
      → (is_empty name ≡ false → P name)
      → All P names
      → All P (added name names)
  All-added P name names h k = elim (Bool-cases (is_empty name || one_of names name)) [
    | inl skip ↦ rw skip k
    | inr new ↦ rw new (
        All-append P names (name ∷ []) k
          (h (or_false (is_empty name) (one_of names name) new).0, tt))
  ]

  pub All-add_names :
      (P : String → Type 0) (groups names : List String)
      → All (λ g. is_empty (decoded_name g) ≡ false → P (decoded_name g)) groups
      → All P names
      → All P (add_names unquote groups names)
  unfolding add_names
  All-add_names P [] names h k = k
  All-add_names P (g ∷ gs) names (h, hs) k =
      let after : All P (added (decoded_name g) names) = All-added P (decoded_name g) names h k in
      All-add_names P gs (added (decoded_name g) names) hs after

  one_of-added :
      (x name : String) (names : List String)
      → one_of names x ≡ true
      → one_of (added name names) x ≡ true
  one_of-added x name names h = elim (Bool-cases (is_empty name || one_of names name)) [
    | inl skip ↦ rw skip h
    | inr new ↦ rw new (one_of-snoc names name x ∙ rw h refl)
  ]

  one_of-add_names :
      (x : String) (groups names : List String)
      → one_of names x ≡ true
      → one_of (add_names unquote groups names) x ≡ true
  unfolding add_names
  one_of-add_names x [] names h = h
  one_of-add_names x (g ∷ gs) names h =
      one_of-add_names x gs (added (decoded_name g) names) (one_of-added x (decoded_name g) names h)

  -- The name is empty, or stands in the list.
  abbrev pub Listed : List String → String → Type 0
  Listed names group =
      (is_empty (decoded_name group) ≡ true) ⊎ (one_of names (decoded_name group) ≡ true)

  added-Listed :
      (name : String) (names : List String)
      → (is_empty name ≡ true) ⊎ (one_of (added name names) name ≡ true)
  added-Listed name names = elim (Bool-cases (is_empty name)) [
    | inl nothing ↦ inl nothing
    | inr something ↦ elim (Bool-cases (one_of names name)) [
      | inl old ↦ inr (one_of-added name name names old)
      | inr new ↦
          inr (rw (something, new) (one_of-snoc names name name ∙ rw (new, str_eq_refl name) refl))
    ]
  ]

  Listed-on :
      (g : String) (groups names : List String)
      → (is_empty (decoded_name g) ≡ true) ⊎ (one_of names (decoded_name g) ≡ true)
      → Listed (add_names unquote groups names) g
  Listed-on g groups names (inl nothing) = inl nothing
  Listed-on g groups names (inr there) = inr (one_of-add_names (decoded_name g) groups names there)

  pub Listed-add_names :
      (groups names : List String) → All (Listed (add_names unquote groups names)) groups
  unfolding add_names
  Listed-add_names [] names = tt
  Listed-add_names (g ∷ gs) names = (
    Listed-on g gs (added (decoded_name g) names) (added-Listed (decoded_name g) names),
    Listed-add_names gs (added (decoded_name g) names),
  )

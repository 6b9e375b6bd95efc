-- ===== src/Scanner/Commands/Evidence.antt =====
-- Which evidence of a command execution is reported.
use npm_sentinel.Base.{String, ◌≡◌, ◌⊎◌, none, List, [], ◌∷◌}
use npm_sentinel.Re.{Pattern}
use npm_sentinel.Re.Meaning.{Occurs}

-- The evidence `e` stands in the list with a pattern that occurs in the text, and no pattern in front
-- of it occurs there.
abbrev pub IsFirst : List (String × Pattern) → String → String → Type 0
IsFirst [] text e = ⊥
IsFirst ((evidence, pattern) ∷ more) text e =
    (Occurs pattern none text × (evidence ≡ e))
    ⊎ ((¬ Occurs pattern none text) × IsFirst more text e)

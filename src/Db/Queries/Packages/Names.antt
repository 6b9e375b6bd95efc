-- ===== src/Db/Queries/Packages/Names.antt =====
-- The filter of list_packages on a part of the name.
use text.Mathlib.TextLemmas.{nil-append}
use npm_sentinel.Base.{String, ◌≡◌, refl, sym, ◌∙◌, ◌↔◌, true, Option, some, lower, append}
use npm_sentinel.Db.Models.{PackageModel}
use npm_sentinel.Db.Select.Like.Substring.{IsPlain, Contains, ilike_iff}
use npm_sentinel.Db.Queries.Packages.{has_name_like}

-- If the text that is asked for has, in lower case, no wild card and no escape, then a package passes the filter exactly
-- if its name contains the text, where upper and lower case do not differ; the empty text is no filter.
pub has_name_like_iff :
    (risk_level : Option String) (text : String) (p : PackageModel)
    → IsPlain (lower text)
    → (has_name_like (record { risk_level = risk_level; name_query = some text }) p ≡ true)
      ↔ Contains (lower p.name) (lower text)
unfolding lower
has_name_like_iff risk_level String.[] p plain = (
  λ h. ("", lower p.name, sym (nil-append (append "" (lower p.name)) ∙ nil-append (lower p.name))),
  λ c. refl,
)
has_name_like_iff risk_level (String.◌∷◌ c s) p plain = ilike_iff p.name (String.◌∷◌ c s) plain

-- ===== src/Base/Json.antt =====
-- The values that `json.loads` returns, and a Python dict of them.
use npm_sentinel.Base.Int.{ℤ}
use npm_sentinel.Base.Dict.{Dict}
use Prim.Native.String.{String}
use mathlib.Core.Bool.{Bool}
use mathlib.Core.Option.{Option, none, some}
use mathlib.Core.List.{[], ◌∷◌}

mutual
  pub data Json : Type 0 where
    null : Json
    bool : Bool → Json
    int : ℤ → Json
    float : String → Json
    str : String → Json
    arr : Items → Json
    obj : Fields → Json

  pub data Items : Type 0 where
    nil : Items
    cons : Json → Items → Items

  pub data Fields : Type 0 where
    end : Fields
    field : String → Json → Fields → Fields

unfoldable pub to_dict : Fields → Dict Json
to_dict end = []
to_dict (field k v fs) = (k, v) ∷ to_dict fs

-- `value if isinstance(value, dict)`
unfoldable pub as_dict : Json → Option (Dict Json)
unfolding to_dict
as_dict (obj fs) = some (to_dict fs)
as_dict _ = none

-- `value if isinstance(value, str)`
unfoldable pub as_str : Json → Option String
as_str (str s) = some s
as_str _ = none

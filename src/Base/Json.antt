-- ===== src/Base/Json.antt =====
-- JSON values, as `json.loads` gives them. A number is counted in thousandths; the keys of a mapping
-- are distinct.
use mathlib.Core.Bool.{Bool}
use mathlib.Core.Option.{Option, none, some}
use cyber_tracker_ai.Base.Tests.{◌==◌, if◌then◌else◌}
use cyber_tracker_ai.Base.Int.{ℤ}
use cyber_tracker_ai.Base.Text.{Text, text_eq}

mutual
  pub data Json : Type 0 where
    null : Json
    bool : Bool → Json
    number : ℤ → Json
    text : Text → Json
    list : Items → Json
    mapping : Fields → Json

  pub data Items : Type 0 where
    nil : Items
    cons : Json → Items → Items

  pub data Fields : Type 0 where
    end : Fields
    field : Text → Json → Fields → Fields

-- `j.get(key)`.
unfoldable pub get_field : Text → Fields → Option Json
get_field key end = none
get_field key (field k j fs) = let rest = get_field key fs in if k == key then some j else rest

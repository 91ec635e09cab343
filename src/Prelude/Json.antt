-- ===== src/Prelude/Json.antt =====
-- Values that JSON.parse makes of a text.
use mathlib.Core.Bool.{Bool, true, false, not}
use mathlib.Core.Option.{Option, none, some}
use mathlib.Core.List.{[], ◌∷◌}
use tokligence_gateway.Prelude.Tests.{if◌then◌else◌}
use tokligence_gateway.Prelude.Strings.{Text, text_eq}

-- A number is read only for being zero. Objects are fields in order.
mutual
  pub data Json : Type 0 where
    null : Json
    bool : Bool → Json
    number : Bool → Json
    text : Text → Json
    array : Items → Json
    object : Fields → Json

  pub data Items : Type 0 where
    nil : Items
    cons : Json → Items → Items

  pub data Fields : Type 0 where
    end : Fields
    field : Text → Json → Fields → Fields

unfoldable pub field_of : Fields → Text → Option Json
field_of end name = none
field_of (field k v fs) name = if text_eq k name then some v else field_of fs name

-- `v?.name`: `none` stands for undefined. Only objects have a field that is asked for.
unfoldable pub get : Json → Text → Option Json
get (object fs) name = field_of fs name
get _ name = none

unfoldable pub is_truthy : Option Json → Bool
is_truthy none = false
is_truthy (some null) = false
is_truthy (some (bool b)) = b
is_truthy (some (number is_zero)) = not is_zero
is_truthy (some (text [])) = false
is_truthy (some v) = true

abbrev pub is_object : Json → Bool
is_object (object fs) = true
is_object _ = false

abbrev pub is_bool : Json → Bool
is_bool (bool b) = true
is_bool _ = false

-- `typeof v === "string"`
abbrev pub is_string : Option Json → Bool
is_string (some (text t)) = true
is_string _ = false

-- A string that is not empty
abbrev pub is_named : Option Json → Bool
is_named (some (text (c ∷ t))) = true
is_named _ = false

-- `v === word`
unfoldable pub is_word : Text → Option Json → Bool
is_word word (some (text t)) = text_eq t word
is_word word _ = false

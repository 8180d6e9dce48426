-- ===== src/Common/Json.antt =====
-- Values of JSON, and of `unknown` where the source looks into one.
use Prim.Native.String.{String}
use mathlib.Core.Bool.{Bool}
use mathlib.Core.Option.{Option, none, some}
use mathlib.Core.List.{List, [], ◌∷◌}
use text.Mathlib.Text.{◌==◌}
use zhiyuche.Common.Tests.{if◌then◌else◌}

mutual
  pub data Json (N : Type 0) : Type 0 where
    null : Json N
    bool : Bool → Json N
    num : N → Json N
    str : String → Json N
    arr : Items N → Json N
    obj : Fields N → Json N

  pub data Items (N : Type 0) : Type 0 where
    nil : Items N
    cons : Json N → Items N → Items N

  pub data Fields (N : Type 0) : Type 0 where
    end : Fields N
    field : String → Json N → Fields N → Fields N

-- The value of a key of an object, `none` for `undefined`; a parsed object has each key once.
unfoldable pub member : {N : Type 0} → String → Fields N → Option (Json N)
member k end = none
member k (field j v fs) = let rest = member k fs in if j == k then some v else rest

-- `typeof v === 'number'` and the like, with the value.
abbrev pub as_num : {N : Type 0} → Option (Json N) → Option N
as_num (some (num n)) = some n
as_num _ = none

abbrev pub as_str : {N : Type 0} → Option (Json N) → Option String
as_str (some (str s)) = some s
as_str _ = none

abbrev pub as_obj : {N : Type 0} → Option (Json N) → Option (Fields N)
as_obj (some (obj fs)) = some fs
as_obj _ = none

abbrev pub as_bool : {N : Type 0} → Option (Json N) → Option Bool
as_bool (some (bool b)) = some b
as_bool _ = none

abbrev pub items_of : {N : Type 0} → Items N → List (Json N)
items_of nil = []
items_of (cons v vs) = v ∷ items_of vs

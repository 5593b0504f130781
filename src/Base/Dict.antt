-- ===== src/Base/Dict.antt =====
-- JavaScript objects used as maps: properties in the order in which they were first assigned.
-- `__proto__` is no property: an assignment to it changes no other. Names that every object inherits
-- are found by `in`. Keys that are array indices (texts of digits) are kept in order of assignment.

use mathlib.Core.Bool.{Bool, ◌||◌}
use mathlib.Core.Option.{Option, none, some}
use mathlib.Core.List.{List, [], ◌∷◌}
use frp_manager.Base.Tests.{if◌then◌else◌, is_some}
use frp_manager.Base.Lists.{some_of}
use frp_manager.Base.Strings.{Text, codes, same}

abbrev pub Dict {ℓ} : Type ℓ → Type ℓ
Dict V = List (Text × V)

module _ {ℓ} {V : Type ℓ} where
  -- `object[key]`, `none` for undefined
  unfoldable pub lookup : Text → Dict V → Option V
  lookup k [] = none
  lookup k ((j, v) ∷ d) = if same j k then some v else lookup k d

  unfoldable pub store : Text → V → Dict V → Dict V
  store k v [] = (k, v) ∷ []
  store k v ((j, w) ∷ d) = if same j k then (j, v) ∷ d else (j, w) ∷ store k v d

  -- `object[key] = value`
  unfoldable pub assign : Text → V → Dict V → Dict V
  unfolding store
  assign k v d = if same k (codes "__proto__") then d else store k v d

abbrev inherited : List Text
inherited =
    codes "constructor"
    ∷ codes "__defineGetter__"
    ∷ codes "__defineSetter__"
    ∷ codes "hasOwnProperty"
    ∷ codes "__lookupGetter__"
    ∷ codes "__lookupSetter__"
    ∷ codes "isPrototypeOf"
    ∷ codes "propertyIsEnumerable"
    ∷ codes "toString"
    ∷ codes "valueOf"
    ∷ codes "__proto__"
    ∷ codes "toLocaleString"
    ∷ []

unfoldable pub is_inherited : Text → Bool
unfolding same
is_inherited k = some_of (λ name. same name k) inherited

-- `key in object`
unfoldable pub has {ℓ} : {V : Type ℓ} → Text → Dict V → Bool
unfolding is_inherited lookup
has k d = is_inherited k || is_some (lookup k d)

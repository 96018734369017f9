-- ===== src/Base/Json.antt =====
-- JSON values as the source reads them from `unknown`: the tests of `typeof`, and field access.
-- A number is a natural number, a negative integer, or another one, which only its text tells.
use Prim.Native.Nat.{ℕ}
use Prim.Native.String.{String}
use mathlib.Core.Path.{◌≡◌, refl, ap}
use mathlib.Core.Bool.{Bool}
use mathlib.Core.List.{List, [], ◌∷◌}
use mathlib.Core.Option.{Option, none, some}
use wireguard_ops_cockpit.Base.Tests.{if◌then◌else◌}
use wireguard_ops_cockpit.Base.Equality.{◌==◌, string_eq}

mutual
  pub data Json : Type 0 where
    null : Json
    bool : Bool → Json
    num : ℕ → Json
    -- -(n + 1)
    negative : ℕ → Json
    fraction : String → Json
    str : String → Json
    arr : Items → Json
    obj : Fields → Json

  pub data Items : Type 0 where
    nil : Items
    cons : Json → Items → Items

  pub data Fields : Type 0 where
    end : Fields
    field : String → Json → Fields → Fields

-- The elements of an array.
abbrev pub to_list : Items → List Json
to_list nil = []
to_list (cons v vs) = v ∷ to_list vs

abbrev pub of_list : List Json → Items
of_list [] = nil
of_list (v ∷ vs) = cons v (of_list vs)

pub to_list-of_list : (vs : List Json) → to_list (of_list vs) ≡ vs
to_list-of_list [] = refl
to_list-of_list (v ∷ vs) = ap (◌∷◌ v) (to_list-of_list vs)

-- `value.name`, `none` for `undefined`
abbrev pub lookup : String → Fields → Option Json
lookup name end = none
lookup name (field n v fs) = if n == name then some v else lookup name fs

-- `typeof value === "string"`
abbrev pub as_string : Option Json → Option String
as_string (some (str s)) = some s
as_string _ = none

-- `value && typeof value === "object"`: an array passes, and has no named field.
abbrev pub as_object : Json → Option Fields
as_object (obj fs) = some fs
as_object (arr vs) = some end
as_object _ = none

-- `Array.isArray(value)`
abbrev pub as_array : Option Json → Option (List Json)
as_array (some (arr vs)) = some (to_list vs)
as_array _ = none

-- An object literal.
abbrev pub fields : List (String × Json) → Fields
fields [] = end
fields ((name, v) ∷ fs) = field name v (fields fs)

-- `object.name = v`: in its place, or at the end.
unfoldable pub set_field : String → Json → Fields → Fields
set_field name v end = field name v end
set_field name v (field n x fs) =
    let rest = set_field name v fs in if n == name then field n v fs else field n x rest

-- `{ ...old, ...new }`
unfoldable pub spread : Fields → Fields → Fields
unfolding set_field
spread old end = old
spread old (field name v fs) = spread (set_field name v old) fs

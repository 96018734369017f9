-- ===== src/Base/Spreading.antt =====
-- A field of an object that was written over.
use mathlib.Core.Path.{◌≡◌}
use mathlib.Core.Logic.{◌≢◌}
use mathlib.Core.Option.{some}
use Prim.Native.String.{String}
use native.Mathlib.Omega.{arith}
use text.Mathlib.TextEquality.{eq_iff}
use wireguard_ops_cockpit.Base.Equality.{string_eq}
use wireguard_ops_cockpit.Base.Json.{Json, Fields, field, end, lookup, set_field}

pub lookup-set_field_self :
    (name : String) (v : Json) (fs : Fields) → lookup name (set_field name v fs) ≡ some v
unfolding set_field
lookup-set_field_self name v end = ground (arith, eq_iff name name)
lookup-set_field_self name v (field n x fs) =
    ground (arith, eq_iff name name, eq_iff n name, lookup-set_field_self name v fs)

pub lookup-set_field_ne :
    (name other : String) (v : Json) (fs : Fields)
    → other ≢ name
    → lookup other (set_field name v fs) ≡ lookup other fs
unfolding set_field
lookup-set_field_ne name other v end h = ground (arith, eq_iff name other)
lookup-set_field_ne name other v (field n x fs) h =
    ground (
      arith,
      eq_iff name other,
      eq_iff n name,
      eq_iff n other,
      lookup-set_field_ne name other v fs h,
    )

-- ===== src/Base/Equality.antt =====
-- `===` on the types that the source compares.
use Prim.Native.Nat.{ℕ}
use Prim.Native.String.{String}
use mathlib.Core.Path.{◌≡◌, refl}
use mathlib.Core.Logic.{◌↔◌}
use mathlib.Core.Bool.{Bool, true, false, not, ◌&&◌}
use mathlib.Core.Option.{Option, none, some}
use mathlib.Core.List.{List, [], ◌∷◌}
use native.Mathlib.Omega.{arith}
use text.Mathlib.Text.{◌==◌ as str_eq}
use text.Mathlib.TextEquality.{eq_iff}
use wireguard_ops_cockpit.Base.Tests.{nat_beq, nat_beq_iff}

pub record Comparable {ℓ} (A : Type ℓ) : Type ℓ where
  pub equals : A → A → Bool
  pub equals_iff : (a b : A) → (equals a b ≡ true) ↔ (a ≡ b)

infix 50 ◌==◌ ◌!=◌
abbrev pub ◌==◌ {ℓ} : {A : Type ℓ} ⦃test : Comparable A⦄ → A → A → Bool
◌==◌ ⦃test⦄ = test.equals

abbrev pub ◌!=◌ {ℓ} : {A : Type ℓ} ⦃test : Comparable A⦄ → A → A → Bool
a != b = not (a == b)

instance abbrev pub nat_eq : Comparable ℕ
nat_eq = record { equals = nat_beq; equals_iff = nat_beq_iff }

instance abbrev pub string_eq : Comparable String
string_eq = record { equals = str_eq; equals_iff = eq_iff }

-- `null` is `none`, and equals only itself.
module _ {ℓ} {A : Type ℓ} ⦃test : Comparable A⦄ where
  abbrev pub option_beq : Option A → Option A → Bool
  option_beq none none = true
  option_beq (some a) (some b) = test.equals a b
  option_beq _ _ = false

  pub option_beq_iff : (a b : Option A) → (option_beq a b ≡ true) ↔ (a ≡ b)
  option_beq_iff none none = (λ h. refl, λ h. refl)
  option_beq_iff (some a) (some b) = ground (arith, test.equals_iff a b)
  option_beq_iff _ _ = ground arith

  instance abbrev pub option_eq : Comparable (Option A)
  option_eq = record { equals = option_beq; equals_iff = option_beq_iff }

  abbrev pub list_beq : List A → List A → Bool
  list_beq [] [] = true
  list_beq (a ∷ xs) (b ∷ ys) = test.equals a b && list_beq xs ys
  list_beq _ _ = false

  pub list_beq_iff : (xs ys : List A) → (list_beq xs ys ≡ true) ↔ (xs ≡ ys)
  list_beq_iff [] [] = (λ h. refl, λ h. refl)
  list_beq_iff (a ∷ xs) (b ∷ ys) = ground (arith, test.equals_iff a b, list_beq_iff xs ys)
  list_beq_iff _ _ = ground arith

  instance abbrev pub list_eq : Comparable (List A)
  list_eq = record { equals = list_beq; equals_iff = list_beq_iff }

abbrev pub bool_beq : Bool → Bool → Bool
bool_beq true b = b
bool_beq false b = not b

pub bool_beq_iff : (a b : Bool) → (bool_beq a b ≡ true) ↔ (a ≡ b)
bool_beq_iff a b = ground arith

instance abbrev pub bool_eq : Comparable Bool
bool_eq = record { equals = bool_beq; equals_iff = bool_beq_iff }

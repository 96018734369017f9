-- ===== src/Base/Lists.antt =====
-- Lists with native lengths, and the array methods that the source calls.
use Prim.Native.Nat.{ℕ, zero, suc, ◌+◌, ◌≤◌}
use mathlib.Core.Path.{◌≡◌, refl, ap, subst}
use mathlib.Core.Bool.{Bool, true, false, ◌&&◌, ◌||◌}
use mathlib.Core.List.{List, [], ◌∷◌, map}
use mathlib.Core.Option
use mathlib.Core.Option.{Option, none, some}
use native.Mathlib.Omega.{arith}
use wireguard_ops_cockpit.Base.Tests.{if◌then◌else◌, Bool-cases}
use mathlib.Core.Logic.{inl, inr}

module _ {ℓ} {A : Type ℓ} where
  abbrev pub length : List A → ℕ
  length [] = 0
  length (x ∷ xs) = suc (length xs)

  abbrev pub get_elem? : List A → ℕ → Option A
  get_elem? [] i = none
  get_elem? (x ∷ xs) zero = some x
  get_elem? (x ∷ xs) (suc i) = get_elem? xs i

  abbrev pub filter : (A → Bool) → List A → List A
  filter p [] = []
  filter p (x ∷ xs) = let rest = filter p xs in if p x then x ∷ rest else rest

  abbrev pub find : (A → Bool) → List A → Option A
  find p [] = none
  find p (x ∷ xs) = if p x then some x else find p xs

  -- `findIndex`, `none` for -1
  abbrev pub find_index : (A → Bool) → List A → Option ℕ
  find_index p [] = none
  find_index p (x ∷ xs) = if p x then some 0 else Option.map suc (find_index p xs)

  abbrev pub any : (A → Bool) → List A → Bool
  any p [] = false
  any p (x ∷ xs) = p x || any p xs

  abbrev pub all : (A → Bool) → List A → Bool
  all p [] = true
  all p (x ∷ xs) = p x && all p xs

  abbrev pub count : (A → Bool) → List A → ℕ
  count p [] = 0
  count p (x ∷ xs) = (if p x then 1 else 0) + count p xs

  pub length-filter : (p : A → Bool) (xs : List A) → length (filter p xs) ≡ count p xs
  length-filter p [] = refl
  length-filter p (x ∷ xs) = ground (arith, length-filter p xs)

  pub count-le : (p : A → Bool) (xs : List A) → count p xs ≤ length xs
  count-le p [] = omega arith
  count-le p (x ∷ xs) = ground (arith, count-le p xs)

  pub count-congr :
      (p q : A → Bool) → ((x : A) → p x ≡ q x) → (xs : List A) → count p xs ≡ count q xs
  count-congr p q h [] = refl
  count-congr p q h (x ∷ xs) = rw (h x, count-congr p q h xs)

  pub filter_comm : (p q : A → Bool) (xs : List A) → filter p (filter q xs) ≡ filter q (filter p xs)
  filter_comm p q [] = refl
  filter_comm p q (x ∷ xs) = ground (arith, filter_comm p q xs)

  -- A filter that keeps everything a second test counts does not change the count.
  pub count-filter :
      (p q : A → Bool)
      → ((x : A) → q x ≡ true → p x ≡ true)
      → (xs : List A) → count q (filter p xs) ≡ count q xs
  count-filter p q h [] = refl
  count-filter p q h (x ∷ xs) = ground (arith, h x, count-filter p q h xs)

module _ {ℓ κ} {A : Type ℓ} (P : A → Type κ) where
  abbrev pub All : List A → Type κ
  All [] = Unit
  All (x ∷ xs) = P x × All xs

module _ {ℓ κ} {A : Type ℓ} {B : Type κ} where
  -- `map` with the index
  abbrev pub map_index : (ℕ → A → B) → List A → List B
  map_index f [] = []
  map_index f (x ∷ xs) = f 0 x ∷ map_index (λ i. f (suc i)) xs

  -- `flatMap` with a function that returns no element or one
  abbrev pub filter_map : (A → Option B) → List A → List B
  filter_map f [] = []
  filter_map f (x ∷ xs) =
      let rest = filter_map f xs in elim (f x) [ none ↦ rest | some y ↦ y ∷ rest ]

  pub map_index-congr :
      (f g : ℕ → A → B)
      → ((i : ℕ) (x : A) → f i x ≡ g i x)
      → (xs : List A) → map_index f xs ≡ map_index g xs
  map_index-congr f g h [] = refl
  map_index-congr f g h (x ∷ xs) =
      rw (h 0 x, map_index-congr (λ i. f (suc i)) (λ i. g (suc i)) (λ i. h (suc i)) xs)

-- What is written by `g` is read back by `f`.
pub filter_map-map {ℓ κ μ} :
    {A : Type ℓ} {B : Type κ} (f : B → Option A) (g : A → B) (P : A → Type μ)
    → ((x : A) → P x → f (g x) ≡ some x)
    → (xs : List A) → All P xs
    → filter_map f (map g xs) ≡ xs
filter_map-map f g P h [] _ = refl
filter_map-map f g P h (x ∷ xs) (p, ps) = rw (h x p) (ap (◌∷◌ x) (filter_map-map f g P h xs ps))

pub find-holds : {A : Type 0} (p : A → Bool) (xs : List A) (x : A) → find p xs ≡ some x → p x ≡ true
find-holds p [] x h = absurd (ground arith)
find-holds p (y ∷ ys) x h = ground (arith, find-holds p ys x)

-- What is found has what all elements have.
pub find-All :
    {A : Type 0} (P : A → Type 0) (p : A → Bool) (xs : List A) (x : A)
    → All P xs
    → find p xs ≡ some x
    → P x
find-All P p [] x every h = absurd (ground arith)
find-All P p (y ∷ ys) x (first, others) h = elim (Bool-cases (p y)) [
  | inl holds ↦ (let same : y ≡ x = ground arith in subst P same first)
  | inr fails ↦ find-All P p ys x others (ground arith)
]

-- ===== src/Base/Tables.antt =====
-- A table as the list of its rows, in the order of insertion: the SQL statements that the source
-- runs, and what they do to a search by key.
use Prim.Native.Nat.{ℕ, zero, suc, ◌+◌, ◌≤◌}
use mathlib.Core.Option
use mathlib.Core.Path.{◌≡◌, refl}
use mathlib.Core.Logic.{◌≢◌}
use mathlib.Core.Bool.{Bool}
use mathlib.Core.List.{List, [], ◌∷◌, ◌++◌}
use mathlib.Core.Option.{Option, none, some}
use Prim.Native.String.{String}
use native.Mathlib.Omega.{arith}
use text.Mathlib.TextEquality.{eq_iff}
use wireguard_ops_cockpit.Base.Tests.{if◌then◌else◌}
use wireguard_ops_cockpit.Base.Equality.{◌==◌, string_eq}
use wireguard_ops_cockpit.Base.Lists.{find, count, length}

module _ {ℓ} {A : Type ℓ} where
  -- `UPDATE … SET … WHERE p`
  abbrev pub update : (A → Bool) → (A → A) → List A → List A
  update p f [] = []
  update p f (x ∷ xs) = (if p x then f x else x) ∷ update p f xs

  -- `INSERT`
  abbrev pub insert : A → List A → List A
  insert x xs = xs ++ x ∷ []

  -- `LIMIT n`, and `slice(0, n)`
  abbrev pub limit : ℕ → List A → List A
  limit zero xs = []
  limit (suc n) [] = []
  limit (suc n) (x ∷ xs) = x ∷ limit n xs

  pub length-limit : (n : ℕ) (xs : List A) → length (limit n xs) ≤ n
  length-limit zero xs = omega arith
  length-limit (suc n) [] = omega arith
  length-limit (suc n) (x ∷ xs) = omega (arith, length-limit n xs)

  pub count-insert :
      (p : A → Bool) (x : A) (xs : List A)
      → count p (insert x xs) ≡ count p xs + (if p x then 1 else 0)
  count-insert p x [] = ground arith
  count-insert p x (y ∷ ys) = ground (arith, count-insert p x ys)

  module _ (key : A → String) where
    -- `SELECT * … WHERE id = ?`
    abbrev pub by_key : String → List A → Option A
    by_key k xs = find (λ x. key x == k) xs

    module _ (f : A → A) (keeps : (x : A) → key (f x) ≡ key x) (k : String) where
      -- The row that an update by key changes is found changed.
      pub by_key-update_self :
          (xs : List A) → by_key k (update (λ x. key x == k) f xs) ≡ Option.map f (by_key k xs)
      by_key-update_self [] = refl
      by_key-update_self (x ∷ xs) =
          ground (arith, eq_iff (key x) k, eq_iff (key (f x)) k, keeps x, by_key-update_self xs)

      -- The rows of other keys are found as they were.
      pub by_key-update_ne :
          (j : String)
          → j ≢ k
          → (xs : List A) → by_key j (update (λ x. key x == k) f xs) ≡ by_key j xs
      by_key-update_ne j h [] = refl
      by_key-update_ne j h (x ∷ xs) = ground (
        arith,
        eq_iff (key x) k,
        eq_iff (key x) j,
        eq_iff (key (f x)) j,
        keeps x,
        by_key-update_ne j h xs,
      )

    -- A row is found after its insertion, if its key is new.
    pub by_key-insert_self :
        (x : A) (xs : List A) → by_key (key x) xs ≡ none → by_key (key x) (insert x xs) ≡ some x
    by_key-insert_self x [] h = ground (arith, eq_iff (key x) (key x))
    by_key-insert_self x (y ∷ ys) h = ground (arith, by_key-insert_self x ys)

    pub by_key-insert_ne :
        (x : A) (k : String) → k ≢ key x → (xs : List A) → by_key k (insert x xs) ≡ by_key k xs
    by_key-insert_ne x k h [] = ground (arith, eq_iff (key x) k)
    by_key-insert_ne x k h (y ∷ ys) = ground (arith, by_key-insert_ne x k h ys)

    -- What is found bears the key.
    pub by_key-key : (k : String) (xs : List A) (x : A) → by_key k xs ≡ some x → key x ≡ k
    by_key-key k [] x h = absurd (ground arith)
    by_key-key k (y ∷ ys) x h = ground (arith, eq_iff (key y) k, by_key-key k ys x)

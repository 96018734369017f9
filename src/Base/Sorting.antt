-- ===== src/Base/Sorting.antt =====
-- `Array.prototype.sort` by a numeric key: a stable sort, as an insertion sort.
use Prim.Native.Nat.{ℕ, suc, ◌-◌, ◌≤◌, ◌<◌}
use mathlib.Core.Path.{◌≡◌, refl}
use mathlib.Core.Bool.{Bool}
use mathlib.Core.Logic.{◌↔◌, inl, inr}
use mathlib.Core.List.{List, [], ◌∷◌}
use mathlib.Core.Option.{some}
use native.Mathlib.Omega.{arith}
use native.Mathlib.Decide.{dec_le}
use wireguard_ops_cockpit.Base.Tests.{leb, if◌then◌else◌, Bool-cases}
use wireguard_ops_cockpit.Base.Lists.{length, get_elem?, count, count-le, All}

module _ {ℓ} {A : Type ℓ} (key : A → ℕ) where
  unfoldable pub insert_by : A → List A → List A
  insert_by x [] = x ∷ []
  insert_by x (y ∷ ys) = if leb (key x) (key y) then x ∷ y ∷ ys else y ∷ insert_by x ys

  unfoldable pub sort_by : List A → List A
  unfolding insert_by
  sort_by [] = []
  sort_by (x ∷ xs) = insert_by x (sort_by xs)

  abbrev pub IsSorted : List A → Type 0
  IsSorted [] = Unit
  IsSorted (x ∷ xs) = All (λ y. key x ≤ key y) xs × IsSorted xs

  All-weaken : {a b : ℕ} → a ≤ b → (xs : List A) → All (λ y. b ≤ key y) xs → All (λ y. a ≤ key y) xs
  All-weaken h [] _ = tt
  All-weaken h (x ∷ xs) (p, ps) = (omega arith, All-weaken h xs ps)

  All-insert_by :
      (a : ℕ) (x : A) (xs : List A)
      → a ≤ key x
      → All (λ y. a ≤ key y) xs
      → All (λ y. a ≤ key y) (insert_by x xs)
  unfolding insert_by
  All-insert_by a x [] h _ = (h, tt)
  All-insert_by a x (y ∷ ys) h (p, ps) = ground (arith, All-insert_by a x ys h ps)

  insert_by-IsSorted : (x : A) (xs : List A) → IsSorted xs → IsSorted (insert_by x xs)
  unfolding insert_by
  insert_by-IsSorted x [] _ = (tt, tt)
  insert_by-IsSorted x (y ∷ ys) (p, s) = elim (Bool-cases (leb (key x) (key y))) [
    | inl le ↦ rw le ((ground arith, All-weaken {b = key y} (ground arith) ys p), (p, s))
    | inr gt ↦ rw gt (All-insert_by (key y) x ys (ground arith) p, insert_by-IsSorted x ys s)
  ]

  pub sort_by-IsSorted : (xs : List A) → IsSorted (sort_by xs)
  unfolding sort_by
  sort_by-IsSorted [] = tt
  sort_by-IsSorted (x ∷ xs) = insert_by-IsSorted x (sort_by xs) (sort_by-IsSorted xs)

  All-insert_by_any :
      (P : A → Type 0) (x : A) (xs : List A) → P x → All P xs → All P (insert_by x xs)
  unfolding insert_by
  All-insert_by_any P x [] p _ = (p, tt)
  All-insert_by_any P x (y ∷ ys) p (q, qs) = elim (Bool-cases (leb (key x) (key y))) [
    | inl le ↦ rw le (p, (q, qs))
    | inr gt ↦ rw gt (q, All-insert_by_any P x ys p qs)
  ]

  -- A sort keeps what every element has.
  pub All-sort_by : (P : A → Type 0) (xs : List A) → All P xs → All P (sort_by xs)
  unfolding sort_by
  All-sort_by P [] _ = tt
  All-sort_by P (x ∷ xs) (p, ps) = All-insert_by_any P x (sort_by xs) p (All-sort_by P xs ps)

  count-insert_by :
      (p : A → Bool) (x : A) (xs : List A) → count p (insert_by x xs) ≡ count p (x ∷ xs)
  unfolding insert_by
  count-insert_by p x [] = refl
  count-insert_by p x (y ∷ ys) = ground (arith, count-insert_by p x ys)

  -- A sort keeps every count.
  pub count-sort_by : (p : A → Bool) (xs : List A) → count p (sort_by xs) ≡ count p xs
  unfolding sort_by
  count-sort_by p [] = refl
  count-sort_by p (x ∷ xs) = ground (arith, count-insert_by p x (sort_by xs), count-sort_by p xs)

  length-insert_by : (x : A) (xs : List A) → length (insert_by x xs) ≡ suc (length xs)
  unfolding insert_by
  length-insert_by x [] = refl
  length-insert_by x (y ∷ ys) = ground (arith, length-insert_by x ys)

  pub length-sort_by : (xs : List A) → length (sort_by xs) ≡ length xs
  unfolding sort_by
  length-sort_by [] = refl
  length-sort_by (x ∷ xs) = omega (arith, length-insert_by x (sort_by xs), length-sort_by xs)

  count_full :
      (c : ℕ) (xs : List A) → All (λ y. c ≤ key y) xs → count (λ y. leb c (key y)) xs ≡ length xs
  count_full c [] _ = refl
  count_full c (x ∷ xs) (p, ps) = ground (arith, count_full c xs ps)

  -- In a sorted list at least `k` keys reach `c` exactly when the `k`-th from the end does.
  pub count_from_end :
      (c k : ℕ) (xs : List A) (x : A)
      → IsSorted xs
      → 0 < k
      → k ≤ length xs
      → get_elem? xs (length xs - k) ≡ some x
      → (k ≤ count (λ y. leb c (key y)) xs) ↔ (c ≤ key x)
  count_from_end c k [] x s h l e = absurd (omega arith)
  count_from_end c k (y ∷ ys) x (p, s) h l e = elim (dec_le k (length ys)) [
    | yes inside ↦
        let index : suc (length ys) - k ≡ suc (length ys - k) = omega arith in
        let tail : get_elem? ys (length ys - k) ≡ some x = rw index at e in
        let ih = count_from_end c k ys x s h inside tail in
        elim (Bool-cases (leb c (key y))) [
          | inl le ↦
              let full = count_full c ys (All-weaken {b = key y} (ground arith) ys p) in
              (λ _. ih.0 (omega arith), λ _. rw le (omega arith))
          | inr gt ↦ rw gt (λ m. ih.0 (omega arith), λ m. omega (arith, ih.1 m))
        ]
    | no outside ↦
        let index : suc (length ys) - k ≡ 0 = omega arith in
        let head : some y ≡ some x = rw index at e in
        let same : key y ≡ key x = cc in
        let bound = count-le (λ z. leb c (key z)) ys in
        elim (Bool-cases (leb c (key y))) [
          | inl le ↦
              let full = count_full c ys (All-weaken {b = key y} (ground arith) ys p) in
              (λ _. rw (← same) (ground arith), λ _. rw le (omega arith))
          | inr gt ↦ rw gt (λ m. absurd (omega arith), λ m. absurd (ground arith))
        ]
  ]

-- ===== src/Base/Actions.antt =====
-- Calls that change a state and may throw, as a `do` block: what was written before a throw stays
-- written. For the proofs: what a call leaves as it was, and the two ways in which a chain ends.
use mathlib.Core.Path.{◌≡◌, refl, sym, ap, ◌∙◌}
use mathlib.Core.Logic.{◌⊎◌, inl, inr}
use mathlib.Core.Option.{Option, none, some}
use Prim.Native.String.{String}

pub data Result (A : Type 0) : Type 0 where
  done : A → Result A
  thrown : String → Result A

abbrev pub Action : Type 0 → Type 0 → Type 0
Action S A = S → Result A × S

abbrev pub found_or : {A : Type 0} → String → Option A → Result A
found_or message none = thrown message
found_or message (some a) = done a

module _ {S A : Type 0} where
  abbrev pub pure : A → Action S A
  pure a s = (done a, s)

  abbrev pub throw : String → Action S A
  throw message s = (thrown message, s)

  abbrev pub gets : (S → A) → Action S A
  gets f s = (done (f s), s)

  -- A result that depends on the state, and may be missing.
  abbrev pub or_throw : String → (S → Option A) → Action S A
  or_throw message f s = (found_or message (f s), s)

-- A result by an early return where something is missing.
abbrev pub or_return : {S A B : Type 0} → B → Option A → (A → Action S B) → Action S B
or_return b none k = pure b
or_return b (some a) k = k a

abbrev pub modify : {S : Type 0} → (S → S) → Action S (Unit {0})
modify f s = (done tt, f s)

abbrev pub throw_if : {S : Type 0} → Option String → Action S (Unit {0})
throw_if none = pure tt
throw_if (some message) = throw message

-- What follows a part: the rest after its result, or the throw.
abbrev pub bound : {S A B : Type 0} → (A → Action S B) → Result A × S → Result B × S
bound k (done a, s) = k a s
bound k (thrown e, s) = (thrown e, s)

infixl 5 ◌>>=◌ ◌>>◌
abbrev pub ◌>>=◌ : {S A B : Type 0} → Action S A → (A → Action S B) → Action S B
◌>>=◌ m k s = bound k (m s)

abbrev pub ◌>>◌ : {S A B : Type 0} → Action S A → Action S B → Action S B
m >> k = m >>= λ _. k

pub Result-cases :
    {S A : Type 0} (p : Result A × S)
    → ((a : A) × (s : S) × (p ≡ (done a, s))) ⊎ ((e : String) × (s : S) × (p ≡ (thrown e, s)))
Result-cases (done a, s) = inl (a, s, refl)
Result-cases (thrown e, s) = inr (e, s, refl)

pub Result-shape :
    {A : Type 0} (r : Result A) → ((a : A) × (r ≡ done a)) ⊎ ((e : String) × (r ≡ thrown e))
Result-shape (done a) = inl (a, refl)
Result-shape (thrown e) = inr (e, refl)

-- A chain that returns has run each of its parts.
pub >>=-done :
    {S A B : Type 0} (m : Action S A) (k : A → Action S B) (s s' : S) (b : B)
    → (m >>= k) s ≡ (done b, s')
    → (a : A) × (s1 : S) × (m s ≡ (done a, s1)) × (k a s1 ≡ (done b, s'))
>>=-done m k s s' b h = elim (Result-cases (m s)) [
  | inl (a, s1, e) ↦ (a, s1, e, sym (ap (bound k) e) ∙ h)
  | inr (message, s1, e) ↦ absurd (cc (sym (ap (bound k) e) ∙ h))
]

-- A part that returns passes its result on.
pub >>=-run :
    {S A B : Type 0} (m : Action S A) (k : A → Action S B) (s s1 : S) (a : A)
    → m s ≡ (done a, s1)
    → (m >>= k) s ≡ k a s1
>>=-run m k s s1 a e = ap (bound k) e

-- The call leaves what `view` shows of the state as it was, also when it throws.
abbrev pub Keeps : {S A X : Type 0} → (S → X) → Action S A → Type 0
Keeps {S} view m = (s : S) → view (m s).1 ≡ view s

pub Keeps->>= :
    {S A B X : Type 0} (view : S → X) (m : Action S A) (k : A → Action S B)
    → Keeps view m
    → ((a : A) → Keeps view (k a))
    → Keeps view (m >>= k)
Keeps->>= view m k hm hk s = elim (Result-cases (m s)) [
  | inl (a, s', e) ↦ ap (λ p. view (bound k p).1) e ∙ hk a s' ∙ sym (ap (λ p. view p.1) e) ∙ hm s
  | inr (message, s', e) ↦ ap (λ p. view (bound k p).1) e ∙ sym (ap (λ p. view p.1) e) ∙ hm s
]

pub or_return-cases :
    {S A B : Type 0} (P : Action S B → Type 0) (b : B) (o : Option A) (k : A → Action S B)
    → (o ≡ none → P (pure b))
    → ((a : A) → o ≡ some a → P (k a))
    → P (or_return b o k)
or_return-cases P b none k h0 h1 = h0 refl
or_return-cases P b (some a) k h0 h1 = h1 a refl

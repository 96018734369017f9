-- ===== src/Checkpoint/Staged.antt =====
-- app.ts, `createInitialCheckpointState` and `advanceCheckpointState`: the order of the stages.
use mathlib.Core.Option
use wireguard_ops_cockpit.Base.{
  ℕ, suc, ◌≡◌, refl, sym, ap, ◌∙◌, String, Bool, true, false, Option, none, some, List, [], ◌∷◌,
  ◌==◌, if◌then◌else◌, string_eq, nat_eq, arith, length, count, find_index, find, map, map_index,
  map_index-congr, All, Bool-cases, Option-cases, ◌⊎◌, inl, inr,
}
use wireguard_ops_cockpit.Checkpoint.{
  Definition, State, Status, planned, awaiting_operator, completed, is_planned, is_awaiting, start,
  initial_state, id_or_null, Advanced, advance_one, advance_state,
}

abbrev pub is_completed : Status → Bool
is_completed completed = true
is_completed _ = false

-- Completed stages, then the one that awaits the operator, then planned ones; or all completed.
abbrev pub IsStaged : List State → Type 0
IsStaged [] = Unit
IsStaged (c ∷ cs) =
    ((c.status ≡ completed) × IsStaged cs)
    ⊎ ((c.status ≡ awaiting_operator) × All (λ d. d.status ≡ planned) cs)

abbrev pub completed_count : List State → ℕ
completed_count = count (λ c. is_completed c.status)

-- The checkpoints after an advance, by recursion on the list.
unfoldable pub wake : List State → List State
wake [] = []
wake (c ∷ cs) = (if is_planned c.status then record c { status = awaiting_operator } else c) ∷ cs

unfoldable pub advanced : List State → String → Option (List State)
unfolding wake
advanced [] id = none
advanced (c ∷ cs) id =
    let later = Option.map (◌∷◌ c) (advanced cs id) in
    if c.id == id
    then (if is_awaiting c.status then some (record c { status = completed } ∷ wake cs) else none)
    else later

map_index-same :
    (cs : List State) (f : ℕ → State → State)
    → ((i : ℕ) (c : State) → f i c ≡ c)
    → map_index f cs ≡ cs
map_index-same [] f h = refl
map_index-same (c ∷ cs) f h = rw (h 0 c, map_index-same cs (λ i. f (suc i)) (λ i. h (suc i)))

map_index-wake : (cs : List State) → map_index (λ i. advance_one 0 (suc i)) cs ≡ wake cs
unfolding wake
map_index-wake [] = refl
map_index-wake (c ∷ cs) =
    rw (map_index-same cs (λ i. advance_one 0 (suc (suc i))) (λ i d. ground arith)) (ground arith)

map_index-shift :
    (k : ℕ) (cs : List State)
    → map_index (λ i. advance_one (suc k) (suc i)) cs ≡ map_index (advance_one k) cs
map_index-shift k cs = map_index-congr _ _ (λ i c. ground arith) cs

-- The checkpoints of an advance.
unfoldable pub checkpoints_of : List State → String → Option (List State)
checkpoints_of cs id = Option.map (λ (a : Advanced). a.checkpoints) (advance_state cs id)

pub checkpoints_of-advanced :
    (cs : List State) (id : String) → checkpoints_of cs id ≡ advanced cs id
unfolding checkpoints_of advance_state advanced
checkpoints_of-advanced [] id = refl
checkpoints_of-advanced (c ∷ cs) id = elim (Bool-cases (c.id == id)) [
  | inl here ↦ rw (here, map_index-wake cs) (ground arith)
  | inr later ↦
      rw (later, ← checkpoints_of-advanced cs id)
        (elim (Option-cases (find_index (λ (d : State). d.id == id) cs)) [
          | inl missing ↦ rw missing
          | inr (k, found) ↦ rw (found, map_index-shift k cs) (ground arith)
        ])
]

-- An advance, as a relation on the checkpoints: the one that awaits the operator is completed, and
-- the planned one after it is woken.
pub advance_state-advanced :
    (cs : List State) (id : String) (a : Advanced)
    → advance_state cs id ≡ some a
    → advanced cs id ≡ some a.checkpoints
unfolding checkpoints_of
advance_state-advanced cs id a e =
    sym (checkpoints_of-advanced cs id) ∙ ap (Option.map (λ (b : Advanced). b.checkpoints)) e

wake-IsStaged : (cs : List State) → All (λ d. d.status ≡ planned) cs → IsStaged (wake cs)
unfolding wake
wake-IsStaged [] h = tt
wake-IsStaged (c ∷ cs) (p, h) = rw p (inr (refl, h))

wake-completed_count :
    (cs : List State)
    → All (λ d. d.status ≡ planned) cs
    → completed_count (wake cs) ≡ completed_count cs
unfolding wake
wake-completed_count [] h = refl
wake-completed_count (c ∷ cs) (p, h) = ground arith

abbrev Steps : List State → List State → Type 0
Steps cs cs' =
    IsStaged cs' × (completed_count cs' ≡ suc (completed_count cs)) × (length cs' ≡ length cs)

length-wake : (cs : List State) → length (wake cs) ≡ length cs
unfolding wake
length-wake [] = refl
length-wake (c ∷ cs) = refl

planned-stuck :
    (cs : List State) (id : String) → All (λ d. d.status ≡ planned) cs → advanced cs id ≡ none
unfolding advanced
planned-stuck [] id h = refl
planned-stuck (c ∷ cs) id (p, h) = ground (arith, planned-stuck cs id h)

advanced-Steps :
    (cs : List State) (id : String) (cs' : List State)
    → IsStaged cs
    → advanced cs id ≡ some cs'
    → Steps cs cs'
unfolding advanced
advanced-Steps [] id cs' h e = absurd (ground arith)
advanced-Steps (c ∷ cs) id cs' (inl (done, h)) e = elim (Option-cases (advanced cs id)) [
  | inl stuck ↦ absurd (ground arith)
  | inr (ds, ih) ↦
      let (staged, more, same) = advanced-Steps cs id ds h ih in
      let out : c ∷ ds ≡ cs' = ground arith in
      rw (← out) (inl (done, staged), ground arith, omega arith)
]
advanced-Steps (c ∷ cs) id cs' (inr (wait, h)) e = elim (Bool-cases (c.id == id)) [
  | inl here ↦
      let same : record c { status = completed } ∷ wake cs ≡ cs' = ground arith in
      rw (← same) (
        inl (refl, wake-IsStaged cs h),
        ground (arith, wake-completed_count cs h),
        ground (arith, length-wake cs),
      )
  | inr later ↦ absurd (ground (arith, planned-stuck cs id h))
]

-- Advancing keeps the stages in order, completes exactly one more checkpoint, and neither adds nor
-- drops one.
pub advance_state-IsStaged :
    (cs : List State) (id : String) (a : Advanced)
    → IsStaged cs
    → advance_state cs id ≡ some a
    → IsStaged a.checkpoints
      × (completed_count a.checkpoints ≡ suc (completed_count cs))
      × (length a.checkpoints ≡ length cs)
advance_state-IsStaged cs id a h e =
    advanced-Steps cs id a.checkpoints h (advance_state-advanced cs id a e)

All-planned :
    (f : ℕ → Definition → State)
    → ((k : ℕ) (d : Definition) → (f k d).status ≡ planned)
    → (ds : List Definition) → All (λ d. d.status ≡ planned) (map_index f ds)
All-planned f h [] = tt
All-planned f h (d ∷ ds) = (h 0 d, All-planned (λ k. f (suc k)) (λ k. h (suc k)) ds)

-- The checkpoint's definition, without its status.
abbrev pub definition_of : State → Definition
definition_of c = record {
  id = c.id;
  label = c.label;
  description = c.description;
  kind = c.kind;
  runbook_id = c.runbook_id;
}

-- The first awaits the operator, and the others are planned.
abbrev pub IsFresh : List State → Type 0
IsFresh [] = Unit
IsFresh (c ∷ cs) = (c.status ≡ awaiting_operator) × All (λ d. d.status ≡ planned) cs

IsFresh-IsStaged : (cs : List State) → IsFresh cs → IsStaged cs
IsFresh-IsStaged [] h = tt
IsFresh-IsStaged (c ∷ cs) h = inr h

map-definition_of :
    (f : ℕ → Definition → State)
    → ((k : ℕ) (d : Definition) → definition_of (f k d) ≡ d)
    → (ds : List Definition) → map definition_of (map_index f ds) ≡ ds
map-definition_of f h [] = refl
map-definition_of f h (d ∷ ds) =
    rw (h 0 d) (ap (◌∷◌ d) (map-definition_of (λ k. f (suc k)) (λ k. h (suc k)) ds))

initial_state-IsFresh : (ds : List Definition) → IsFresh (initial_state ds).0
unfolding initial_state
initial_state-IsFresh [] = tt
initial_state-IsFresh (d ∷ ds) = (refl, All-planned (λ k. start (suc k)) (λ k e. ground arith) ds)

initial_state-active :
    (ds : List Definition)
    → (initial_state ds).1 ≡ id_or_null (find (λ c. is_awaiting c.status) (initial_state ds).0)
unfolding initial_state
initial_state-active [] = refl
initial_state-active (d ∷ ds) = refl

-- A new contract has a checkpoint for each of its definitions, in their order; the first awaits the
-- operator and the others are planned, so that the stages are in order; and the checkpoint that is
-- named as active is the one that awaits the operator.
pub initial_state-IsStaged :
    (ds : List Definition)
    → (map definition_of (initial_state ds).0 ≡ ds)
      × IsFresh (initial_state ds).0
      × IsStaged (initial_state ds).0
      × ((initial_state ds).1 ≡ id_or_null (find (λ c. is_awaiting c.status) (initial_state ds).0))
unfolding initial_state
initial_state-IsStaged ds = (
  map-definition_of start (λ k d. refl) ds,
  initial_state-IsFresh ds,
  IsFresh-IsStaged _ (initial_state-IsFresh ds),
  initial_state-active ds,
)

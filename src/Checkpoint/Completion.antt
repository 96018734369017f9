-- ===== src/Checkpoint/Completion.antt =====
-- app.ts, `advanceCheckpointState`: every staged contract can be advanced to its end.
use text.Mathlib.TextEquality.{eq_iff}
use wireguard_ops_cockpit.Base.{
  ℕ, zero, suc, ◌+◌, ◌<◌, ◌≡◌, ◌≢◌, refl, ◌∙◌, String, false, Option, some, List, [], ◌∷◌,
  string_eq, nat_eq, arith, length, map, map_index, All, Option-cases, inl, inr,
}
use wireguard_ops_cockpit.Base.Options.{◌>>=◌}
use wireguard_ops_cockpit.Checkpoint.{
  Definition, State, completed, start, initial_state, Advanced, advance_state, active_id,
}
use wireguard_ops_cockpit.Checkpoint.Staged.{
  is_completed, IsStaged, completed_count, wake, advanced, checkpoints_of, checkpoints_of-advanced,
  advance_state-IsStaged, initial_state-IsStaged,
}

abbrev pub ids : List State → List String
ids = map (λ c. c.id)

abbrev pub Distinct : List String → Type 0
Distinct [] = Unit
Distinct (i ∷ is) = All (λ j. j ≢ i) is × Distinct is

-- The operator advances the active checkpoint `n` times.
unfoldable pub operate : ℕ → List State → Option (List State)
operate zero cs = some cs
operate (suc n) cs = do id ← active_id cs; a ← advance_state cs id; operate n a.checkpoints

ids-wake : (cs : List State) → ids (wake cs) ≡ ids cs
unfolding wake
ids-wake [] = refl
ids-wake (c ∷ cs) = ground arith

ids-advanced :
    (cs : List State) (id : String) (cs' : List State)
    → advanced cs id ≡ some cs'
    → ids cs' ≡ ids cs
unfolding advanced
ids-advanced [] id cs' e = absurd (ground arith)
ids-advanced (c ∷ cs) id cs' e = elim (Option-cases (advanced cs id)) [
  | inl stuck ↦ ground (arith, ids-wake cs)
  | inr (ds, ih) ↦ ground (arith, ids-wake cs, ids-advanced cs id ds ih)
]

-- The active checkpoint of an unfinished staged list, with what an advance makes of the list.
record Active (cs : List State) : Type 0 where
  id : String
  next : List State
  found : active_id cs ≡ some id
  step : advanced cs id ≡ some next
  listed : (i : String) → All (λ j. j ≢ i) (ids cs) → id ≢ i

next_step :
    (cs : List State)
    → IsStaged cs
    → Distinct (ids cs)
    → All (λ j. j ≢ "") (ids cs)
    → completed_count cs < length cs
    → Active cs
unfolding advanced
next_step [] h d n l = elim l [ ]
next_step (c ∷ cs) (inl (done, h)) (apart, d) (_, n) l =
    let a = next_step cs h d n (ground arith) in
    record {
      id = a.id;
      next = c ∷ a.next;
      found = ground (arith, a.found);
      step = ground (arith, eq_iff c.id a.id, a.listed c.id apart, a.step);
      listed = λ i p. a.listed i p.1;
    }
next_step (c ∷ cs) (inr (wait, h)) (apart, d) (n, _) l = record {
  id = c.id;
  next = record c { status = completed } ∷ wake cs;
  found = ground (arith, eq_iff c.id "");
  step = ground (arith, eq_iff c.id c.id);
  listed = λ i p. p.0;
}

-- `advance_state` takes every step that `advanced` does.
advance_of_advanced :
    (cs : List State) (id : String) (cs' : List State)
    → advanced cs id ≡ some cs'
    → (a : Advanced) × (advance_state cs id ≡ some a) × (a.checkpoints ≡ cs')
unfolding checkpoints_of
advance_of_advanced cs id cs' e =
    let same = checkpoints_of-advanced cs id in
    elim (Option-cases (advance_state cs id)) [
      | inl stuck ↦ absurd (ground arith)
      | inr (a, found) ↦ (a, found, ground arith)
    ]

operate-completes :
    (n : ℕ) (cs : List State)
    → IsStaged cs
    → Distinct (ids cs)
    → All (λ j. j ≢ "") (ids cs)
    → n + completed_count cs ≡ length cs
    → (cs' : List State) × (operate n cs ≡ some cs')
      × (completed_count cs' ≡ length cs)
      × (ids cs' ≡ ids cs)
unfolding operate
operate-completes zero cs h d k e = (cs, refl, omega arith, refl)
operate-completes (suc n) cs h d k e =
    let active = next_step cs h d k (omega arith) in
    let (a, step, next) = advance_of_advanced cs active.id active.next active.step in
    let (staged, more, same) = advance_state-IsStaged cs active.id a h step in
    let kept : ids a.checkpoints ≡ ids cs =
      rw next (ids-advanced cs active.id active.next active.step) in
    let (cs', run, full, names) =
      operate-completes n a.checkpoints staged (rw kept d) (rw kept k) (omega arith) in
    (cs', rw (active.found, step) run, omega arith, names ∙ kept)

ids-start :
    (f : ℕ → Definition → State)
    → ((k : ℕ) (d : Definition) → (f k d).id ≡ d.id)
    → (ds : List Definition) → ids (map_index f ds) ≡ map (λ d. d.id) ds
ids-start f h [] = refl
ids-start f h (d ∷ ds) = rw (h 0 d, ids-start (λ k. f (suc k)) (λ k. h (suc k)) ds)

start-size :
    (f : ℕ → Definition → State)
    → ((k : ℕ) (d : Definition) → is_completed (f k d).status ≡ false)
    → (ds : List Definition)
    → (completed_count (map_index f ds) ≡ 0) × (length (map_index f ds) ≡ length ds)
start-size f h [] = (refl, refl)
start-size f h (d ∷ ds) =
    let (none_done, size) = start-size (λ k. f (suc k)) (λ k. h (suc k)) ds in
    (rw (h 0 d) (omega arith), omega arith)

-- A contract whose checkpoints have distinct ids, none of them empty, is completed by advancing its
-- active checkpoint as often as it has checkpoints: no advance is refused, every checkpoint is
-- completed, and they are still those of the contract, in its order.
pub operate-initial_state :
    (ds : List Definition)
    → Distinct (map (λ d. d.id) ds)
    → All (λ i. i ≢ "") (map (λ d. d.id) ds)
    → (cs : List State) × (operate (length ds) (initial_state ds).0 ≡ some cs)
      × (completed_count cs ≡ length ds)
      × (ids cs ≡ map (λ d. d.id) ds)
unfolding initial_state
operate-initial_state ds d n =
    let names = ids-start start (λ k e. refl) ds in
    let (none_done, size) = start-size start (λ k e. ground arith) ds in
    let (cs, run, full, same) =
      operate-completes (length ds) (map_index start ds)
        (unfold initial_state in (initial_state-IsStaged ds).2) (rw names d) (rw names n)
        (omega arith) in
    (cs, run, omega arith, same ∙ names)

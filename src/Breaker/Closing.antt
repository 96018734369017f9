-- ===== src/Breaker/Closing.antt =====
-- circuit-breaker.ts: when the breaker is open, and that it closes when it says.
use wireguard_ops_cockpit.Base.{
  ℕ, zero, suc, ◌∙◌, sym, ap, [], ◌∷◌, ◌+◌, ◌-◌, ◌≤◌, ◌<◌, ◌≡◌, ◌↔◌, refl, String, Bool, Option,
  none, some, List, ◌==◌, leb, ltb, inl, inr, arith, Bool-cases, length, get_elem?, filter, count,
  count-congr, filter_comm, length-filter, option_eq, string_eq, count-le, ltb→lt, count-filter,
}
use wireguard_ops_cockpit.Base.Int.{ℤ, sub_ℕ}
use wireguard_ops_cockpit.Base.Sorting.{
  sort_by, sort_by-IsSorted, length-sort_by, count-sort_by, count_from_end,
}
use wireguard_ops_cockpit.Breaker.{
  BreakerFailure, BreakerState, Scope, operation, global, Limits, ok, opened, open_state, in_window,
  later_of, evaluate_breaker,
}

get_elem?-below {ℓ} :
    {A : Type ℓ} (xs : List A) (i : ℕ) → i < length xs → (x : A) × (get_elem? xs i ≡ some x)
get_elem?-below [] i h = absurd (omega arith)
get_elem?-below (x ∷ xs) zero h = (x, refl)
get_elem?-below (x ∷ xs) (suc i) h = get_elem?-below xs i (omega arith)

module _ (w : ℕ) where
  in_window-count :
      (t : ℕ) (fs : List BreakerFailure)
      → count (in_window t w) fs ≡ count (λ f. leb (t - w) f.time) (sort_by (λ f. f.time) fs)
  in_window-count t fs =
      count-congr (in_window t w) (λ f. leb (t - w) f.time) (λ f. ground arith) fs
      ∙ sym (count-sort_by (λ f. f.time) (λ f. leb (t - w) f.time) fs)

  -- The failure that leaves the window last but `limit - 1` decides.
  leaving-decides :
      (limit t : ℕ) (fs : List BreakerFailure) (x : BreakerFailure)
      → 0 < limit
      → limit ≤ length fs
      → let sorted = sort_by (λ f. f.time) fs in
        get_elem? sorted (length sorted - limit) ≡ some x
        → (limit ≤ count (in_window t w) fs) ↔ (t ≤ x.time + w)
  leaving-decides limit t fs x h l e =
      let same = length-sort_by (λ f. f.time) fs in
      let decides =
        count_from_end (λ f. f.time) (t - w) limit (sort_by (λ f. f.time) fs) x
          (sort_by-IsSorted (λ f. f.time) fs) h (omega arith) e in
      rw (in_window-count t fs)
        (λ m. (let late = decides.0 m in omega arith), λ m. decides.1 (omega arith))

  -- What an answer of `open_state` says of the failures: there are fewer than the limit, or the
  -- limit is reached at every time up to `closes_at` and at none after it.
  abbrev pub Describes : Option BreakerState → ℕ → List BreakerFailure → Type 0
  Describes none limit fs = length fs < limit
  Describes (some s) limit fs =
      (limit ≤ length fs) × ((t : ℕ) → (limit ≤ count (in_window t w) fs) ↔ (t ≤ s.closes_at))

  pub open_state-Describes :
      (scope : Scope) (key : Option String) (limit : ℕ) (start : ℤ) (fs : List BreakerFailure)
      → 0 < limit
      → (o : Option BreakerState) × (open_state scope key fs limit start w ≡ ok o)
        × Describes o limit fs
  unfolding open_state
  open_state-Describes scope key limit start fs h = elim (Bool-cases (ltb (length fs) limit)) [
    | inl few ↦ (none, rw few, ltb→lt _ _ few)
    | inr many ↦
        let sorted = sort_by (λ (f : BreakerFailure). f.time) fs in
        let same = length-sort_by (λ (f : BreakerFailure). f.time) fs in
        let enough : limit ≤ length fs = ground arith in
        let (x, found) = get_elem?-below sorted (length sorted - limit) (omega arith) in
        (
          some (opened scope key sorted limit start (x.time + w)),
          rw (many, found),
          (enough, λ t. leaving-decides limit t fs x h enough found),
        )
  ]

  -- The failures of one key that are in the window at `t`.
  abbrev pub own_count : String → ℕ → List BreakerFailure → ℕ
  own_count key t fs = count (λ f. f.key == some key) (filter (in_window t w) fs)

  module _ (fs : List BreakerFailure) (key : String) (t : ℕ) where
    -- What was recent at `now` still tells the count at a later `t`.
    own_count-recent :
        (now : ℕ)
        → now ≤ t
        → count (in_window t w) (filter (λ f. f.key == some key) (filter (in_window now w) fs))
          ≡ own_count key t fs
    own_count-recent now h =
        let bears : BreakerFailure → Bool = λ f. f.key == some key in
        rw (filter_comm bears (in_window now w) fs) (
          count-filter (in_window now w) (in_window t w) (λ f e. ground arith) (filter bears fs)
          ∙ sym (length-filter (in_window t w) (filter bears fs))
          ∙ ap length (filter_comm (in_window t w) bears fs)
          ∙ length-filter bears (filter (in_window t w) fs))

    all_count-recent :
        (now : ℕ)
        → now ≤ t
        → count (in_window t w) (filter (in_window now w) fs) ≡ count (in_window t w) fs
    all_count-recent now h = count-filter (in_window now w) (in_window t w) (λ f e. ground arith) fs

  abbrev recent : ℕ → List BreakerFailure → List BreakerFailure
  recent t fs = filter (in_window t w) fs

  abbrev own_recent : String → ℕ → List BreakerFailure → List BreakerFailure
  own_recent key t fs = filter (λ f. f.key == some key) (recent t fs)

  evaluate_breaker-later_of :
      (fs : List BreakerFailure) (key : String) (limits : Limits) (t : ℕ)
      (own all_keys : Option BreakerState)
      → open_state operation (some key) (own_recent key t fs) limits.per_operation (sub_ℕ t w) w
        ≡ ok own
      → open_state global none (recent t fs) limits.global (sub_ℕ t w) w ≡ ok all_keys
      → evaluate_breaker fs key limits t w ≡ ok (later_of own all_keys)
  unfolding evaluate_breaker
  evaluate_breaker-later_of fs key limits t own all_keys e f = rw (e, f)

  module _ (fs : List BreakerFailure) (key : String) (limits : Limits) where
    -- `later_of` is `none` exactly when both answers are.
    later_of-closed_iff :
        (t : ℕ) (own all_keys : Option BreakerState)
        → Describes own limits.per_operation (own_recent key t fs)
        → Describes all_keys limits.global (recent t fs)
        → (ok (later_of own all_keys) ≡ ok none) ↔ (
            (own_count key t fs < limits.per_operation)
            × (count (in_window t w) fs < limits.global))
    unfolding later_of
    later_of-closed_iff t none none d e = ground (
      arith,
      length-filter (λ (f : BreakerFailure). f.key == some key) (recent t fs),
      length-filter (in_window t w) fs,
    )
    later_of-closed_iff t _ _ d e = ground (
      arith,
      length-filter (λ (f : BreakerFailure). f.key == some key) (recent t fs),
      length-filter (in_window t w) fs,
    )

    -- The later of the two closing times is the one from which neither limit is reached.
    later_of-closes_at :
        (now t : ℕ) (own all_keys : Option BreakerState) (s : BreakerState)
        → now ≤ t
        → Describes own limits.per_operation (own_recent key now fs)
        → Describes all_keys limits.global (recent now fs)
        → ok (later_of own all_keys) ≡ ok (some s)
        → ((own_count key t fs < limits.per_operation) × (count (in_window t w) fs < limits.global))
          ↔ (s.closes_at < t)
    unfolding later_of
    later_of-closes_at now t none none s h d e f = cc
    later_of-closes_at now t (some a) none s h d e f = ground (
      arith,
      d.1 t,
      own_count-recent fs key t now h,
      all_count-recent fs key t now h,
      count-le (in_window t w) (recent now fs),
    )
    later_of-closes_at now t none (some b) s h d e f = ground (
      arith,
      e.1 t,
      own_count-recent fs key t now h,
      all_count-recent fs key t now h,
      count-le (in_window t w) (own_recent key now fs),
    )
    later_of-closes_at now t (some a) (some b) s h d e f =
        ground
          (arith, d.1 t, e.1 t, own_count-recent fs key t now h, all_count-recent fs key t now h)

    module _ (own : 0 < limits.per_operation) (all : 0 < limits.global) where
      -- With positive limits the breaker never throws.
      evaluate_breaker-Describes :
          (t : ℕ)
          → (own all_keys : Option BreakerState) × (evaluate_breaker fs key limits t w
              ≡ ok (later_of own all_keys))
            × Describes own limits.per_operation (own_recent key t fs)
            × Describes all_keys limits.global (recent t fs)
      evaluate_breaker-Describes t =
          let (a, e, d) =
            open_state-Describes operation (some key) limits.per_operation (sub_ℕ t w)
              (own_recent key t fs) own in
          let (b, f, d') =
            open_state-Describes global none limits.global (sub_ℕ t w) (recent t fs) all in
          (a, b, evaluate_breaker-later_of fs key limits t a b e f, d, d')

      -- With positive limits the breaker lets a job of a key through at a time exactly when, among
      -- the failures in the window that ends then, fewer than the limit of one operation bear the
      -- key, and fewer than the global limit are there in all.
      pub evaluate_breaker-closed_iff :
          (t : ℕ)
          → (evaluate_breaker fs key limits t w ≡ ok none) ↔ (
              (own_count key t fs < limits.per_operation)
              × (count (in_window t w) fs < limits.global))
      evaluate_breaker-closed_iff t =
          let (a, b, e, d, d') = evaluate_breaker-Describes t in
          rw e (later_of-closed_iff t a b d d')

      -- With positive limits, when the breaker stops a job at `now` and no further job fails, it
      -- lets the job through at every time after the `closes_at` that it names, and at no time from
      -- `now` up to it.
      pub evaluate_breaker-closes_at :
          (now t : ℕ) (s : BreakerState)
          → evaluate_breaker fs key limits now w ≡ ok (some s)
          → now ≤ t
          → (evaluate_breaker fs key limits t w ≡ ok none) ↔ (s.closes_at < t)
      evaluate_breaker-closes_at now t s e h =
          let (a, b, f, d, d') = evaluate_breaker-Describes now in
          let later = later_of-closes_at now t a b s h d d' (sym f ∙ e) in
          let closed = evaluate_breaker-closed_iff t in
          (λ c. later.0 (closed.0 c), λ c. closed.1 (later.1 c))

      -- With positive limits the breaker always answers, it never throws.
      pub evaluate_breaker-total :
          (t : ℕ) → (o : Option BreakerState) × (evaluate_breaker fs key limits t w ≡ ok o)
      evaluate_breaker-total t =
          let (a, b, e, d, d') = evaluate_breaker-Describes t in (later_of a b, e)

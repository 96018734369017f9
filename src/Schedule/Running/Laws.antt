-- ===== src/Schedule/Running/Laws.antt =====
-- apps/api/src/app.ts: what the scheduler dispatches without an operator.
use mathlib.Core.Path.{subst}
use text.Mathlib.TextEquality.{eq_iff}
use wireguard_ops_cockpit.Base.{
  suc, ◌+◌, ◌≤◌, ◌++◌, length, any, ℕ, ◌≡◌, ◌≢◌, refl, sym, ap, ◌∙◌, String, true, false, Option,
  none, some, List, [], ◌∷◌, ◌==◌, ◌!=◌, ◌&&◌, if-cases, arith, Option-cases, ◌⊎◌, inl, inr,
  string_eq, option_eq,
}
use wireguard_ops_cockpit.Base.Actions.{Action, Result-cases, bound, ◌>>◌}
use wireguard_ops_cockpit.Base.Tables.{by_key, by_key-key}
use wireguard_ops_cockpit.Plan.{Config, World, Launch}
use wireguard_ops_cockpit.Plan.Dispatching.{StartsIn}
use wireguard_ops_cockpit.Plan.Quiet.{IsQuiet}
use wireguard_ops_cockpit.Plan.Requests.Laws.{get_session_for_actor-lem}
use wireguard_ops_cockpit.Plan.Reviewing.{is_high_risk_runbook}
use wireguard_ops_cockpit.Registry.{Runbook, find_runbook}
use wireguard_ops_cockpit.Registry.Encoding.{compute_runbook_version_hash}
use wireguard_ops_cockpit.Schedule.Requests.{is_auto}
use wireguard_ops_cockpit.Schedule.Running.{
  Target, is_passed, check_schedule, process_target, process_schedule, process_all,
  process_due_scheduled_runbooks,
}
use wireguard_ops_cockpit.Store.{Db, SessionRow, ScheduleRow, Review}
use wireguard_ops_cockpit.Store.Accounts.{Actor, get_user_by_id, user_id, summary}
use wireguard_ops_cockpit.Store.Schedules.{
  list_due_scheduled_runbooks, list_due_scheduled_runbooks-due,
}
use wireguard_ops_cockpit.Store.Sessions.{get_session_for_actor}
use wireguard_ops_cockpit.Schedule.Running.Carrying.{
  pause_unresolved-IsQuiet, pause_changed-IsQuiet, pause_high_risk-IsQuiet, run_schedule-starts,
}

get_user_by_id-lem :
    {O : Type 0} (db : Db O) (id : String) (actor : Actor)
    → get_user_by_id db id ≡ some actor
    → actor.id ≡ id
unfolding get_user_by_id
get_user_by_id-lem db id actor found = elim (Option-cases (by_key user_id id db.users)) [
  | inl missing ↦ absurd (ground arith)
  | inr (user, present) ↦
      let same = by_key-key user_id id db.users user present in
      let summarized : summary user ≡ actor = ground arith in
      ap (λ (a : Actor). a.id) (sym summarized) ∙ same
]

-- What the scheduler has checked of a schedule that it dispatches.
abbrev pub Scheduled : Config → ScheduleRow → Review → World → List Launch → Type 0
Scheduled config schedule safety w after =
    (actor : Actor) × (runbook : Runbook) × (session : SessionRow) × (get_user_by_id w.db
        schedule.owner_id
      ≡ some actor)
    × (find_runbook w.registry schedule.runbook_id ≡ some runbook)
    × (get_session_for_actor w.db schedule.session_id schedule.owner_id ≡ some session)
    × (compute_runbook_version_hash config.digest w.registry runbook
        ≡ schedule.runbook_version_hash)
    × (is_high_risk_runbook runbook ≡ false)
    × (is_auto schedule.effective_mode ≡ true)
    × (is_passed safety.verdict ≡ true)
    × StartsIn session.tmux_session_name w.launched after

module _ (config : Config) (now : ℕ) (schedule : ScheduleRow) (safety : Review) (w : World) where
  check_schedule-Scheduled :
      (actor : Actor) (runbook : Runbook) (session : SessionRow)
      → get_user_by_id w.db schedule.owner_id ≡ some actor
      → find_runbook w.registry schedule.runbook_id ≡ some runbook
      → get_session_for_actor w.db schedule.session_id schedule.owner_id ≡ some session
      → ((check_schedule config now schedule
            (record { actor = actor; runbook = runbook; session = session })
            (compute_runbook_version_hash config.digest w.registry runbook)
            safety
            w).1.launched
          ≡ w.launched)
        ⊎ Scheduled config schedule safety w
            (check_schedule config now schedule
              (record { actor = actor; runbook = runbook; session = session })
              (compute_runbook_version_hash config.digest w.registry runbook)
              safety
              w).1.launched
  unfolding check_schedule IsQuiet
  check_schedule-Scheduled actor runbook session is_owner registered owned =
      let target : Target = record { actor = actor; runbook = runbook; session = session } in
      let current = compute_runbook_version_hash config.digest w.registry runbook in
      let Goal : Action World (Unit {0}) → Type 0 = λ n.
        ((n w).1.launched ≡ w.launched) ⊎ Scheduled config schedule safety w (n w).1.launched in
      (if-cases Goal (current != schedule.runbook_version_hash) _ _
        (λ changed. inl (pause_changed-IsQuiet config now schedule target current w))
        (λ unchanged.
          if-cases Goal (is_high_risk_runbook runbook && is_auto schedule.effective_mode) _ _
            (λ risky. inl (pause_high_risk-IsQuiet config now schedule target w))
            (λ allowed.
              elim (run_schedule-starts config now schedule target safety w (
                subst (λ k. get_session_for_actor w.db session.id k ≡ some session)
                  (sym (get_user_by_id-lem w.db schedule.owner_id actor is_owner))
                  (get_session_for_actor-lem w.db schedule.session_id schedule.owner_id session
                    owned))) [
                      | inl idle ↦ inl idle
                      | inr (auto, passed, starts) ↦ inr (
                        actor,
                        runbook,
                        session,
                        is_owner,
                        registered,
                        owned,
                        ground (arith, eq_iff current schedule.runbook_version_hash),
                        ground arith,
                        auto,
                        passed,
                        starts,
                      )
                    ])))

  process_target-Scheduled :
      (actor : Option Actor) (found : Option Runbook) (session : Option SessionRow)
      → get_user_by_id w.db schedule.owner_id ≡ actor
      → find_runbook w.registry schedule.runbook_id ≡ found
      → get_session_for_actor w.db schedule.session_id schedule.owner_id ≡ session
      → ((process_target config now schedule actor found session safety w).1.launched ≡ w.launched)
        ⊎ Scheduled config schedule safety w
            (process_target config now schedule actor found session safety w).1.launched
  unfolding process_target IsQuiet
  process_target-Scheduled none found session a b c =
      inl (pause_unresolved-IsQuiet config now schedule none found session w)
  process_target-Scheduled (some actor) none session a b c =
      inl (pause_unresolved-IsQuiet config now schedule (some actor) none session w)
  process_target-Scheduled (some actor) (some runbook) none a b c =
      inl (pause_unresolved-IsQuiet config now schedule (some actor) (some runbook) none w)
  process_target-Scheduled (some actor) (some runbook) (some session) a b c =
      check_schedule-Scheduled actor runbook session a b c

  process_schedule-cases :
      ((process_schedule config now schedule safety w).1.launched ≡ w.launched)
      ⊎ Scheduled config schedule safety w
          (process_schedule config now schedule safety w).1.launched
  unfolding process_schedule
  process_schedule-cases = process_target-Scheduled _ _ _ refl refl refl

  -- If the scheduler starts a command for a schedule, then its owner, runbook and session are there,
  -- the runbook is the version that was reviewed and not a high risk, the schedule may dispatch by
  -- itself, the safety review has passed, and what is started is one command in that session.
  pub process_schedule-starts :
      (process_schedule config now schedule safety w).1.launched ≢ w.launched
      → Scheduled config schedule safety w
          (process_schedule config now schedule safety w).1.launched
  process_schedule-starts starts = elim process_schedule-cases [
    | inl idle ↦ absurd (starts idle)
    | inr checked ↦ checked
  ]

length-snoc : {A : Type 0} (xs : List A) (x : A) → length (xs ++ x ∷ []) ≡ suc (length xs)
length-snoc [] x = refl
length-snoc (y ∷ ys) x = ap suc (length-snoc ys x)

StartsIn-length :
    (name : String) (before after : List Launch)
    → StartsIn name before after
    → length after ≤ suc (length before)
unfolding StartsIn
StartsIn-length name before after (inl idle) =
    subst (λ l. length l ≤ suc (length before)) (sym idle) (omega arith)
StartsIn-length name before after (inr (window, command, one)) =
    subst (λ l. length l ≤ suc (length before)) (sym one)
      (omega
        (arith, length-snoc before (record { session = name; window = window; command = command })))

module _ (config : Config) (now : ℕ) where
  length-process_schedule :
      (schedule : ScheduleRow) (safety : Review) (w : World)
      → length (process_schedule config now schedule safety w).1.launched ≤ suc (length w.launched)
  length-process_schedule schedule safety w =
      elim (process_schedule-cases config now schedule safety w) [
        | inl idle ↦ subst (λ l. length l ≤ suc (length w.launched)) (sym idle) (omega arith)
        | inr (actor, runbook, session, a, b, c, d, e, f, g, starts) ↦
            StartsIn-length session.tmux_session_name w.launched _ starts
      ]

  length-process_all :
      (locks : List String) (review_of : ScheduleRow → Review) (rows : List ScheduleRow) (w : World)
      → length (process_all config now locks review_of rows w).1.launched
        ≤ length rows + length w.launched
  unfolding process_all
  length-process_all locks review_of [] w = omega arith
  length-process_all locks review_of (schedule ∷ rows) w =
      let rest = process_all config now locks review_of rows in
      let bound_by : ℕ = suc (length rows) + length w.launched in
      if-cases (λ (m : Action World (Unit {0})). length (m w).1.launched ≤ bound_by)
        (any (λ id. id == schedule.id) locks) _ _
        (λ locked. omega (arith, length-process_all locks review_of rows w))
        (λ taken.
          let one = length-process_schedule schedule (review_of schedule) w in
          elim (Result-cases (process_schedule config now schedule (review_of schedule) w)) [
            | inl (t, s, e) ↦
                let before = ap (λ p. length p.1.launched) e in
                let after : length
                      ((process_schedule config now schedule (review_of schedule) >> rest)
                        w).1.launched
                    ≡ length (rest s).1.launched =
                  ap (λ p. length (bound (λ x. rest) p).1.launched) e in
                omega (arith, one, before, after, length-process_all locks review_of rows s)
            | inr (message, s, e) ↦
                let before = ap (λ p. length p.1.launched) e in
                let after : length
                      ((process_schedule config now schedule (review_of schedule) >> rest)
                        w).1.launched
                    ≡ length s.launched =
                  ap (λ p. length (bound (λ x. rest) p).1.launched) e in
                omega (arith, one, before, after)
          ])

  -- A run of the scheduler starts at most one command for each due schedule, and at most 25.
  pub length-process_due_scheduled_runbooks :
      (locks : List String) (review_of : ScheduleRow → Review) (w : World)
      → (length (process_due_scheduled_runbooks config now locks review_of w).1.launched
          ≤ length w.launched + length (list_due_scheduled_runbooks w.db now 25))
        × (length (process_due_scheduled_runbooks config now locks review_of w).1.launched
            ≤ length w.launched + 25)
  unfolding process_due_scheduled_runbooks
  length-process_due_scheduled_runbooks locks review_of w =
      let all = length-process_all locks review_of (list_due_scheduled_runbooks w.db now 25) w in
      let few = (list_due_scheduled_runbooks-due w.db now 25).1 in
      (omega (arith, all), omega (arith, all, few))

-- ===== src/Plan/Checkpoints/Laws.antt =====
-- app.ts: the stored checkpoints of a job stay in their order over the requests that advance them.
use mathlib.Core.Option
use mathlib.Core.Path.{subst}
use text.Mathlib.TextEquality.{eq_iff}
use wireguard_ops_cockpit.Base.{
  ℕ, suc, ◌≡◌, ◌≢◌, refl, sym, ap, ◌∙◌, String, false, not, Option, none, some, List, [], ◌∷◌,
  if-cases, arith, Bool-cases, Option-cases, inl, inr, All, map, filter_map, length, ◌==◌, ◌!=◌,
  nat_eq, option_eq, string_eq,
}
use wireguard_ops_cockpit.Base.Json.{
  Json, Fields, end, lookup, arr, of_list, str, spread, set_field, as_array, as_object, as_string,
}
use wireguard_ops_cockpit.Base.Actions.{Action, or_return-cases}
use wireguard_ops_cockpit.Base.Tables.{by_key-key}
use wireguard_ops_cockpit.Base.Spreading.{lookup-set_field_self, lookup-set_field_ne}
use wireguard_ops_cockpit.Base.Options.{>>=-some}
use wireguard_ops_cockpit.Checkpoint.{
  State, Advanced, parse_state_value, parse_state_entry, parse_runbook_id, parse_kind, parse_status,
  advance_state, completed, is_planned,
}
use wireguard_ops_cockpit.Checkpoint.Parsing.{IsWellFormed, to_json, parse_state_value-to_json}
use wireguard_ops_cockpit.Checkpoint.Staged.{
  IsStaged, completed_count, advanced, wake, advance_state-advanced, advance_state-IsStaged,
}
use wireguard_ops_cockpit.Plan.{Config, World, Job, audit, patch_job, touch_session, Reply}
use wireguard_ops_cockpit.Plan.Checkpoints.{
  advanced_output, advanced_patch, agent_name, output_of, store_advanced, advance_job_checkpoint,
  advance_for_actor, is_agent, advance_checkpoint, checkpoint_summary,
}
use wireguard_ops_cockpit.Registry.Encoding.{str_or_null}
use wireguard_ops_cockpit.Store.{Db, JobRow, SessionRow}
use wireguard_ops_cockpit.Store.Accounts.{Actor}
use wireguard_ops_cockpit.Store.Audits.{create_audit}
use wireguard_ops_cockpit.Store.Jobs.{get_job, job_id, patched, update_job-some, get_job-update_job}
use wireguard_ops_cockpit.Store.Sessions.{get_session_for_actor, record_session_activity}

parse_runbook_id-lem :
    (v : Option Json) (r : Option String) → parse_runbook_id v ≡ some r → r ≢ some ""
unfolding parse_runbook_id
parse_runbook_id-lem none r h = ground arith
parse_runbook_id-lem (some (str s)) r h = ground (arith, eq_iff s "")
parse_runbook_id-lem _ r h = absurd (ground arith)

-- What is parsed has no empty runbook id.
parse_state_entry-IsWellFormed :
    (entry : Json) (c : State) → parse_state_entry entry ≡ some c → IsWellFormed c
unfolding parse_state_entry
parse_state_entry-IsWellFormed entry c h =
    let (fs, e1, h1) = >>=-some (as_object entry) _ h in
    let (id, e2, h2) = >>=-some (as_string (lookup "id" fs)) _ h1 in
    let (label, e3, h3) = >>=-some (as_string (lookup "label" fs)) _ h2 in
    let (description, e4, h4) = >>=-some (as_string (lookup "description" fs)) _ h3 in
    let (kind_name, e5, h5) = >>=-some (as_string (lookup "kind" fs)) _ h4 in
    let (status_name, e6, h6) = >>=-some (as_string (lookup "status" fs)) _ h5 in
    let (kind, e7, h7) = >>=-some (parse_kind kind_name) _ h6 in
    let (status, e8, h8) = >>=-some (parse_status status_name) _ h7 in
    let (runbook_id, e9, h9) = >>=-some (parse_runbook_id (lookup "runbookId" fs)) _ h8 in
    let no_empty = parse_runbook_id-lem (lookup "runbookId" fs) runbook_id e9 in ground arith

All-filter_map :
    {A B : Type 0} (P : B → Type 0) (f : A → Option B)
    → ((a : A) (b : B) → f a ≡ some b → P b)
    → (xs : List A) → All P (filter_map f xs)
All-filter_map P f h [] = tt
All-filter_map P f h (x ∷ xs) = elim (Option-cases (f x)) [
  | inl dropped ↦ rw (dropped, All) (All-filter_map P f h xs)
  | inr (b, kept) ↦ rw (kept, All) (h x b kept, All-filter_map P f h xs)
]

wake-IsWellFormed : (cs : List State) → All IsWellFormed cs → All IsWellFormed (wake cs)
unfolding wake
wake-IsWellFormed [] h = tt
wake-IsWellFormed (c ∷ cs) (p, h) =
    (if-cases (λ (d : State). IsWellFormed d) (is_planned c.status) _ _ (λ e. p) (λ e. p), h)

advanced-IsWellFormed :
    (cs : List State) (id : String) (cs' : List State)
    → All IsWellFormed cs
    → advanced cs id ≡ some cs'
    → All IsWellFormed cs'
unfolding advanced
advanced-IsWellFormed [] id cs' h e = absurd (ground arith)
advanced-IsWellFormed (c ∷ cs) id cs' (p, h) e = elim (Bool-cases (c.id == id)) [
  | inl here ↦
      let same : record c { status = completed } ∷ wake cs ≡ cs' = ground arith in
      subst (All IsWellFormed) same (p, wake-IsWellFormed cs h)
  | inr later ↦ elim (Option-cases (advanced cs id)) [
    | inl stuck ↦ absurd (ground arith)
    | inr (ds, ih) ↦
        let same : c ∷ ds ≡ cs' = ground arith in
        subst (All IsWellFormed) same (p, advanced-IsWellFormed cs id ds h ih)
  ]
]

pub texts_differ : (a b : String) → (a == b) ≡ false → a ≢ b
texts_differ a b h same = (let equal = (eq_iff a b).1 same in absurd (ground arith))

lookup-advanced_output :
    (name : String) (output : Fields) (id : String) (a : Advanced)
    → lookup "checkpoints" (advanced_output name output id a)
      ≡ some (arr (of_list (map to_json a.checkpoints)))
unfolding advanced_output spread
lookup-advanced_output name output id a =
    let listed : Json = arr (of_list (map to_json a.checkpoints)) in
    let active = str_or_null a.active_checkpoint_id in
    let summarized = set_field "summary" (str (checkpoint_summary name a)) output in
    let held = set_field "checkpoints" listed summarized in
    let pointed = set_field "activeCheckpointId" active held in
    let ended = set_field "lastCompletedCheckpointId" (str id) pointed in
    lookup-set_field_ne "lastCompletedCheckpointLabel" "checkpoints"
      (str a.completed_checkpoint_label) ended (texts_differ _ _ refl)
    ∙ lookup-set_field_ne "lastCompletedCheckpointId" "checkpoints" (str id) pointed
        (texts_differ _ _ refl)
    ∙ lookup-set_field_ne "activeCheckpointId" "checkpoints" active held (texts_differ _ _ refl)
    ∙ lookup-set_field_self "checkpoints" listed summarized

-- The checkpoints that a job's output holds.
abbrev pub checkpoints_of_job : Job → List State
checkpoints_of_job job = parse_state_value (lookup "checkpoints" (output_of job))

entries-IsWellFormed :
    (o : Option (List Json))
    → All IsWellFormed (elim o [ none ↦ [] | some entries ↦ filter_map parse_state_entry entries ])
entries-IsWellFormed none = tt
entries-IsWellFormed (some entries) =
    All-filter_map IsWellFormed parse_state_entry parse_state_entry-IsWellFormed entries

parse_state_value-IsWellFormed : (v : Option Json) → All IsWellFormed (parse_state_value v)
unfolding parse_state_value
parse_state_value-IsWellFormed v = entries-IsWellFormed (as_array v)

-- The stored output of an advance is read back as the checkpoints of the advance.
checkpoints_of_job-advanced :
    (name : String) (job job' : Job) (id : String) (a : Advanced)
    → advance_state (checkpoints_of_job job) id ≡ some a
    → job'.output ≡ some (advanced_output name (output_of job) id a)
    → checkpoints_of_job job' ≡ a.checkpoints
checkpoints_of_job-advanced name job job' id a advance out =
    let formed =
      advanced-IsWellFormed (checkpoints_of_job job) id a.checkpoints
        (parse_state_value-IsWellFormed (lookup "checkpoints" (output_of job)))
        (advance_state-advanced (checkpoints_of_job job) id a advance) in
    ap (λ o. parse_state_value (lookup "checkpoints" (Option.get_or o end))) out
    ∙ ap parse_state_value (lookup-advanced_output name (output_of job) id a)
    ∙ parse_state_value-to_json a.checkpoints formed

get_job-id :
    {O : Type 0} (db : Db O) (id : String) (job : JobRow O) → get_job db id ≡ some job → job.id ≡ id
unfolding get_job
get_job-id db id job found = by_key-key job_id id db.jobs job found

module _ (config : Config) (now : ℕ) (actor : Actor) (w : World) where
  -- What an advance makes of the job.
  abbrev pub AdvancedJob : Job → World → Type 0
  AdvancedJob job w' =
      (job' : Job) × (get_job w'.db job.id ≡ some job')
      × (job'.status ≡ job.status)
      × (IsStaged (checkpoints_of_job job')
          × (completed_count (checkpoints_of_job job')
              ≡ suc (completed_count (checkpoints_of_job job)))
          × (length (checkpoints_of_job job') ≡ length (checkpoints_of_job job)))

  store_advanced-AdvancedJob :
      (job : Job) (session : SessionRow) (id : String) (a : Advanced)
      → get_job w.db job.id ≡ some job
      → IsStaged (checkpoints_of_job job)
      → advance_state (checkpoints_of_job job) id ≡ some a
      → AdvancedJob job (store_advanced config now actor job session id a w).1
  unfolding store_advanced patch_job touch_session audit create_audit record_session_activity
      get_job
  store_advanced-AdvancedJob job session id a found staged advance =
      let name = agent_name w.registry job.subject_id in
      let patch = advanced_patch name job id a in
      let (db1, done) = update_job-some w.db job.id now patch job found in
      let job' = patched patch now job in
      let kept = (get_job-update_job w.db db1 job.id job.id now patch job' done).0 in
      let read = checkpoints_of_job-advanced name job job' id a advance refl in
      (
        job',
        rw done kept,
        refl,
        subst
            (λ cs.
              IsStaged cs
              × (completed_count cs ≡ suc (completed_count (checkpoints_of_job job)))
              × (length cs ≡ length (checkpoints_of_job job)))
            (sym read) (advance_state-IsStaged (checkpoints_of_job job) id a staged advance),
      )

  Advances : Job → Action World Reply → Type 0
  Advances job m = (m w).1 ≢ w → AdvancedJob job (m w).1

  advance_for_actor-Advances :
      (id : String) (job : Job)
      → get_job w.db job.id ≡ some job
      → IsStaged (checkpoints_of_job job)
      → Advances job (advance_for_actor config now actor id job)
  unfolding advance_for_actor advance_job_checkpoint Advances
  advance_for_actor-Advances id job found staged =
      or_return-cases (Advances job) _ job.session_id _ (λ missing changes. absurd (changes refl))
        (λ session_id linked.
          or_return-cases (Advances job) _ (get_session_for_actor w.db session_id actor.id) _
            (λ missing changes. absurd (changes refl))
            (λ session owned.
              if-cases (Advances job) (not (is_agent job.kind)) _ _
                (λ other changes. absurd (changes refl))
                (λ supervised.
                  if-cases (Advances job) (length (checkpoints_of_job job) == 0) _ _
                    (λ bare changes. absurd (changes refl))
                    (λ filled.
                      if-cases (Advances job)
                        (as_string (lookup "activeCheckpointId" (output_of job)) != some id) _ _
                        (λ elsewhere changes. absurd (changes refl))
                        (λ awaited.
                          or_return-cases (Advances job) _
                            (advance_state (checkpoints_of_job job) id) _
                            (λ stuck changes. absurd (changes refl))
                            (λ a advance changes.
                              store_advanced-AdvancedJob job session id a found staged advance))))))

  -- A request that changes anything advances the stored checkpoints of a job: if they were in order,
  -- they stay so, exactly one more is completed, none is added or dropped, and the status of the job
  -- stays.
  pub advance_checkpoint-staged :
      (job_id id : String) (job : Job)
      → get_job w.db job_id ≡ some job
      → IsStaged (checkpoints_of_job job)
      → (advance_checkpoint config now actor job_id id w).1 ≢ w
      → AdvancedJob job (advance_checkpoint config now actor job_id id w).1
  unfolding advance_checkpoint Advances
  advance_checkpoint-staged job_id id job found staged =
      let here : get_job w.db job.id ≡ some job =
        subst (λ k. get_job w.db k ≡ some job) (sym (get_job-id w.db job_id job found)) found in
      or_return-cases (Advances job) _ (get_job w.db job_id) _
        (λ missing changes. absurd (changes refl))
        (λ other present.
          let is_job : other ≡ job = ground (arith, sym present ∙ found) in
          subst (λ j. Advances job (advance_for_actor config now actor id j)) (sym is_job)
            (advance_for_actor-Advances id job here staged))

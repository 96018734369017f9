-- ===== src/Store/Listings.antt =====
-- db.ts: the listings that a limit or an owner cuts, newest first. The order of rows of one second is
-- left open by the queries; here the later row comes first.
use Prim.Native.Nat.{min}
use wireguard_ops_cockpit.Base.{
  ℕ, zero, suc, ◌+◌, ◌/◌, ◌≡◌, ◌∙◌, ap, String, Bool, Option, none, some, List, [], ◌∷◌, ◌==◌, ◌&&◌,
  leb, string_eq, option_eq, nat_eq, filter, count, length, length-filter, arith,
}
use wireguard_ops_cockpit.Base.Json.{lookup, as_string}
use wireguard_ops_cockpit.Base.Sorting.{sort_by, length-sort_by}
use wireguard_ops_cockpit.Base.Tables.{limit, by_key}
use wireguard_ops_cockpit.Store.{
  Db, SessionRow, JobRow, ApprovalRow, ApprovalStatus, AuditRow, PlanRow, ScheduleRow,
}

-- `ORDER BY datetime(…) DESC`
abbrev pub append_reversed : {A : Type 0} → List A → List A → List A
append_reversed [] ys = ys
append_reversed (x ∷ xs) ys = append_reversed xs (x ∷ ys)

unfoldable pub newest_first : {A : Type 0} → (A → ℕ) → List A → List A
newest_first time rows = append_reversed (sort_by (λ row. time row / 1000) rows) []

abbrev pub approval_code : ApprovalStatus → ℕ
approval_code ApprovalStatus.pending = 0
approval_code ApprovalStatus.approved = 1
approval_code ApprovalStatus.rejected = 2

abbrev pub is_audit_since : String → ℕ → AuditRow → Bool
is_audit_since action since a = a.action == action && leb (since / 1000) (a.created_at / 1000)

module _ {O : Type 0} (db : Db O) where
  -- The newest activity first, and among those of one second the newest session.
  unfoldable pub list_sessions : List SessionRow
  list_sessions =
      newest_first (λ s. s.last_activity_at) (sort_by (λ s. s.created_at / 1000) db.sessions)

  unfoldable pub list_sessions_for_actor : String → List SessionRow
  list_sessions_for_actor actor_id =
      newest_first (λ s. s.last_activity_at)
        (sort_by (λ s. s.created_at / 1000) (filter (λ s. s.owner_id == some actor_id) db.sessions))

  unfoldable pub list_recent_jobs : String → ℕ → List (JobRow O)
  list_recent_jobs subject_id n =
      limit n
        (newest_first (λ j. j.updated_at) (filter (λ j. j.subject_id == some subject_id) db.jobs))

  unfoldable pub list_jobs_for_session : String → List (JobRow O)
  list_jobs_for_session session_id =
      newest_first (λ j. j.created_at) (filter (λ j. j.session_id == some session_id) db.jobs)

  unfoldable pub list_execution_plans_for_session : String → List PlanRow
  list_execution_plans_for_session session_id =
      newest_first (λ p. p.created_at) (filter (λ p. p.session_id == some session_id) db.plans)

  unfoldable pub list_approvals : Option ApprovalStatus → List ApprovalRow
  list_approvals none = newest_first (λ a. a.created_at) db.approvals
  list_approvals (some status) =
      newest_first (λ a. a.created_at)
        (filter (λ a. approval_code a.status == approval_code status) db.approvals)

  unfoldable pub list_approvals_for_actor : String → Option ApprovalStatus → List ApprovalRow
  list_approvals_for_actor actor_id none =
      newest_first (λ a. a.created_at) (filter (λ a. a.requested_by == actor_id) db.approvals)
  list_approvals_for_actor actor_id (some status) =
      newest_first (λ a. a.created_at)
        (filter (λ a. a.requested_by == actor_id && approval_code a.status == approval_code status)
          db.approvals)

  unfoldable pub list_scheduled_runbooks_for_actor : String → List ScheduleRow
  list_scheduled_runbooks_for_actor actor_id =
      newest_first (λ s. s.created_at) (filter (λ s. s.owner_id == actor_id) db.schedules)

  unfoldable pub list_audits : ℕ → List AuditRow
  list_audits n = limit n (newest_first (λ a. a.created_at) db.audits)

  unfoldable pub list_audits_for_actor : String → ℕ → List AuditRow
  list_audits_for_actor actor_id n =
      limit n
        (newest_first (λ a. a.created_at) (filter (λ a. a.actor_id == some actor_id) db.audits))

  unfoldable pub count_audits_since : String → ℕ → ℕ
  count_audits_since action since = count (is_audit_since action since) db.audits

  unfoldable pub count_audits_since_for_runtime : String → ℕ → String → ℕ
  count_audits_since_for_runtime action since runtime =
      count
        (λ a.
          is_audit_since action since a
          && as_string (lookup "runtimeFingerprint" a.details) == some runtime)
        db.audits

  unfoldable pub list_audits_since : String → ℕ → ℕ → List AuditRow
  list_audits_since action since n =
      limit n (newest_first (λ a. a.created_at) (filter (is_audit_since action since) db.audits))

  unfoldable pub get_audit : String → Option AuditRow
  get_audit id = by_key (λ (a : AuditRow). a.id) id db.audits

length-append_reversed :
    {A : Type 0} (xs ys : List A) → length (append_reversed xs ys) ≡ length xs + length ys
length-append_reversed [] ys = omega arith
length-append_reversed (x ∷ xs) ys = omega (arith, length-append_reversed xs (x ∷ ys))

length-newest_first :
    {A : Type 0} (time : A → ℕ) (rows : List A) → length (newest_first time rows) ≡ length rows
unfolding newest_first
length-newest_first time rows = omega (
  arith,
  length-append_reversed (sort_by (λ row. time row / 1000) rows) [],
  length-sort_by (λ row. time row / 1000) rows,
)

length-limit_min : {A : Type 0} (n : ℕ) (xs : List A) → length (limit n xs) ≡ min n (length xs)
length-limit_min zero xs = omega arith
length-limit_min (suc n) [] = omega arith
length-limit_min (suc n) (x ∷ xs) = omega (arith, length-limit_min n xs)

-- The list of the audits of an action since a time has as many rows as the count of them, up to the
-- limit.
pub length-list_audits_since :
    {O : Type 0} (db : Db O) (action : String) (since n : ℕ)
    → length (list_audits_since db action since n) ≡ min n (count_audits_since db action since)
unfolding list_audits_since count_audits_since
length-list_audits_since db action since n =
    let rows = filter (is_audit_since action since) db.audits in
    length-limit_min n (newest_first (λ a. a.created_at) rows)
    ∙ ap (min n) (
        length-newest_first (λ a. a.created_at) rows
        ∙ length-filter (is_audit_since action since) db.audits)

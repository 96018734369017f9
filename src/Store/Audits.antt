-- ===== src/Store/Audits.antt =====
-- db.ts: the audit log.
use wireguard_ops_cockpit.Base.{
  suc, ◌+◌, if◌then◌else◌, ap, ◌≡◌, refl, [], ◌∷◌, length, count, length-filter, ℕ, String, Bool,
  Option, none, some, List, ◌==◌, ◌&&◌, ◌/◌, leb, string_eq, option_eq, filter, any, map,
}
use wireguard_ops_cockpit.Base.Json.{Fields, lookup, as_string}
use wireguard_ops_cockpit.Base.Tables.{insert, count-insert}
use wireguard_ops_cockpit.Base.Sorting.{sort_by, length-sort_by}
use wireguard_ops_cockpit.Store.{Db, AuditRow}
use wireguard_ops_cockpit.Breaker.{BreakerFailure}

pub record NewAudit : Type 0 where
  pub actor_id : Option String
  pub action : String
  pub target_type : String
  pub target_id : Option String
  pub details : Fields

-- `target_id ?? ""`
abbrev pub text_or_empty : Option String → String
text_or_empty (some s) = s
text_or_empty none = ""

abbrev pub change_failure : AuditRow → BreakerFailure
change_failure a = record {
  job_id = text_or_empty a.target_id;
  time = a.created_at;
  key = as_string (lookup "breakerKey" a.details);
}

-- The rows that the breaker reads. SQLite's `datetime` cuts a time to seconds.
abbrev pub is_failure_since : ℕ → String → AuditRow → Bool
is_failure_since since runtime a =
    a.action == "hermes.change.failed"
    && (leb (since / 1000) (a.created_at / 1000)
        && as_string (lookup "runtimeFingerprint" a.details) == some runtime)

length-map : {A B : Type 0} (f : A → B) (xs : List A) → length (map f xs) ≡ length xs
length-map f [] = refl
length-map f (x ∷ xs) = ap suc (length-map f xs)

abbrev pub audit_row : String → ℕ → NewAudit → AuditRow
audit_row id now input = record {
  id = id;
  actor_id = input.actor_id;
  action = input.action;
  target_type = input.target_type;
  target_id = input.target_id;
  details = input.details;
  created_at = now;
}

module _ {O : Type 0} where
  unfoldable pub create_audit : Db O → String → ℕ → NewAudit → Db O
  create_audit db id now input = record db { audits = insert (audit_row id now input) db.audits }

  pub count-create_audit :
      (p : AuditRow → Bool) (db : Db O) (id : String) (now : ℕ) (input : NewAudit)
      → count p (create_audit db id now input).audits
        ≡ count p db.audits + (if p (audit_row id now input) then 1 else 0)
  unfolding create_audit
  count-create_audit p db id now input = count-insert p (audit_row id now input) db.audits

  unfoldable pub has_audit : Db O → String → String → Bool
  has_audit db action target_id =
      any (λ a. a.action == action && a.target_id == some target_id) db.audits

  unfoldable pub list_change_failures_since : Db O → ℕ → String → List BreakerFailure
  unfolding sort_by
  list_change_failures_since db since runtime =
      map change_failure
        (sort_by (λ a. a.created_at / 1000) (filter (is_failure_since since runtime) db.audits))

  -- The breaker reads as many failures as there are such rows.
  pub length-list_change_failures_since :
      (db : Db O) (since : ℕ) (runtime : String)
      → length (list_change_failures_since db since runtime)
        ≡ count (is_failure_since since runtime) db.audits
  unfolding list_change_failures_since
  length-list_change_failures_since db since runtime =
      rw
        (
          length-map change_failure (
              sort_by (λ a. a.created_at / 1000)
                (filter (is_failure_since since runtime) db.audits)),
          length-sort_by (λ a. a.created_at / 1000)
              (filter (is_failure_since since runtime) db.audits),
          length-filter (is_failure_since since runtime) db.audits,
        )
        refl

-- ===== src/Store/Approvals.antt =====
-- db.ts: the table of the approvals.
use mathlib.Core.Option
use wireguard_ops_cockpit.Base.{ℕ, ◌≡◌, ◌≢◌, refl, String, Option, none, some, ◌==◌, string_eq}
use wireguard_ops_cockpit.Base.Tables.{update, insert, by_key, by_key-update_self, by_key-update_ne}
use wireguard_ops_cockpit.Store.{Db, ApprovalRow, ApprovalStatus}

abbrev pub approval_id : ApprovalRow → String
approval_id a = a.id

abbrev pub decided : ApprovalStatus → String → Option String → ℕ → ApprovalRow → ApprovalRow
decided status decided_by reason now a = record a {
  status = status;
  decided_by = some decided_by;
  reason = reason;
  decided_at = some now;
}

module _ {O : Type 0} where
  unfoldable pub get_approval : Db O → String → Option ApprovalRow
  get_approval db id = by_key approval_id id db.approvals

  unfoldable pub create_approval :
      Db O → String → ℕ → String → String → Option String → Db O × ApprovalRow
  create_approval db id now job_id requested_by reason =
      let approval : ApprovalRow = record {
        id = id;
        job_id = job_id;
        status = ApprovalStatus.pending;
        requested_by = requested_by;
        decided_by = none;
        reason = reason;
        created_at = now;
        decided_at = none;
      } in
      (record db { approvals = insert approval db.approvals }, approval)

  -- `decideApproval`, without the row that it reads back
  unfoldable pub decide_approval :
      Db O → String → ApprovalStatus → String → Option String → ℕ → Db O
  decide_approval db id status decided_by reason now = record db {
    approvals = update (λ a. a.id == id) (decided status decided_by reason now) db.approvals;
  }

  -- The decided row is found decided, and the other approvals as they were.
  pub get_approval-decide_approval :
      (db : Db O) (id j : String) (status : ApprovalStatus) (by : String) (reason : Option String)
      (now : ℕ)
      → (get_approval (decide_approval db id status by reason now) id
          ≡ Option.map (decided status by reason now) (get_approval db id))
        × (j ≢ id → get_approval (decide_approval db id status by reason now) j ≡ get_approval db j)
  unfolding get_approval decide_approval
  get_approval-decide_approval db id j status by reason now = (
    by_key-update_self approval_id (decided status by reason now) (λ a. refl) id db.approvals,
    λ ne.
        by_key-update_ne approval_id (decided status by reason now) (λ a. refl) id j ne
          db.approvals,
  )

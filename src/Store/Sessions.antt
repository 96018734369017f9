-- ===== src/Store/Sessions.antt =====
-- db.ts: the table of the cockpit sessions.
pub mod Sync
use mathlib.Core.Option
use wireguard_ops_cockpit.Base.{
  ℕ, ◌≡◌, ◌≢◌, refl, String, Bool, true, false, Option, none, some, List, [], ◌∷◌, ◌==◌, ◌!=◌, ◌&&◌,
  if◌then◌else◌, string_eq, nat_eq, option_eq, arith, not, find, filter, any,
}
use wireguard_ops_cockpit.Base.Options.{◌>>=◌}
use wireguard_ops_cockpit.Base.Tables.{update, insert, by_key}
use wireguard_ops_cockpit.Store.{
  Db, SessionRow, SessionStatus, active, ended, TmuxBackend, tmux, disabled,
}

abbrev pub session_id : SessionRow → String
session_id s = s.id

abbrev pub session_status_code : SessionStatus → ℕ
session_status_code active = 0
session_status_code ended = 1

abbrev pub is_tmux : TmuxBackend → Bool
is_tmux tmux = true
is_tmux disabled = false

-- The input of `upsertSession`.
pub record SessionInput : Type 0 where
  pub name : String
  pub owner_id : String
  pub tmux_session_name : String
  pub tmux_backend : TmuxBackend
  pub terminal_url : Option String

-- `existing.owner_id && existing.owner_id !== input.ownerId`
abbrev pub is_foreign : Option String → String → Bool
is_foreign none owner = false
is_foreign (some o) owner = o != "" && o != owner

abbrev pub revived : SessionInput → ℕ → SessionRow → SessionRow
revived input now s = record s {
  status = active;
  owner_id = some input.owner_id;
  tmux_session_name = input.tmux_session_name;
  tmux_backend = input.tmux_backend;
  terminal_url = input.terminal_url;
  updated_at = now;
  last_activity_at = now;
}

abbrev pub with_status : SessionStatus → ℕ → SessionRow → SessionRow
with_status status now s = record s { status = status; updated_at = now }

abbrev pub status_ne : SessionStatus → SessionStatus → Bool
status_ne a b = session_status_code a != session_status_code b

-- `setSessionStatus`, on the table
unfoldable pub set_status : String → SessionStatus → ℕ → List SessionRow → List SessionRow
set_status id status now =
    update (λ s. s.id == id && status_ne s.status status) (with_status status now)

-- `live.has(row.tmux_session_name) ? "active" : "ended"`
abbrev pub wanted_status : List String → SessionRow → SessionStatus
wanted_status live s = if any (λ name. name == s.tmux_session_name) live then active else ended

-- The loop of `syncTmuxSessionStatus` over the rows that were read: the table, and the ended ids.
unfoldable pub sync_rows :
    List String → ℕ → List SessionRow → List SessionRow → List SessionRow × List String
sync_rows live now [] table = (table, [])
sync_rows live now (row ∷ rows) table =
    let status = wanted_status live row in
    let changes = status_ne row.status status in
    let (table', more) =
      sync_rows live now rows (if changes then set_status row.id status now table else table) in
    (table', if changes && session_status_code status == 1 then row.id ∷ more else more)

module _ {O : Type 0} where
  unfoldable pub get_session_by_id : Db O → String → Option SessionRow
  get_session_by_id db id = by_key session_id id db.sessions

  -- `getSessionByIdForActor` and `getSessionRuntimeTargetForActor`
  unfoldable pub get_session_for_actor : Db O → String → String → Option SessionRow
  get_session_for_actor db id actor_id =
      find (λ s. s.id == id && s.owner_id == some actor_id) db.sessions

  -- `none` is the error "session name already belongs to another operator".
  unfoldable pub upsert_session : Db O → String → ℕ → SessionInput → Option (Db O × SessionRow)
  upsert_session db id now input = elim (find (λ s. s.name == input.name) db.sessions) [
    | some existing ↦
        if is_foreign existing.owner_id input.owner_id
        then none
        else some (
          record db {
            sessions = update (λ s. s.id == existing.id) (revived input now) db.sessions;
          },
          revived input now existing,
        )
    | none ↦
        let session : SessionRow = record {
          id = id;
          name = input.name;
          status = active;
          owner_id = some input.owner_id;
          tmux_session_name = input.tmux_session_name;
          tmux_backend = input.tmux_backend;
          terminal_url = input.terminal_url;
          created_at = now;
          updated_at = now;
          last_activity_at = now;
        } in
        some (record db { sessions = insert session db.sessions }, session)
  ]

  unfoldable pub set_session_status : Db O → String → SessionStatus → ℕ → Db O
  set_session_status db id status now = record db {
    sessions = set_status id status now db.sessions;
  }

  unfoldable pub sync_tmux_session_status : Db O → List String → ℕ → Db O × List String
  unfolding sync_rows
  sync_tmux_session_status db live now =
      let (table, ids) =
        sync_rows live now (filter (λ s. is_tmux s.tmux_backend) db.sessions) db.sessions in
      (record db { sessions = table }, ids)

  unfoldable pub record_session_activity : Db O → String → ℕ → Db O
  record_session_activity db id now = record db {
    sessions =
        update (λ s. s.id == id) (λ s. record s { updated_at = now; last_activity_at = now })
          db.sessions;
  }

  -- `none`: the row that the source reads back is not there.
  unfoldable pub update_session_terminal_url :
      Db O → String → Option String → ℕ → Db O × Option SessionRow
  unfolding get_session_by_id
  update_session_terminal_url db id terminal_url now =
      let db' : Db O = record db {
        sessions =
            update (λ s. s.id == id)
              (λ s. record s { terminal_url = terminal_url; updated_at = now }) db.sessions;
      } in
      (db', get_session_by_id db' id)

-- ===== src/Store/Sessions/Sync.antt =====
-- db.ts, `syncTmuxSessionStatus`: the status of the sessions after a look at tmux.
use text.Mathlib.TextEquality.{eq_iff}
use wireguard_ops_cockpit.Base.{
  ℕ, ◌≡◌, ◌≢◌, refl, sym, String, Bool, true, List, [], ◌∷◌, ◌==◌, ◌&&◌, if◌then◌else◌, string_eq,
  nat_eq, arith, map, filter, All, Bool-cases, inl, inr,
}
use wireguard_ops_cockpit.Store.{Db, SessionRow, SessionStatus}
use wireguard_ops_cockpit.Store.Sessions.{
  session_status_code, is_tmux, status_ne, with_status, set_status, wanted_status, sync_rows,
  sync_tmux_session_status,
}

-- What the sync should make of a row.
abbrev pub synced : List String → ℕ → SessionRow → SessionRow
synced live now s =
    if is_tmux s.tmux_backend && status_ne s.status (wanted_status live s)
    then with_status (wanted_status live s) now s
    else s

-- The sessions that the sync ends.
abbrev pub ending : List String → SessionRow → Bool
ending live s =
    is_tmux s.tmux_backend
    && (status_ne s.status (wanted_status live s)
        && session_status_code (wanted_status live s) == 1)

abbrev pub DistinctIds : List SessionRow → Type 0
DistinctIds [] = Unit
DistinctIds (s ∷ ss) = All (λ t. t.id ≢ s.id) ss × DistinctIds ss

set_status-absent :
    (id : String) (status : SessionStatus) (now : ℕ) (table : List SessionRow)
    → All (λ t. t.id ≢ id) table
    → set_status id status now table ≡ table
unfolding set_status
set_status-absent id status now [] h = refl
set_status-absent id status now (s ∷ ss) (p, h) =
    ground (arith, eq_iff s.id id, set_status-absent id status now ss h)

set_status-cons :
    (id : String) (status : SessionStatus) (now : ℕ) (x : SessionRow) (table : List SessionRow)
    → x.id ≢ id
    → set_status id status now (x ∷ table) ≡ x ∷ set_status id status now table
unfolding set_status
set_status-cons id status now x table h = ground (arith, eq_iff x.id id)

-- A row that the loop does not come to stays in front of the table.
sync_rows-cons :
    (live : List String) (now : ℕ) (rows : List SessionRow) (x : SessionRow)
    (table : List SessionRow)
    → All (λ row. row.id ≢ x.id) rows
    → sync_rows live now rows (x ∷ table)
      ≡ (x ∷ (sync_rows live now rows table).0, (sync_rows live now rows table).1)
unfolding sync_rows
sync_rows-cons live now [] x table h = refl
sync_rows-cons live now (row ∷ rows) x table (p, h) =
    let status = wanted_status live row in
    let kept = set_status-cons row.id status now x table (λ e. p (sym e)) in
    elim (Bool-cases (status_ne row.status status)) [
      | inl changes ↦
          rw (changes, kept, sync_rows-cons live now rows x (set_status row.id status now table) h)
      | inr stays ↦ rw (stays, sync_rows-cons live now rows x table h)
    ]

abbrev tmux_rows : List SessionRow → List SessionRow
tmux_rows = filter (λ s. is_tmux s.tmux_backend)

All-filter :
    (p : SessionRow → Bool) (i : String) (rows : List SessionRow)
    → All (λ t. t.id ≢ i) rows
    → All (λ t. t.id ≢ i) (filter p rows)
All-filter p i [] h = tt
All-filter p i (s ∷ ss) (q, h) = ground (arith, All-filter p i ss h)

set_status-head :
    (status : SessionStatus) (now : ℕ) (s : SessionRow) (ss : List SessionRow)
    → All (λ t. t.id ≢ s.id) ss
    → status_ne s.status status ≡ true
    → set_status s.id status now (s ∷ ss) ≡ with_status status now s ∷ ss
unfolding set_status
set_status-head status now s ss h e =
    ground (arith, eq_iff s.id s.id, set_status-absent s.id status now ss h)

sync_rows-synced :
    (live : List String) (now : ℕ) (rows : List SessionRow)
    → DistinctIds rows
    → sync_rows live now (tmux_rows rows) rows
      ≡ (map (synced live now) rows, map (λ s. s.id) (filter (ending live) rows))
unfolding sync_rows
sync_rows-synced live now [] d = refl
sync_rows-synced live now (s ∷ ss) (q, d) =
    let status = wanted_status live s in
    let ih = sync_rows-synced live now ss d in
    let later = sync_rows-cons live now (tmux_rows ss) in
    elim (Bool-cases (is_tmux s.tmux_backend)) [
      | inr foreign ↦ rw (foreign, later s ss (All-filter _ s.id ss q), ih)
      | inl ours ↦ elim (Bool-cases (status_ne s.status status)) [
        | inl changes ↦
            rw
              (
                ours,
                changes,
                set_status-head status now s ss q changes,
                later (with_status status now s) ss (All-filter _ s.id ss q),
                ih,
              )
              (ground arith)
        | inr stays ↦ rw (ours, stays, later s ss (All-filter _ s.id ss q), ih)
      ]
    ]

module _ {O : Type 0} (db : Db O) (live : List String) (now : ℕ) (d : DistinctIds db.sessions) where
  -- With distinct ids, the sync gives each tmux-backed session the status that tmux shows, active
  -- if its tmux session lives and ended if not, with the time of the change if it is one; it changes
  -- no other session, and returns the ids of exactly the sessions that it ended, in their order.
  pub sync_tmux_session_status-synced : sync_tmux_session_status db live now ≡ (
    record db { sessions = map (synced live now) db.sessions },
    map (λ s. s.id) (filter (ending live) db.sessions),
  )
  unfolding sync_tmux_session_status
  sync_tmux_session_status-synced = rw (sync_rows-synced live now db.sessions d)

-- ===== src/Login.antt =====
-- apps/api/src/app.ts: POST /api/auth/login and logout, and the throttle of failed attempts.
pub mod Throttle
mod Tests
use wireguard_ops_cockpit.Base.{
  ℕ, ◌+◌, ◌-◌, ◌*◌, String, Bool, true, false, Option, none, some, ◌==◌, ◌&&◌, leb, ltb,
  if◌then◌else◌, string_eq, nat_eq, option_eq, list_eq, List, any,
}
use wireguard_ops_cockpit.Base.Json.{Json, Fields, field, end, str, num, null}
use wireguard_ops_cockpit.Store.{Db, UserRole, admin, automation}
use wireguard_ops_cockpit.Store.Accounts.{
  Actor, authenticate_user, issue_auth_session, find_user_by_api_token, find_user_by_auth_token,
  revoke_auth_token,
}
use wireguard_ops_cockpit.Store.Audits.{create_audit}

abbrev pub max_login_attempts : ℕ
max_login_attempts = 5

abbrev pub login_window_ms : ℕ
login_window_ms = 10 * 60 * 1000

abbrev pub login_block_ms : ℕ
login_block_ms = 15 * 60 * 1000

pub record LoginAttempt : Type 0 where
  pub count : ℕ
  pub window_started_at : ℕ
  pub blocked_until : ℕ

-- `loginAttempts`, a map by address and name
abbrev pub Attempts : Type 0
Attempts = String → Option LoginAttempt

abbrev pub set_attempt : String → Option LoginAttempt → Attempts → Attempts
set_attempt key attempt attempts k = if k == key then attempt else attempts k

pub record Site (O : Type 0) : Type 0 where
  pub db : Db O
  pub attempts : Attempts

pub data LoginReply : Type 0 where
  incomplete throttled invalid forbidden : LoginReply
  welcome : Actor → LoginReply

-- One request: its address and body, the clock, and the ids and the token that it may use.
pub record LoginRequest : Type 0 where
  pub ip : String
  pub username : Option String
  pub password : Option String
  pub now : ℕ
  pub audit_id : String
  pub session_id : String
  pub token : String

-- `existingAttempt.blockedUntil > currentTime`
abbrev pub is_blocked : Option LoginAttempt → ℕ → Bool
is_blocked none now = false
is_blocked (some attempt) now = ltb now attempt.blocked_until

-- The failures of the window that runs on, or a new window.
abbrev pub counted : Option LoginAttempt → ℕ → LoginAttempt
counted none now = record { count = 1; window_started_at = now; blocked_until = 0 }
counted (some attempt) now =
    if leb now (attempt.window_started_at + login_window_ms)
    then record attempt { count = attempt.count + 1 }
    else record { count = 1; window_started_at = now; blocked_until = 0 }

-- `nextAttempt`, with the block
unfoldable pub next_attempt : Option LoginAttempt → ℕ → LoginAttempt
next_attempt existing now =
    let attempt = counted existing now in
    if leb max_login_attempts attempt.count
    then record attempt { blocked_until = now + login_block_ms }
    else attempt

-- `!body.username || !body.password`
abbrev pub given : Option String → Option String
given none = none
given (some s) = if s == "" then none else some s

-- `blockedUntil || null`
abbrev pub block_or_null : ℕ → Json
block_or_null until = if until == 0 then null else num until

-- `lower` is `toLowerCase`.
abbrev pub login_key : (String → String) → String → String → String
login_key lower ip username =
    Prim.Native.String.◌++◌ ip (Prim.Native.String.◌++◌ ":" (lower username))

-- What a request shows: the text after `Bearer cpt_`, some other text after `Bearer`, or the token
-- of its cookie.
pub data Credentials : Type 0 where
  api_token : String → Credentials
  other_bearer : Credentials
  cookie : Option String → Credentials

-- The answer of `requireActor`: the codes 401 and 403, or the actor.
pub data Access : Type 0 where
  unauthenticated unauthorized : Access
  granted : Actor → Access

module _ {O : Type 0} where
  abbrev pub audit_user : Db O → LoginRequest → Option String → String → Fields → Db O
  audit_user db request actor action details =
      create_audit db request.audit_id request.now (record {
        actor_id = actor;
        action = action;
        target_type = "user";
        target_id = actor;
        details = details;
      })

  -- `verify` is the password check.
  module _ (lower : String → String) (verify : String → String → Bool) (sha256 : String → String)
      (ttl_hours : ℕ) where
    -- A failed attempt is counted and audited.
    unfoldable pub refuse_login : Site O → LoginRequest → String → String → Site O
    refuse_login site request username key =
        let next = next_attempt (site.attempts key) request.now in
        record {
          db = audit_user site.db request none "auth.login_failed" (
              field "username" (str username) (
                field "sourceIp" (str request.ip)
                  (field "blockedUntil" (block_or_null next.blocked_until) end)));
          attempts = set_attempt key (some next) site.attempts;
        }

    -- The password was right: only an admin gets a browser session.
    unfoldable pub admit : Site O → LoginRequest → String → Actor → Site O × LoginReply
    admit site request key actor = elim actor.role [
      | automation ↦ (
        record site {
          db =
              audit_user site.db request (some actor.id) "auth.login_forbidden"
                (field "username" (str actor.username) end);
        },
        forbidden,
      )
      | admin ↦ (
        record {
          db =
              audit_user
                (issue_auth_session sha256 site.db request.session_id request.now request.token
                  actor.id ttl_hours)
                request (some actor.id) "auth.login" (field "username" (str actor.username) end);
          attempts = set_attempt key none site.attempts;
        },
        welcome actor,
      )
    ]

    unfoldable pub login_as : Site O → LoginRequest → String → String → Site O × LoginReply
    login_as site request username password =
        let key = login_key lower request.ip username in
        if is_blocked (site.attempts key) request.now
        then (site, throttled)
        else elim (authenticate_user verify site.db username password) [
          | none ↦ (refuse_login site request username key, invalid)
          | some actor ↦ admit site request key actor
        ]

    unfoldable pub login : Site O → LoginRequest → Site O × LoginReply
    login site request = elim (given request.username) [
      | none ↦ (site, incomplete)
      | some username ↦ elim (given request.password) [
        | none ↦ (site, incomplete)
        | some password ↦ login_as site request username password
      ]
    ]

    -- The cookie's token, if there is one.
    unfoldable pub logout : Site O → LoginRequest → Option String → Site O
    logout site request token = elim token [
      | none ↦ site
      | some raw ↦
          let (db1, actor) = find_user_by_auth_token sha256 site.db request.now raw in
          let db2 = revoke_auth_token sha256 db1 raw in
          elim actor [
            | none ↦ record site { db = db2 }
            | some user ↦ record site {
              db =
                  audit_user db2 request (some user.id) "auth.logout"
                    (field "username" (str user.username) end);
            }
          ]
    ]

  -- `scope` is the method and the route of the request.
  unfoldable pub require_actor : (String → String) → Db O → ℕ → String → Credentials → Db O × Access
  require_actor sha256 db now scope credentials = elim credentials [
    | other_bearer ↦ (db, unauthenticated)
    | api_token raw ↦
        let (db1, found) = find_user_by_api_token sha256 db now raw in
        elim found [
          | none ↦ (db1, unauthenticated)
          | some identity ↦ elim identity.actor.role [
            | admin ↦ (db1, unauthorized)
            | automation ↦ (
              db1,
              if any (λ s. s == scope) identity.scopes
                  then granted identity.actor
                  else unauthorized,
            )
          ]
        ]
    | cookie none ↦ (db, unauthenticated)
    | cookie (some raw) ↦
        let (db1, found) = find_user_by_auth_token sha256 db now raw in
        elim found [ none ↦ (db1, unauthenticated) | some actor ↦ (db1, granted actor) ]
  ]

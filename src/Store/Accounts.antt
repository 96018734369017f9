-- ===== src/Store/Accounts.antt =====
-- db.ts: users, browser sessions and API tokens. The password check (scrypt) and SHA-256 are
-- parameters; a new token's raw text is an argument.
pub mod Laws
use wireguard_ops_cockpit.Base.{
  ℕ, ◌+◌, ◌*◌, String, Bool, true, Option, none, some, List, [], ◌∷◌, ◌++◌, ◌==◌, ◌&&◌, not, leb,
  ltb, if◌then◌else◌, string_eq, find, filter, any,
}
use text.Mathlib.Text.{starts_with}
use Prim.Native.String
use wireguard_ops_cockpit.Base.Options.{◌>>=◌}
use wireguard_ops_cockpit.Base.Tables.{update, insert, by_key}
use wireguard_ops_cockpit.Store.{Db, UserRow, UserRole, admin, AuthSessionRow, ApiTokenRow}

-- `UserSummary`
pub record Actor : Type 0 where
  pub id : String
  pub username : String
  pub role : UserRole

abbrev pub summary : UserRow → Actor
summary u = record { id = u.id; username = u.username; role = u.role }

abbrev pub user_id : UserRow → String
user_id u = u.id

pub record ApiIdentity : Type 0 where
  pub actor : Actor
  pub scopes : List String

module _ {O : Type 0} where
  unfoldable pub find_user_row : Db O → String → Option UserRow
  find_user_row db username = find (λ u. u.username == username) db.users

  unfoldable pub seed_admin : Db O → String → ℕ → String → String → Db O
  seed_admin db id now username password_hash = elim db.users [
    | _ ∷ _ ↦ db
    | [] ↦ record db {
      users =
          insert
            (record {
              id = id;
              username = username;
              password_hash = password_hash;
              role = admin;
              created_at = now;
            })
            db.users;
    }
  ]

  unfoldable pub create_user : Db O → String → ℕ → String → String → UserRole → Db O × Actor
  unfolding find_user_row
  create_user db id now username password_hash role = elim (find_user_row db username) [
    | some existing ↦ (db, summary existing)
    | none ↦
        let user : UserRow = record {
          id = id;
          username = username;
          password_hash = password_hash;
          role = role;
          created_at = now;
        } in
        (record db { users = insert user db.users }, summary user)
  ]

  unfoldable pub get_user_by_id : Db O → String → Option Actor
  get_user_by_id db id = do user ← by_key user_id id db.users; some (summary user)

  -- `verify password stored` is `verifyPassword`.
  unfoldable pub authenticate_user :
      (String → String → Bool) → Db O → String → String → Option Actor
  unfolding find_user_row
  authenticate_user verify db username password = do
    user ← find_user_row db username
    if verify password user.password_hash then some (summary user) else none

  -- `none` is the error "user not found".
  unfoldable pub update_user_password : Db O → String → String → Option (Db O)
  unfolding find_user_row
  update_user_password db username password_hash = do
    user ← find_user_row db username
    some (record db {
      users =
          update (λ u. u.id == user.id) (λ u. record u { password_hash = password_hash }) db.users;
      auth_sessions = filter (λ s. not (s.user_id == user.id)) db.auth_sessions;
    })

  unfoldable pub prune_expired_sessions : Db O → ℕ → Db O
  prune_expired_sessions db now = record db {
    auth_sessions = filter (λ s. ltb now s.expires_at) db.auth_sessions;
  }

  module _ (sha256 : String → String) where
    -- The scopes come as `[...new Set(scopes)].sort()`, the token without its prefix as `raw`.
    unfoldable pub rotate_api_token :
        Db O → String → ℕ → String → String → String → List String → Db O
    rotate_api_token db id now raw user_id label scopes = record db {
      api_tokens =
          insert
            (record {
              id = id;
              user_id = user_id;
              label = label;
              token_hash = sha256 raw;
              scopes = scopes;
              created_at = now;
              last_used_at = none;
            })
            (filter (λ t. not (t.user_id == user_id && t.label == label)) db.api_tokens);
    }

    -- The token is `cpt_` and `raw`: a text without the prefix is refused before.
    unfoldable pub find_user_by_api_token : Db O → ℕ → String → Db O × Option ApiIdentity
    find_user_by_api_token db now raw =
        let found : Option (ApiTokenRow × UserRow) = (do
          token ← find (λ t. t.token_hash == sha256 raw) db.api_tokens
          user ← by_key user_id token.user_id db.users
          some (token, user)) in
        elim found [
          | none ↦ (db, none)
          | some (token, user) ↦ (
            record db {
              api_tokens =
                  update (λ t. t.token_hash == sha256 raw)
                    (λ t. record t { last_used_at = some now }) db.api_tokens;
            },
            some (record { actor = summary user; scopes = token.scopes }),
          )
        ]

    unfoldable pub issue_auth_session : Db O → String → ℕ → String → String → ℕ → Db O
    unfolding prune_expired_sessions
    issue_auth_session db id now raw user_id ttl_hours =
        let pruned = prune_expired_sessions db now in
        record pruned {
          auth_sessions =
              insert
                (record {
                  id = id;
                  user_id = user_id;
                  token_hash = sha256 raw;
                  expires_at = now + ttl_hours * 3600000;
                  created_at = now;
                })
                pruned.auth_sessions;
        }

    unfoldable pub find_user_by_auth_token : Db O → ℕ → String → Db O × Option Actor
    unfolding prune_expired_sessions
    find_user_by_auth_token db now raw =
        let pruned = prune_expired_sessions db now in
        (
          pruned,
          do
            session ← find (λ s. s.token_hash == sha256 raw) pruned.auth_sessions
            user ← by_key user_id session.user_id pruned.users
            some (summary user),
        )

    unfoldable pub revoke_auth_token : Db O → String → Db O
    revoke_auth_token db raw = record db {
      auth_sessions = filter (λ s. not (s.token_hash == sha256 raw)) db.auth_sessions;
    }

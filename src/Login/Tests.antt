-- ===== src/Login/Tests.antt =====
-- Wrong passwords in two spellings of a name, and the right one afterwards.
use wireguard_ops_cockpit.Base.{
  ℕ, ◌+◌, ◌<◌, ◌≡◌, ◌≢◌, ◌↔◌, refl, String, Bool, none, some, [], ◌∷◌, ◌++◌, arith, string_eq, ◌==◌,
  Option, List, All, ap, if◌then◌else◌,
}
use mathlib.Core.Option
use wireguard_ops_cockpit.Plan.Checkpoints.Laws.{texts_differ}
use wireguard_ops_cockpit.Store.Audits.{create_audit}
use wireguard_ops_cockpit.Login.{
  Site, LoginRequest, throttled, login_block_ms, login, login_as, admit, refuse_login, next_attempt,
}
use wireguard_ops_cockpit.Login.Throttle.{
  logins, AllRefused, IsFor, logins-throttled_iff, logins-open,
}
use wireguard_ops_cockpit.Store.{UserRow, admin}
use wireguard_ops_cockpit.Store.Accounts.{authenticate_user, find_user_row}

abbrev user : UserRow
user = record { id = "u1"; username = "jochen"; password_hash = "p"; role = admin; created_at = 0 }

abbrev site : Site ℕ
site = record {
  db = record {
    users = user ∷ [];
    auth_sessions = [];
    api_tokens = [];
    sessions = [];
    jobs = [];
    approvals = [];
    audits = [];
    plans = [];
    schedules = [];
  };
  attempts = λ key. none;
}

-- `Jochen` in two spellings.
abbrev lower : String → String
lower s = if s == "Jochen" then "jochen" else s

abbrev attempt : String → String → ℕ → LoginRequest
attempt name password now = record {
  ip = "10.0.0.1";
  username = some name;
  password = some password;
  now = now;
  audit_id = "a1";
  session_id = "t1";
  token = "raw";
}

abbrev check : String → String → Bool
check password hash = password == hash

abbrev four : List LoginRequest
four =
    attempt "jochen" "q" 1000
    ∷ attempt "Jochen" "r" 2000
    ∷ attempt "jochen" "s" 3000
    ∷ attempt "Jochen" "t" 4000
    ∷ []

abbrev five : List LoginRequest
five = four ++ attempt "jochen" "u" 5000 ∷ []

abbrev last : LoginRequest
last = attempt "Jochen" "p" 6000

refused_five : AllRefused lower check (λ s. s) 24 "10.0.0.1" "jochen" site five
unfolding login login_as admit refuse_login next_attempt authenticate_user find_user_row
    create_audit
refused_five = (refl, (refl, (refl, (refl, (refl, tt)))))

refused_four : AllRefused lower check (λ s. s) 24 "10.0.0.1" "jochen" site four
unfolding login login_as admit refuse_login next_attempt authenticate_user find_user_row
    create_audit
refused_four = (refl, (refl, (refl, (refl, tt))))

IsFor-four : All (IsFor lower "10.0.0.1" "jochen") four
IsFor-four = (
  ("jochen", refl, refl, refl),
  (
    ("Jochen", refl, refl, refl),
    (("jochen", refl, refl, refl), (("Jochen", refl, refl, refl), tt)),
  ),
)

IsFor-five : All (IsFor lower "10.0.0.1" "jochen") five
IsFor-five = (
  ("jochen", refl, refl, refl),
  (
    ("Jochen", refl, refl, refl),
    (
      ("jochen", refl, refl, refl),
      (("Jochen", refl, refl, refl), (("jochen", refl, refl, refl), tt)),
    ),
  ),
)

has_name : ◌≢◌ {A = Option String} (some "Jochen") (some "")
has_name h = texts_differ "Jochen" "" refl (ap (λ o. Option.get_or o "") h)

has_password : ◌≢◌ {A = String} "p" ""
has_password = texts_differ "p" "" refl

logins-throttled_iff_example :
    ((login lower check
        (λ s. s)
        24
        (logins lower check (λ s. s) 24 "10.0.0.1" "jochen" site five)
        last).1
      ≡ throttled)
    ↔ (6000 < 5000 + login_block_ms)
logins-throttled_iff_example =
    logins-throttled_iff lower check (λ s. s) 24 "10.0.0.1" "jochen" site
      (attempt "jochen" "q" 1000)
      (attempt "Jochen" "r" 2000 ∷ attempt "jochen" "s" 3000 ∷ attempt "Jochen" "t" 4000 ∷ [])
      (attempt "jochen" "u" 5000) last "p" refl IsFor-five refused_five
      (omega arith, (omega arith, (omega arith, (omega arith, tt)))) refl
      ("Jochen", refl, refl, refl) has_name refl has_password

logins-open_example :
    (login lower check
      (λ s. s)
      24
      (logins lower check (λ s. s) 24 "10.0.0.1" "jochen" site four)
      last).1
    ≢ throttled
logins-open_example =
    logins-open lower check (λ s. s) 24 "10.0.0.1" "jochen" site (attempt "jochen" "q" 1000)
      (attempt "Jochen" "r" 2000 ∷ attempt "jochen" "s" 3000 ∷ attempt "Jochen" "t" 4000 ∷ []) last
      "p" refl IsFor-four refused_four (omega arith, (omega arith, (omega arith, tt))) (omega arith)
      ("Jochen", refl, refl, refl) has_name refl has_password

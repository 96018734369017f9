-- ===== src/Login/Throttle.antt =====
-- app.ts: how many failed logins in a window block an address and a name, and for how long.
use mathlib.Core.Path.{subst}
use wireguard_ops_cockpit.Base.{
  ℕ, suc, ◌+◌, ◌≤◌, ◌<◌, ◌≡◌, ◌↔◌, ◌≢◌, ◌∙◌, refl, ap, String, Bool, Option, none, some, List, [],
  ◌∷◌, ◌++◌, string_eq, arith, length, All, Option-cases, inl, inr,
}
use text.Mathlib.TextEquality.{eq_iff}
use wireguard_ops_cockpit.Login.{
  LoginAttempt, Site, LoginRequest, throttled, invalid, login_window_ms, login_block_ms,
  next_attempt, given, login_key, refuse_login, login_as, login, admit,
}
use wireguard_ops_cockpit.Store.Accounts.{authenticate_user}

-- An attempt count that blocks nobody yet.
abbrev pub open_window : ℕ → ℕ → LoginAttempt
open_window count started = record { count = count; window_started_at = started; blocked_until = 0 }

next_attempt-first : (now : ℕ) → next_attempt none now ≡ open_window 1 now
unfolding next_attempt
next_attempt-first now = refl

next_attempt-more :
    (count started now : ℕ)
    → now ≤ started + login_window_ms
    → count < 4
    → next_attempt (some (open_window count started)) now ≡ open_window (suc count) started
unfolding next_attempt
next_attempt-more count started now in_window few = ground arith

next_attempt-last :
    (started now : ℕ)
    → now ≤ started + login_window_ms
    → next_attempt (some (open_window 4 started)) now
      ≡ record { count = 5; window_started_at = started; blocked_until = now + login_block_ms }
unfolding next_attempt
next_attempt-last started now in_window = ground arith

-- A request from this address for a name that differs from `name` in its case at most.
abbrev pub IsFor : (String → String) → String → String → LoginRequest → Type 0
IsFor lower ip name r =
    (username : String) × (r.ip ≡ ip) × (r.username ≡ some username) × (lower username ≡ lower name)

key-IsFor :
    (lower : String → String) (ip name : String) (r : LoginRequest) (username : String)
    → r.ip ≡ ip
    → lower username ≡ lower name
    → login_key lower r.ip username
      ≡ Prim.Native.String.◌++◌ ip (Prim.Native.String.◌++◌ ":" (lower name))
key-IsFor lower ip name r username same_ip same_name = rw (same_ip, same_name) refl

All-snoc :
    {A : Type 0} (P : A → Type 0) (xs : List A) (x : A) → All P (xs ++ x ∷ []) → All P xs × P x
All-snoc P [] x (h, rest) = (tt, h)
All-snoc P (y ∷ ys) x (h, rest) = (let (all_ys, last) = All-snoc P ys x rest in ((h, all_ys), last))

module _ {O : Type 0} (lower : String → String) (verify : String → String → Bool)
    (sha256 : String → String) (ttl_hours : ℕ) (ip name : String) where
  -- The site after the requests.
  abbrev pub logins : Site O → List LoginRequest → Site O
  logins site [] = site
  logins site (r ∷ rs) = logins (login lower verify sha256 ttl_hours site r).0 rs

  -- Each of the requests is refused for its name or its password.
  abbrev pub AllRefused : Site O → List LoginRequest → Type 0
  AllRefused site [] = Unit
  AllRefused site (r ∷ rs) =
      ((login lower verify sha256 ttl_hours site r).1 ≡ invalid)
      × AllRefused (login lower verify sha256 ttl_hours site r).0 rs

  -- What is counted for the address and the name.
  abbrev pub at_name : Site O → Option LoginAttempt
  at_name site =
      site.attempts (Prim.Native.String.◌++◌ ip (Prim.Native.String.◌++◌ ":" (lower name)))

  -- A refused request was let in, and its name or password is wrong.
  login_as-invalid :
      (site : Site O) (r : LoginRequest) (username password : String)
      → (login_as lower verify sha256 ttl_hours site r username password).1 ≡ invalid
      → (login_as lower verify sha256 ttl_hours site r username password).0
        ≡ refuse_login lower verify sha256 ttl_hours site r username (login_key lower r.ip username)
  unfolding login_as admit
  login_as-invalid site r username password refused =
      elim (Option-cases (authenticate_user verify site.db username password)) [
        | inl wrong ↦ ground arith
        | inr (actor, right) ↦ ground arith
      ]

  login-invalid :
      (site : Site O) (r : LoginRequest) (username : String)
      → r.username ≡ some username
      → (login lower verify sha256 ttl_hours site r).1 ≡ invalid
      → (login lower verify sha256 ttl_hours site r).0
        ≡ refuse_login lower verify sha256 ttl_hours site r username (login_key lower r.ip username)
  unfolding login
  login-invalid site r username named refused = elim (Option-cases (given r.username)) [
    | inl missing ↦ absurd (ground arith)
    | inr (u, there) ↦ elim (Option-cases (given r.password)) [
      | inl missing ↦ absurd (ground arith)
      | inr (password, worded) ↦
          let same : u ≡ username = ground arith in
          let refused_as : (login_as lower verify sha256 ttl_hours site r u password).1 ≡ invalid =
            ground arith in
          let left = login_as-invalid site r u password refused_as in ground arith
    ]
  ]

  attempts-refuse_login :
      (site : Site O) (r : LoginRequest) (username key : String)
      → (refuse_login lower verify sha256 ttl_hours site r username key).attempts key
        ≡ some (next_attempt (site.attempts key) r.now)
  unfolding refuse_login
  attempts-refuse_login site r username key = (let same = eq_iff key key in ground arith)

  -- A refused request counts one attempt more.
  refused-lem :
      (site : Site O) (r : LoginRequest)
      → IsFor lower ip name r
      → (login lower verify sha256 ttl_hours site r).1 ≡ invalid
      → at_name (login lower verify sha256 ttl_hours site r).0
        ≡ some (next_attempt (at_name site) r.now)
  refused-lem site r (username, same_ip, named, same_name) refused =
      let left = ap (λ (s : Site O). at_name s) (login-invalid site r username named refused) in
      let key = key-IsFor lower ip name r username same_ip same_name in
      left
      ∙ subst
          (λ k.
            (refuse_login lower verify sha256 ttl_hours site r username
                (login_key lower r.ip username)).attempts
              k
            ≡ some (next_attempt (site.attempts k) r.now))
          key (attempts-refuse_login site r username (login_key lower r.ip username))

  -- Refused requests in the window are counted, up to the fourth.
  logins-counts :
      (site : Site O) (count started : ℕ) (rs : List LoginRequest)
      → at_name site ≡ some (open_window count started)
      → All (IsFor lower ip name) rs
      → AllRefused site rs
      → All (λ r. r.now ≤ started + login_window_ms) rs
      → count + length rs ≤ 4
      → at_name (logins site rs) ≡ some (open_window (count + length rs) started)
  logins-counts site count started [] counted for_name refused inside few =
      counted ∙ ap (λ n. some (open_window n started)) (omega arith)
  logins-counts site count started (r ∷ rs) counted (for_r, for_name) (refused_r, refused)
        (now_inside, inside) few =
      let more =
        refused-lem site r for_r refused_r
        ∙ ap (λ a. some (next_attempt a r.now)) counted
        ∙ ap some (next_attempt-more count started r.now now_inside (omega arith)) in
      logins-counts (login lower verify sha256 ttl_hours site r).0 (suc count) started rs more
        for_name refused inside (omega arith)
      ∙ ap (λ n. some (open_window n started)) (omega arith)

  login-throttled_iff :
      (site : Site O) (r : LoginRequest) (username password : String) (a : LoginAttempt)
      → r.username ≡ some username
      → username ≢ ""
      → r.password ≡ some password
      → password ≢ ""
      → site.attempts (login_key lower r.ip username) ≡ some a
      → ((login lower verify sha256 ttl_hours site r).1 ≡ throttled) ↔ (r.now < a.blocked_until)
  unfolding login login_as admit
  login-throttled_iff site r username password a named filled worded nonempty counted =
      let empty_name = eq_iff username "" in
      let empty_password = eq_iff password "" in
      elim (Option-cases (authenticate_user verify site.db username password)) [
        | inl wrong ↦ ground arith
        | inr (actor, right) ↦ ground arith
      ]

  -- Whatever the password, a request is throttled exactly while the attempt is blocked.
  throttled_iff :
      (site : Site O) (r : LoginRequest) (password : String) (a : LoginAttempt)
      → IsFor lower ip name r
      → r.username ≢ some ""
      → r.password ≡ some password
      → password ≢ ""
      → at_name site ≡ some a
      → ((login lower verify sha256 ttl_hours site r).1 ≡ throttled) ↔ (r.now < a.blocked_until)
  throttled_iff site r password a (username, same_ip, named, same_name) filled worded nonempty
        counted =
      let at_key : site.attempts (login_key lower r.ip username) ≡ some a =
        ap site.attempts (key-IsFor lower ip name r username same_ip same_name) ∙ counted in
      login-throttled_iff site r username password a named (λ e. filled (named ∙ ap some e)) worded
        nonempty at_key

  logins-snoc :
      (site : Site O) (rs : List LoginRequest) (r : LoginRequest)
      → logins site (rs ++ r ∷ []) ≡ (login lower verify sha256 ttl_hours (logins site rs) r).0
  logins-snoc site [] r = refl
  logins-snoc site (q ∷ rs) r = logins-snoc (login lower verify sha256 ttl_hours site q).0 rs r

  AllRefused-snoc :
      (site : Site O) (rs : List LoginRequest) (r : LoginRequest)
      → AllRefused site (rs ++ r ∷ [])
      → AllRefused site rs × ((login lower verify sha256 ttl_hours (logins site rs) r).1 ≡ invalid)
  AllRefused-snoc site [] r (h, rest) = (tt, h)
  AllRefused-snoc site (q ∷ rs) r (h, rest) =
      let (before, last) =
        AllRefused-snoc (login lower verify sha256 ttl_hours site q).0 rs r rest in
      ((h, before), last)

  first-lem :
      (site : Site O) (first : LoginRequest) (rs : List LoginRequest)
      → at_name site ≡ none
      → All (IsFor lower ip name) (first ∷ rs)
      → AllRefused site (first ∷ rs)
      → All (λ r. r.now ≤ first.now + login_window_ms) rs
      → length rs ≤ 3
      → at_name (logins site (first ∷ rs)) ≡ some (open_window (1 + length rs) first.now)
  first-lem site first rs fresh (for_first, for_name) (refused_first, refused) inside few =
      let counted =
        refused-lem site first for_first refused_first
        ∙ ap (λ a. some (next_attempt a first.now)) fresh
        ∙ ap some (next_attempt-first first.now) in
      logins-counts (login lower verify sha256 ttl_hours site first).0 1 first.now rs counted
        for_name refused inside (omega arith)

  -- If nothing is counted for an address and a name, and then five login requests from this address
  -- for this name, in any spelling of its case and with any passwords, are refused, the last four at
  -- most 10 minutes after the first, then the next request from this address for this name, with a
  -- name and a password that are not empty, also the right one, is throttled exactly until 15 minutes
  -- after the fifth.
  pub logins-throttled_iff :
      (site : Site O) (first : LoginRequest) (rs : List LoginRequest) (fifth next : LoginRequest)
      (guess : String)
      → at_name site ≡ none
      → All (IsFor lower ip name) (first ∷ rs ++ fifth ∷ [])
      → AllRefused site (first ∷ rs ++ fifth ∷ [])
      → All (λ r. r.now ≤ first.now + login_window_ms) (rs ++ fifth ∷ [])
      → length rs ≡ 3
      → IsFor lower ip name next
      → next.username ≢ some ""
      → next.password ≡ some guess
      → guess ≢ ""
      → ((login lower verify sha256 ttl_hours (logins site (first ∷ rs ++ fifth ∷ [])) next).1
          ≡ throttled)
        ↔ (next.now < fifth.now + login_block_ms)
  logins-throttled_iff site first rs fifth next guess fresh for_name refused inside three for_next
        filled worded nonempty =
      let (for_four, for_fifth) = All-snoc (IsFor lower ip name) (first ∷ rs) fifth for_name in
      let (refused_four, refused_fifth) = AllRefused-snoc site (first ∷ rs) fifth refused in
      let (inside_four, in_window) =
        All-snoc (λ (r : LoginRequest). r.now ≤ first.now + login_window_ms) rs fifth inside in
      let count : 1 + length rs ≡ 4 = omega arith in
      let four =
        first-lem site first rs fresh for_four refused_four inside_four (omega arith)
        ∙ ap (λ n. some (open_window n first.now)) count in
      let blocked =
        ap (λ (s : Site O). at_name s) (logins-snoc site (first ∷ rs) fifth)
        ∙ refused-lem (logins site (first ∷ rs)) fifth for_fifth refused_fifth
        ∙ ap (λ a. some (next_attempt a fifth.now)) four
        ∙ ap some (next_attempt-last first.now fifth.now in_window) in
      throttled_iff (logins site (first ∷ rs ++ fifth ∷ [])) next guess _ for_next filled worded
        nonempty blocked

  -- If nothing is counted for an address and a name, up to four refused login requests from this
  -- address for this name, in any spelling of its case and with any passwords, the later ones at most
  -- 10 minutes after the first, block nobody: the next request from this address for this name, with a
  -- name and a password that are not empty, is not throttled, at any time.
  pub logins-open :
      (site : Site O) (first : LoginRequest) (rs : List LoginRequest) (next : LoginRequest)
      (guess : String)
      → at_name site ≡ none
      → All (IsFor lower ip name) (first ∷ rs)
      → AllRefused site (first ∷ rs)
      → All (λ r. r.now ≤ first.now + login_window_ms) rs
      → length rs ≤ 3
      → IsFor lower ip name next
      → next.username ≢ some ""
      → next.password ≡ some guess
      → guess ≢ ""
      → (login lower verify sha256 ttl_hours (logins site (first ∷ rs)) next).1 ≢ throttled
  logins-open site first rs next guess fresh for_name refused inside few for_next filled worded
        nonempty h =
      let counted = first-lem site first rs fresh for_name refused inside few in
      let never =
        (throttled_iff (logins site (first ∷ rs)) next guess _ for_next filled worded nonempty
            counted).0
          h in
      omega arith

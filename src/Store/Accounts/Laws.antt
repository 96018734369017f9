-- ===== src/Store/Accounts/Laws.antt =====
-- db.ts: what a browser token and a revocation, a password change and an expiry do to one another.
use text.Mathlib.TextEquality.{eq_iff}
use wireguard_ops_cockpit.Base.{
  ℕ, ◌+◌, ◌*◌, ◌≤◌, ◌<◌, ◌≡◌, refl, String, Bool, true, false, none, some, List, [], ◌∷◌, ◌==◌, not,
  ltb, if◌then◌else◌, string_eq, find, filter, arith,
}
use wireguard_ops_cockpit.Base.Tables.{insert, by_key}
use wireguard_ops_cockpit.Store.{Db, UserRow, AuthSessionRow}
use wireguard_ops_cockpit.Store.Accounts.{
  summary, user_id, issue_auth_session, find_user_by_auth_token, revoke_auth_token,
}

-- No row of a filtered table fails the test.
find-filter :
    {A : Type 0} (p q : A → Bool) (xs : List A) (x : A)
    → find p (filter q xs) ≡ some x
    → (p x ≡ true) × (q x ≡ true)
find-filter p q [] x h = absurd (ground arith)
find-filter p q (y ∷ ys) x h = ground (arith, find-filter p q ys x)

find-filter-none :
    {A : Type 0} (p : A → Bool) (xs : List A) → find p (filter (λ x. not (p x)) xs) ≡ none
find-filter-none p [] = refl
find-filter-none p (y ∷ ys) = ground (arith, find-filter-none p ys)

find-insert :
    {A : Type 0} (p : A → Bool) (x : A) (xs : List A)
    → find p xs ≡ none
    → p x ≡ true
    → find p (insert x xs) ≡ some x
find-insert p x [] h e = ground arith
find-insert p x (y ∷ ys) h e = ground (arith, find-insert p x ys)

find-filter_absent :
    {A : Type 0} (p q : A → Bool) (xs : List A) → find p xs ≡ none → find p (filter q xs) ≡ none
find-filter_absent p q [] h = refl
find-filter_absent p q (y ∷ ys) h = ground (arith, find-filter_absent p q ys)

-- The inserted row is found through a filter exactly when the filter keeps it.
find-filter-insert :
    {A : Type 0} (p q : A → Bool) (x : A) (xs : List A)
    → find p xs ≡ none
    → p x ≡ true
    → find p (filter q (insert x xs)) ≡ (if q x then some x else none)
find-filter-insert p q x [] h e = ground arith
find-filter-insert p q x (y ∷ ys) h e = ground (arith, find-filter-insert p q x ys)

le→leb_lt : (a b : ℕ) → a < b → ltb a b ≡ true
le→leb_lt a b h = ground arith

not_ltb : (a b : ℕ) → b ≤ a → ltb a b ≡ false
not_ltb a b h = ground arith

module _ {O : Type 0} (sha256 : String → String) (db : Db O) where
  -- A revoked token finds no user, at any time.
  pub find-revoke :
      (now : ℕ) (raw : String)
      → (find_user_by_auth_token sha256 (revoke_auth_token sha256 db raw) now raw).1 ≡ none
  unfolding find_user_by_auth_token revoke_auth_token
  find-revoke now raw =
      let p = λ (s : AuthSessionRow). s.token_hash == sha256 raw in
      rw
        (find-filter_absent p (λ s. ltb now s.expires_at) (filter (λ s. not (p s)) db.auth_sessions)
          (find-filter-none p db.auth_sessions))
        refl

  -- A token issued to a known user, with a hash that no other session has, finds that user exactly
  -- until its time to live has passed.
  pub find-issue :
      (id raw : String) (issued now ttl : ℕ) (u : UserRow)
      → by_key user_id u.id db.users ≡ some u
      → find (λ s. s.token_hash == sha256 raw) db.auth_sessions ≡ none
      → (now < issued + ttl * 3600000
          → (find_user_by_auth_token sha256
              (issue_auth_session sha256 db id issued raw u.id ttl)
              now
              raw).1
            ≡ some (summary u))
        × (issued + ttl * 3600000 ≤ now
            → (find_user_by_auth_token sha256
                (issue_auth_session sha256 db id issued raw u.id ttl)
                now
                raw).1
              ≡ none)
  unfolding find_user_by_auth_token issue_auth_session
  find-issue id raw issued now ttl u known fresh =
      let p = λ (s : AuthSessionRow). s.token_hash == sha256 raw in
      let row : AuthSessionRow = record {
        id = id;
        user_id = u.id;
        token_hash = sha256 raw;
        expires_at = issued + ttl * 3600000;
        created_at = issued;
      } in
      let old = filter (λ s. ltb issued s.expires_at) db.auth_sessions in
      let looked =
        find-filter-insert p (λ s. ltb now s.expires_at) row old
          (find-filter_absent p (λ s. ltb issued s.expires_at) db.auth_sessions fresh)
          (ground (arith, eq_iff (sha256 raw) (sha256 raw))) in
      (
        λ before. rw (looked, le→leb_lt now (issued + ttl * 3600000) before, known) refl,
        λ after. rw (looked, not_ltb now (issued + ttl * 3600000) after) refl,
      )

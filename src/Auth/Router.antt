-- ===== src/Auth/Router.antt =====
-- Login, refresh and logout: src/oncall/auth/router.py. A handler answers and leaves the committed
-- tables. Password verification and SHA-256 are parameters; the signed access token stands as the
-- user it is for.
use oncall.Prelude.{
  ℕ, Bool, String, none, Option, false, find, if◌then◌else◌, nat_eq, not, ok, raised, some,
  string_eq, true, ◌&&◌, ◌==◌, ◌||◌, ◌∷◌,
}
use oncall.Auth.Tokens.{
  User, AuthDb, invalid_refresh_token, issue_refresh_token, reuse_detected, revoke_refresh_token,
  rotate_refresh_token,
}

pub data Answer : Type 0 where
  logged_in : User → String → Answer
  no_content : Answer
  unauthorized csrf_failed : Answer
  -- an exception that the handler lets through
  server_error : Answer
  -- 401, with the cookies deleted
  expired : Answer

abbrev pub log : String → Option ℕ → String → AuthDb → AuthDb
log event user actor db = record db {
  audit = record { event_type = event; user_id = user; actor = actor } ∷ db.audit;
}

-- `not cookie`
abbrev absent : Option String → Bool
absent none = true
absent (some s) = s == ""

abbrev same : Option String → Option String → Bool
same (some a) (some b) = a == b
same _ _ = false

-- `_require_csrf` does not raise.
abbrev pub csrf_holds : Option String → Option String → Bool
csrf_holds cookie header = not (absent cookie || absent header) && same cookie header

abbrev pub dummy_password_hash : Option User → String → String
dummy_password_hash none dummy = dummy
dummy_password_hash (some u) dummy = if u.is_active then u.password_hash else dummy

-- The event of a logout, if there was a user.
abbrev pub sign_out : Option User × AuthDb → AuthDb
sign_out (none, db) = db
sign_out (some u, db) = log "auth.logout" none u.username db

module _ (hash_refresh_token : String → String) (verify_password : String → String → Bool) where
  unfoldable pub login : String → String → String → String → ℕ → AuthDb → Answer × AuthDb
  unfolding find
  login username password dummy fresh now db =
      let user = find (λ u. u.username == username) db.users in
      let valid = verify_password password (dummy_password_hash user dummy) in
      elim user [
        | none ↦ (unauthorized, db)
        | some u ↦
            if not u.is_active || not valid
            then (unauthorized, db)
            else elim (issue_refresh_token hash_refresh_token u.id none fresh now db) [
              | raised e ↦ (server_error, db)
              | ok r ↦ (logged_in u r.0, log "auth.login" (some u.id) u.username r.1)
            ]
      ]

  unfoldable pub refresh :
      Option String → Option String → Option String → String → ℕ → AuthDb → Answer × AuthDb
  refresh none cookie header fresh now db = (expired, db)
  refresh (some raw_token) cookie header fresh now db =
      if raw_token == ""
      then (expired, db)
      else if not (csrf_holds cookie header)
      then (csrf_failed, db)
      else let rotation = rotate_refresh_token hash_refresh_token raw_token fresh now db in
        elim rotation.0 [
          | raised reuse_detected ↦ (expired, rotation.1)
          | raised invalid_refresh_token ↦ (expired, db)
          | ok r ↦ (logged_in r.0 r.1, log "auth.refresh" (some r.0.id) r.0.username r.2)
        ]

  unfoldable pub logout :
      Option String → Option String → Option String → ℕ → AuthDb → Answer × AuthDb
  logout none cookie header now db = (no_content, db)
  logout (some raw_token) cookie header now db =
      if raw_token == ""
      then (no_content, db)
      else if not (csrf_holds cookie header)
      then (csrf_failed, db)
      else (no_content, sign_out (revoke_refresh_token hash_refresh_token raw_token now db))

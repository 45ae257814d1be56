-- ===== src/Auth/Sessions.antt =====
-- Every order of logins, refreshes and logouts: src/oncall/auth/router.py. The row lock on the user
-- makes two calls for one user follow one another.
use mathlib.Core.Path.{subst, sym}
use oncall.Prelude.{
  ℕ, All, Bool, List, Option, String, [], arith, count, ltb, none, ok, refl, suc, true, ◌∷◌, ◌≡◌,
  Bool-cases, Option-cases, Outcome-cases, find, inl, inr, nat_eq, not, some, string_eq, ◌==◌, ◌||◌,
  ◌⊎◌, leb,
}
use oncall.Auth.Tokens.{
  AuthDb, RefreshToken, is_active_in, issue_refresh_token, invalid_refresh_token,
  lock_token_and_user, reuse_detected, revoke_family, revoke_refresh_token, rotate_refresh_token,
  User, new_token,
}
use oncall.Auth.Router.{login, refresh, logout, csrf_holds, dummy_password_hash, log}
use oncall.Auth.Families.{
  IsSound, revoke_family-IsSound, rotate_refresh_token-IsSound, rotate_refresh_token-replayed,
  active_count,
}

none_of_newest :
    (n : ℕ) (xs : List RefreshToken)
    → All (λ x. ltb x.family_id n ≡ true) xs
    → count (is_active_in n) xs ≡ 0
unfolding count
none_of_newest n [] a = refl
none_of_newest n (x ∷ xs) a = ground (arith, none_of_newest n xs a.1)

older_still :
    (n : ℕ) (xs : List RefreshToken)
    → All (λ x. ltb x.family_id n ≡ true) xs
    → All (λ x. ltb x.family_id (suc n) ≡ true) xs
older_still n [] a = tt
older_still n (x ∷ xs) a = (ground arith, older_still n xs a.1)

log-IsSound :
    (event : String) (user : Option ℕ) (actor : String) (db : AuthDb)
    → IsSound db
    → IsSound (log event user actor db)
log-IsSound event user actor db s = record { one_active = s.one_active; older = s.older }

-- A request to one of the three routes.
pub data Call : Type 0 where
  logs_in : String → String → String → String → ℕ → Call
  refreshes : Option String → Option String → Option String → String → ℕ → Call
  logs_out : Option String → Option String → Option String → ℕ → Call

module _ (hash_refresh_token : String → String) (verify_password : String → String → Bool) where
  -- A new family has the one token it is issued with.
  issue-IsSound :
      (user_id : ℕ) (fresh : String) (now : ℕ) (db db' : AuthDb) (token : String)
      → IsSound db
      → issue_refresh_token hash_refresh_token user_id none fresh now db ≡ ok (token, db')
      → IsSound db'
  unfolding issue_refresh_token count
  issue-IsSound user_id fresh now db db' token s h =
      let rows : db'.tokens
          ≡ new_token user_id db.next_id (hash_refresh_token fresh) now ∷ db.tokens =
        ground arith in
      let ids : db'.next_id ≡ suc db.next_id = ground arith in
      record {
        one_active =
            λ f. ground (arith, s.one_active f, none_of_newest db.next_id db.tokens s.older);
        older =
            subst (λ n. All (λ x. ltb x.family_id n ≡ true) db'.tokens) (sym ids)
              (rw rows (ground arith, older_still db.next_id db.tokens s.older));
      }

  login-IsSound :
      (username password dummy fresh : String) (now : ℕ) (db : AuthDb)
      → IsSound db
      → IsSound (login hash_refresh_token verify_password username password dummy fresh now db).1
  unfolding login
  login-IsSound username password dummy fresh now db s =
      elim (Option-cases (find (λ u. u.username == username) db.users)) [
        | inl e ↦ rw (login, e) s
        | inr e ↦
            elim (Bool-cases (
              not e.0.is_active
              || not (verify_password password (dummy_password_hash (some e.0) dummy)))) [
                | inl b ↦ rw (login, e.1, e.1, b) s
                | inr b ↦
                    elim (Outcome-cases
                      (issue_refresh_token hash_refresh_token e.0.id none fresh now db)) [
                        | inr r ↦ rw (login, e.1, e.1, b, r.1) s
                        | inl r ↦
                            rw (login, e.1, e.1, b, r.1)
                              (log-IsSound "auth.login" (some e.0.id) e.0.username r.0.1
                                (issue-IsSound e.0.id fresh now db r.0.1 r.0.0 s r.1))
                      ]
              ]
      ]

  refresh-IsSound :
      (token cookie header : Option String) (fresh : String) (now : ℕ) (db : AuthDb)
      → IsSound db
      → IsSound (refresh hash_refresh_token verify_password token cookie header fresh now db).1
  unfolding refresh
  refresh-IsSound none cookie header fresh now db s = s
  refresh-IsSound (some t) cookie header fresh now db s = elim (Bool-cases (t == "")) [
    | inl e ↦ rw e s
    | inr e ↦ elim (Bool-cases (csrf_holds cookie header)) [
      | inr c ↦ rw (e, c) s
      | inl c ↦ elim (Outcome-cases (rotate_refresh_token hash_refresh_token t fresh now db).0) [
        | inl r ↦
            rw (e, c, r.1)
              (log-IsSound "auth.refresh" (some r.0.0.id) r.0.0.username r.0.2 (
                rotate_refresh_token-IsSound hash_refresh_token t fresh now db r.0.2 r.0.0 r.0.1 s
                  r.1))
        | inr (invalid_refresh_token, r) ↦ rw (e, c, r) s
        | inr (reuse_detected, r) ↦
            let (x, _, m) = rotate_refresh_token-replayed hash_refresh_token t fresh now db r in
            rw (e, c, r, m) (revoke_family-IsSound x.family_id now db s)
      ]
    ]
  ]

  revoke_refresh_token-cases :
      (t : String) (now : ℕ) (db : AuthDb)
      → (revoke_refresh_token hash_refresh_token t now db ≡ (none, db))
        ⊎ ((r : RefreshToken × User) × (revoke_refresh_token hash_refresh_token t now db
              ≡ (some r.1, revoke_family r.0.family_id now db)))
  unfolding revoke_refresh_token
  revoke_refresh_token-cases t now db =
      elim (Option-cases (lock_token_and_user hash_refresh_token t db)) [
        | inl r ↦ inl (rw (revoke_refresh_token, r))
        | inr r ↦ inr (r.0, rw (revoke_refresh_token, r.1))
      ]

  logout-IsSound :
      (token cookie header : Option String) (now : ℕ) (db : AuthDb)
      → IsSound db
      → IsSound (logout hash_refresh_token verify_password token cookie header now db).1
  unfolding logout
  logout-IsSound none cookie header now db s = s
  logout-IsSound (some t) cookie header now db s = elim (Bool-cases (t == "")) [
    | inl e ↦ rw e s
    | inr e ↦ elim (Bool-cases (csrf_holds cookie header)) [
      | inr c ↦ rw (e, c) s
      | inl c ↦ elim (revoke_refresh_token-cases t now db) [
        | inl r ↦ rw (e, c, r) s
        | inr r ↦
            rw (e, c, r.1)
              (log-IsSound "auth.logout" none r.0.1.username (revoke_family r.0.0.family_id now db)
                (revoke_family-IsSound r.0.0.family_id now db s))
      ]
    ]
  ]

  abbrev pub call : Call → AuthDb → AuthDb
  call (logs_in username password dummy fresh now) db =
      (login hash_refresh_token verify_password username password dummy fresh now db).1
  call (refreshes token cookie header fresh now) db =
      (refresh hash_refresh_token verify_password token cookie header fresh now db).1
  call (logs_out token cookie header now) db =
      (logout hash_refresh_token verify_password token cookie header now db).1

  abbrev pub calls : List Call → AuthDb → AuthDb
  calls [] db = db
  calls (c ∷ cs) db = calls cs (call c db)

  call-IsSound : (c : Call) (db : AuthDb) → IsSound db → IsSound (call c db)
  call-IsSound (logs_in username password dummy fresh now) db =
      login-IsSound username password dummy fresh now db
  call-IsSound (refreshes token cookie header fresh now) db =
      refresh-IsSound token cookie header fresh now db
  call-IsSound (logs_out token cookie header now) db = logout-IsSound token cookie header now db

  calls-IsSound : (cs : List Call) (db : AuthDb) → IsSound db → IsSound (calls cs db)
  calls-IsSound [] db s = s
  calls-IsSound (c ∷ cs) db s = calls-IsSound cs (call c db) (call-IsSound c db s)

  -- However logins, refreshes and logouts follow one another, from tables without tokens, at most
  -- one token of a family is active.
  pub one_active_token :
      (cs : List Call) (db : AuthDb) (family : ℕ)
      → db.tokens ≡ []
      → leb (active_count family (calls cs db)) 1 ≡ true
  unfolding count
  one_active_token cs db family none_yet =
      (calls-IsSound cs db
          (record { one_active = λ f. rw none_yet refl; older = rw none_yet tt })).one_active
        family

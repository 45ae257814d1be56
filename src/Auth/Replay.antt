-- ===== src/Auth/Replay.antt =====
-- A refresh token is for one use: src/oncall/auth/tokens.py.
use oncall.Prelude.{
  ℕ, Bool, String, arith, count-update_where-none, false, find, find-update_first, find_sound,
  nat_eq, ok, raised, refl, some, string_eq, ◌==◌, ◌≡◌,
}
use oncall.Auth.Tokens.{
  AuthDb, rotate_refresh_token, RefreshToken, User, is_active_in, issue_refresh_token,
  lock_token_and_user, reuse_detected, revoke_family, revoke_row, revoke_token,
}
use oncall.Auth.Families.{active_count, rotate_refresh_token-rotated, revoke_ends}

module _ (hash_refresh_token : String → String) where
  users_kept :
      (raw_token fresh : String) (now : ℕ) (db db' : AuthDb) (u : User) (issued : String)
      → (rotate_refresh_token hash_refresh_token raw_token fresh now db).0 ≡ ok (u, issued, db')
      → db'.users ≡ db.users
  unfolding rotate_refresh_token issue_refresh_token revoke_token
  users_kept raw_token fresh now db db' u issued h = ground arith

  lock-found :
      (raw_token : String) (db : AuthDb) (t : RefreshToken) (u : User)
      → find (λ x. x.token_hash == hash_refresh_token raw_token) db.tokens ≡ some t
      → find (λ x. x.id == t.user_id) db.users ≡ some u
      → lock_token_and_user hash_refresh_token raw_token db ≡ some (t, u)
  unfolding lock_token_and_user
  lock-found raw_token db t u h k = rw (lock_token_and_user, h, k)

  owner_found :
      (raw_token fresh : String) (now : ℕ) (db db' : AuthDb) (u : User) (issued : String)
      (t : RefreshToken)
      → (rotate_refresh_token hash_refresh_token raw_token fresh now db).0 ≡ ok (u, issued, db')
      → find (λ x. x.token_hash == hash_refresh_token raw_token) db.tokens ≡ some t
      → find (λ x. x.id == t.user_id) db.users ≡ some u
  unfolding rotate_refresh_token issue_refresh_token lock_token_and_user
  owner_found raw_token fresh now db db' u issued t h k = ground arith

  revoked_is_replay :
      (raw_token fresh : String) (now at : ℕ) (db : AuthDb) (t : RefreshToken) (u : User)
      → lock_token_and_user hash_refresh_token raw_token db ≡ some (t, u)
      → t.revoked_at ≡ some at
      → rotate_refresh_token hash_refresh_token raw_token fresh now db
        ≡ (raised reuse_detected, revoke_family t.family_id now db)
  unfolding rotate_refresh_token
  revoked_is_replay raw_token fresh now at db t u h k = rw (rotate_refresh_token, h, k)

  -- A token that has been rotated, for a replacement with another hash, is of no more use: presented
  -- again, it is refused as a replay, and then no token of its family is active.
  pub replay_ends_family :
      (raw_token fresh again : String) (now later : ℕ) (db db' : AuthDb) (u : User)
      (issued : String)
      → (rotate_refresh_token hash_refresh_token raw_token fresh now db).0 ≡ ok (u, issued, db')
      → (hash_refresh_token fresh == hash_refresh_token raw_token) ≡ false
      → (t : RefreshToken) × (find (λ x. x.token_hash == hash_refresh_token raw_token) db.tokens
          ≡ some t)
        × ((rotate_refresh_token hash_refresh_token raw_token again later db').0
            ≡ raised reuse_detected)
        × (active_count t.family_id
              (rotate_refresh_token hash_refresh_token raw_token again later db').1
            ≡ 0)
  unfolding find revoke_token revoke_family
  replay_ends_family raw_token fresh again now later db db' u issued h d =
      let test : RefreshToken → Bool = λ x. x.token_hash == hash_refresh_token raw_token in
      let (t, found, _, _, new, _, _, hash, rows) =
        rotate_refresh_token-rotated hash_refresh_token raw_token fresh now db db' u issued h in
      let old : find test db'.tokens ≡ some (revoke_row now t) =
        rw (rows, find, hash, d)
          (find-update_first test (revoke_row now) db.tokens found
            (find_sound test db.tokens found)) in
      let owner : find (λ x. x.id == t.user_id) db'.users ≡ some u =
        rw (users_kept raw_token fresh now db db' u issued h)
          (owner_found raw_token fresh now db db' u issued t h found) in
      let replay =
        revoked_is_replay raw_token again later now db' (revoke_row now t) u
          (lock-found raw_token db' (revoke_row now t) u old owner) refl in
      (
        t,
        found,
        rw replay,
        rw replay (
            count-update_where-none (is_active_in t.family_id) (revoke_row later) db'.tokens
              (revoke_ends t.family_id later)),
      )

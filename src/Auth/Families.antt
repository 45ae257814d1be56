-- ===== src/Auth/Families.antt =====
-- The invariant of the token families: at most one token of a family is active.
use mathlib.Core.Path.{subst, sym}
use oncall.Prelude.{
  ℕ, All, All-update_where, arith, count, count-update_where-le, false, leb, ltb, true, ◌≡◌,
  Option-cases, String, find, inl, inr, nat_eq, none, ok, refl, some, string_eq, ◌+◌, ◌==◌, ◌∷◌,
  All-update_first, Bool, Bool-cases, count-update_first-less, count-update_first-same, find-All,
  raised,
}
use oncall.Auth.Tokens.{
  AuthDb, RefreshToken, is_active_in, revoke_family, revoke_row, User, issue_refresh_token,
  lock_token_and_user, refresh_token_lifetime, revoke_token, rotate_refresh_token, reuse_detected,
}

abbrev pub active_count : ℕ → AuthDb → ℕ
active_count family db = count (is_active_in family) db.tokens

pub record IsSound (db : AuthDb) : Type 0 where
  pub one_active : (family : ℕ) → leb (active_count family db) 1 ≡ true
  pub older : All (λ t. ltb t.family_id db.next_id ≡ true) db.tokens

pub revoke_ends :
    (family now : ℕ) (t : RefreshToken) → is_active_in family (revoke_row now t) ≡ false
revoke_ends family now t = ground arith

pub revoke_family-IsSound :
    (family now : ℕ) (db : AuthDb) → IsSound db → IsSound (revoke_family family now db)
unfolding revoke_family
revoke_family-IsSound family now db s = record {
  one_active = λ f. ground (
    arith,
    s.one_active f,
    count-update_where-le (is_active_in f) (is_active_in family) (revoke_row now) db.tokens
        (λ t _. revoke_ends f now t),
  );
  older =
      All-update_where (λ t. ltb t.family_id db.next_id ≡ true) (is_active_in family)
        (revoke_row now) db.tokens (λ t h. h) s.older;
}

module _ (hash_refresh_token : String → String) where
  pub locked-found :
      (raw_token : String) (db : AuthDb) (r : RefreshToken × User)
      → lock_token_and_user hash_refresh_token raw_token db ≡ some r
      → find (λ t. t.token_hash == hash_refresh_token raw_token) db.tokens ≡ some r.0
  unfolding lock_token_and_user
  locked-found raw_token db r h = ground arith

  -- The rotation of an active token.
  pub rotate_refresh_token-rotated :
      (raw_token fresh : String) (now : ℕ) (db db' : AuthDb) (u : User) (issued : String)
      → (rotate_refresh_token hash_refresh_token raw_token fresh now db).0 ≡ ok (u, issued, db')
      → (t : RefreshToken) × (find (λ x. x.token_hash == hash_refresh_token raw_token) db.tokens
          ≡ some t)
        × (t.revoked_at ≡ none)
        × (db'.next_id ≡ db.next_id)
        × (new : RefreshToken) × (new.family_id ≡ t.family_id)
        × (new.revoked_at ≡ none)
        × (new.token_hash ≡ hash_refresh_token fresh)
        × (db'.tokens ≡ new ∷ (revoke_token hash_refresh_token raw_token now db).tokens)
  unfolding rotate_refresh_token issue_refresh_token revoke_token
  rotate_refresh_token-rotated raw_token fresh now db db' u issued h =
      elim (Option-cases (lock_token_and_user hash_refresh_token raw_token db)) [
        | inl e ↦ absurd (ground arith)
        | inr e ↦ (
          e.0.0,
          locked-found raw_token db e.0 e.1,
          ground arith,
          ground arith,
          record {
            user_id = e.0.1.id;
            family_id = e.0.0.family_id;
            token_hash = hash_refresh_token fresh;
            expires_at = now + refresh_token_lifetime;
            revoked_at = none;
          },
          refl,
          refl,
          refl,
          ground arith,
        )
      ]

  -- The replay of a token that has been rotated.
  pub rotate_refresh_token-replayed :
      (raw_token fresh : String) (now : ℕ) (db : AuthDb)
      → (rotate_refresh_token hash_refresh_token raw_token fresh now db).0 ≡ raised reuse_detected
      → (t : RefreshToken) × (find (λ x. x.token_hash == hash_refresh_token raw_token) db.tokens
          ≡ some t)
        × ((rotate_refresh_token hash_refresh_token raw_token fresh now db).1
            ≡ revoke_family t.family_id now db)
  unfolding rotate_refresh_token issue_refresh_token
  rotate_refresh_token-replayed raw_token fresh now db h =
      elim (Option-cases (lock_token_and_user hash_refresh_token raw_token db)) [
        | inl e ↦ absurd (ground arith)
        | inr e ↦ (e.0.0, locked-found raw_token db e.0 e.1, ground arith)
      ]

  pub rotate_refresh_token-IsSound :
      (raw_token fresh : String) (now : ℕ) (db db' : AuthDb) (u : User) (issued : String)
      → IsSound db
      → (rotate_refresh_token hash_refresh_token raw_token fresh now db).0 ≡ ok (u, issued, db')
      → IsSound db'
  unfolding revoke_token count
  rotate_refresh_token-IsSound raw_token fresh now db db' u issued s h =
      let test : RefreshToken → Bool = λ x. x.token_hash == hash_refresh_token raw_token in
      let (t, found, live, ids, new, family, fresh_live, _, rows) =
        rotate_refresh_token-rotated raw_token fresh now db db' u issued h in
      let db1 : AuthDb = revoke_token hash_refresh_token raw_token now db in
      record {
        one_active = λ f. elim (Bool-cases (t.family_id == f)) [
          | inl e ↦ ground (
            arith,
            s.one_active f,
            count-update_first-less (is_active_in f) test (revoke_row now) db.tokens found,
            revoke_ends f now t,
          )
          | inr e ↦ ground (
            arith,
            s.one_active f,
            count-update_first-same (is_active_in f) test (revoke_row now) db.tokens found,
          )
        ];
        older =
            subst (λ n. All (λ x. ltb x.family_id n ≡ true) db'.tokens) (sym ids)
              (rw rows (
                rw family (
                    find-All (λ x. ltb x.family_id db.next_id ≡ true) test db.tokens found s.older),
                All-update_first (λ x. ltb x.family_id db.next_id ≡ true) test (revoke_row now)
                    db.tokens (λ x p. p) s.older,
              ));
      }

-- ===== src/Auth/Tokens.antt =====
-- The rotating refresh tokens: src/oncall/auth/tokens.py. SHA-256 is a parameter, the random value
-- of a new token and the time of a call are arguments.
use oncall.Prelude.{
  ℕ, Bool, String, none, List, Option, Outcome, find, if◌then◌else◌, is_some, leb, nat_eq, not, ok,
  raised, some, string_eq, suc, update_first, update_where, ◌&&◌, ◌+◌, ◌==◌, ◌>>=◌, ◌||◌, ◌∷◌,
}

pub record User : Type 0 where
  pub id : ℕ
  pub username : String
  pub password_hash : String
  pub role : String
  pub is_active : Bool

pub record RefreshToken : Type 0 where
  pub user_id : ℕ
  pub family_id : ℕ
  pub token_hash : String
  pub expires_at : ℕ
  pub revoked_at : Option ℕ

pub record AuthAudit : Type 0 where
  pub event_type : String
  pub user_id : Option ℕ
  pub actor : String

-- The tables that authentication uses. `next_id` is what the next `uuid4()` returns.
pub record AuthDb : Type 0 where
  pub next_id : ℕ
  pub users : List User
  pub tokens : List RefreshToken
  pub audit : List AuthAudit

pub data TokenError : Type 0 where
  invalid_refresh_token reuse_detected : TokenError

-- Seven days in microseconds.
abbrev pub refresh_token_lifetime : ℕ
refresh_token_lifetime = 604800000000

-- `revoked_at IS NULL` in a family
abbrev pub is_active_in : ℕ → RefreshToken → Bool
is_active_in family t = t.family_id == family && not (is_some t.revoked_at)

abbrev pub revoke_row : ℕ → RefreshToken → RefreshToken
revoke_row now t = record t { revoked_at = some now }

-- The bulk update that both a replay and a logout do.
unfoldable pub revoke_family : ℕ → ℕ → AuthDb → AuthDb
unfolding update_where
revoke_family family now db = record db {
  tokens = update_where (is_active_in family) (revoke_row now) db.tokens;
}

abbrev pub new_token : ℕ → ℕ → String → ℕ → RefreshToken
new_token user_id family token_hash now = record {
  user_id = user_id;
  family_id = family;
  token_hash = token_hash;
  expires_at = now + refresh_token_lifetime;
  revoked_at = none;
}

-- `family_id or uuid4()`
abbrev pub family_of : Option ℕ → AuthDb → ℕ
family_of none db = db.next_id
family_of (some f) db = f

abbrev pub next_of : Option ℕ → AuthDb → ℕ
next_of none db = suc db.next_id
next_of (some f) db = db.next_id

module _ (hash_refresh_token : String → String) where
  unfoldable pub issue_refresh_token :
      ℕ → Option ℕ → String → ℕ → AuthDb → Outcome TokenError (String × AuthDb)
  unfolding find
  issue_refresh_token user_id family raw_token now db =
      elim (find (λ u. u.id == user_id) db.users) [
        | none ↦ raised invalid_refresh_token
        | some u ↦
            if not u.is_active
            then raised invalid_refresh_token
            else ok (
              raw_token,
              record db {
                next_id = next_of family db;
                tokens =
                    new_token user_id (family_of family db) (hash_refresh_token raw_token) now
                    ∷ db.tokens;
              },
            )
      ]

  -- `_lock_token_and_user`; the two queries for the token see the same rows.
  unfoldable pub lock_token_and_user : String → AuthDb → Option (RefreshToken × User)
  unfolding find
  lock_token_and_user raw_token db =
      elim (find (λ t. t.token_hash == hash_refresh_token raw_token) db.tokens) [
        | none ↦ none
        | some t ↦ elim (find (λ u. u.id == t.user_id) db.users) [
          | none ↦ none
          | some u ↦ some (t, u)
        ]
      ]

  -- The assignment to the loaded row.
  unfoldable pub revoke_token : String → ℕ → AuthDb → AuthDb
  unfolding update_first
  revoke_token raw_token now db = record db {
    tokens =
        update_first (λ t. t.token_hash == hash_refresh_token raw_token) (revoke_row now) db.tokens;
  }

  -- The result, and what the session holds when it is returned or raised.
  unfoldable pub rotate_refresh_token :
      String → String → ℕ → AuthDb → Outcome TokenError (User × String × AuthDb) × AuthDb
  rotate_refresh_token raw_token fresh now db = elim (lock_token_and_user raw_token db) [
    | none ↦ (raised invalid_refresh_token, db)
    | some r ↦
        if is_some r.0.revoked_at
        then (raised reuse_detected, revoke_family r.0.family_id now db)
        else if leb r.0.expires_at now || not r.1.is_active
        then (raised invalid_refresh_token, db)
        else (
          (do
            (replacement, db') ←
                issue_refresh_token r.1.id (some r.0.family_id) fresh now
                  (revoke_token raw_token now db)
            ok (r.1, replacement, db')),
          revoke_token raw_token now db,
        )
  ]

  unfoldable pub revoke_refresh_token : String → ℕ → AuthDb → Option User × AuthDb
  revoke_refresh_token raw_token now db = elim (lock_token_and_user raw_token db) [
    | none ↦ (none, db)
    | some r ↦ (some r.1, revoke_family r.0.family_id now db)
  ]

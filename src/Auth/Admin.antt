-- ===== src/Auth/Admin.antt =====
-- The administration of users: src/oncall/auth/admin_router.py, with the checks of a request's user in
-- src/oncall/auth/dependencies.py. A lock on the invariant of the administrators lets the updates happen
-- one after the other. The check of the access token, the password's hash and the validation of a name
-- and a password are left to the caller.
use oncall.Prelude.{
  ℕ, Bool, List, Option, Outcome, String, [], any, count, false, find, if◌then◌else◌, is_some, leb,
  nat_eq, none, not, ok, raised, some, string_eq, suc, true, update_first, update_where, ◌&&◌, ◌==◌,
  ◌||◌, ◌∷◌,
}
use oncall.Auth.Tokens.{User, AuthDb, RefreshToken, revoke_row}

-- A valid request asks for a role or a state, or both.
pub record UserUpdateRequest : Type 0 where
  pub role : Option String
  pub is_active : Option Bool

pub data AdminAnswer : Type 0 where
  user_changed : User → AdminAnswer
  -- 401, 403, 404, 409 for a name and 409 for the last administrator
  no_session not_permitted user_missing name_taken last_admin : AdminAnswer

abbrev pub known_roles : List String
known_roles = "viewer" ∷ "operator" ∷ "approver" ∷ "admin" ∷ []

-- `get_current_user`, of the identifier that the access token shows, if it is valid
unfoldable pub get_current_user : Option ℕ → AuthDb → Option User
unfolding find
get_current_user none db = none
get_current_user (some id) db = elim (find (λ u. u.id == id) db.users) [
  | none ↦ none
  | some u ↦ if u.is_active && any (λ r. r == u.role) known_roles then some u else none
]

-- `require_roles`
unfoldable pub require_roles : List String → Option ℕ → AuthDb → Outcome AdminAnswer User
unfolding get_current_user
require_roles allowed subject db = elim (get_current_user subject db) [
  | none ↦ raised no_session
  | some u ↦ if any (λ r. r == u.role) allowed then ok u else raised not_permitted
]

abbrev pub is_active_admin : User → Bool
is_active_admin u = u.role == "admin" && u.is_active

abbrev or_kept {ℓ} : {A : Type ℓ} → Option A → A → A
or_kept none old = old
or_kept (some new) old = new

abbrev pub changed : UserUpdateRequest → User → User
changed payload u = record u {
  role = or_kept payload.role u.role;
  is_active = or_kept payload.is_active u.is_active;
}

abbrev pub demotes : Option String → Bool
demotes none = false
demotes (some r) = not (r == "admin")

abbrev pub disables : Option Bool → Bool
disables (some false) = true
disables _ = false

abbrev pub removes_active_admin : UserUpdateRequest → User → Bool
removes_active_admin payload u =
    is_active_admin u && (demotes payload.role || disables payload.is_active)

abbrev pub is_open_token : ℕ → RefreshToken → Bool
is_open_token user_id t = t.user_id == user_id && not (is_some t.revoked_at)

abbrev log_admin : String → User → AuthDb → AuthDb
log_admin event actor db = record db {
  audit = record { event_type = event; user_id = none; actor = actor.username } ∷ db.audit;
}

-- The assignments of `update_user` to the loaded user.
abbrev pub store_user : UserUpdateRequest → User → User → ℕ → AuthDb → AuthDb
store_user payload u actor now db = log_admin "admin.user_updated" actor (record db {
  users = update_first (λ x. x.id == u.id) (changed payload) db.users;
  tokens =
      if disables payload.is_active
      then update_where (is_open_token u.id) (revoke_row now) db.tokens
      else db.tokens;
})

-- `update_user`
unfoldable pub update_user : ℕ → UserUpdateRequest → Option ℕ → ℕ → AuthDb → AdminAnswer × AuthDb
unfolding require_roles find count update_first update_where
update_user user_id payload subject now db = elim (require_roles ("admin" ∷ []) subject db) [
  | raised refusal ↦ (refusal, db)
  | ok actor ↦ elim (find (λ u. u.id == user_id) db.users) [
    | none ↦ (user_missing, db)
    | some u ↦
        if removes_active_admin payload u && leb (count is_active_admin db.users) 1
        then (last_admin, db)
        else (user_changed (changed payload u), store_user payload u actor now db)
  ]
]

-- `create_user`; a name that is there violates the constraint on names.
unfoldable pub create_user : String → String → String → Option ℕ → AuthDb → AdminAnswer × AuthDb
unfolding require_roles
create_user username password_hash role subject db =
    elim (require_roles ("admin" ∷ []) subject db) [
      | raised refusal ↦ (refusal, db)
      | ok actor ↦
          if any (λ u. u.username == username) db.users
          then (name_taken, db)
          else (let new : User = record {
            id = db.next_id;
            username = username;
            password_hash = password_hash;
            role = role;
            is_active = true;
          } in
              (
                user_changed new,
                log_admin "admin.user_created" actor
                    (record db { next_id = suc db.next_id; users = new ∷ db.users }),
              ))
    ]

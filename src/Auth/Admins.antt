-- ===== src/Auth/Admins.antt =====
-- The laws of the administration of users: update_user of src/oncall/auth/admin_router.py.
use oncall.Auth.Admin.{
  UserUpdateRequest, removes_active_admin, changed, is_active_admin, require_roles, update_user,
  get_current_user, is_open_token, user_changed, AdminAnswer, store_user,
}
use oncall.Prelude.{
  Bool, Bool-cases, List, Option, String, [], arith, count, false, find, inl, inr, leb, nat_eq,
  none, refl, some, string_eq, suc, true, update_first, ◌&&◌, ◌==◌, ◌∷◌, ◌≡◌, find_sound, ℕ,
  Option-cases, Outcome-cases, subst, sym, count-update_where-none, raised, update_where,
  find-update_first,
}
use oncall.Auth.Tokens.{User, AuthDb, revoke_row}

module _ {ℓ} {A : Type ℓ} (p : A → Bool) (q : A → Bool) (f : A → A) where
  count-update_first-kept :
      (xs : List A) {x : A}
      → find q xs ≡ some x
      → (p x ≡ true → p (f x) ≡ true)
      → leb (count p xs) (count p (update_first q f xs)) ≡ true
  unfolding count find update_first
  count-update_first-kept [] h k = refl
  count-update_first-kept (y ∷ xs) {x} h k = ground (arith, count-update_first-kept xs {x = x})

  count-update_first-loses_one :
      (xs : List A) → leb (count p xs) (suc (count p (update_first q f xs))) ≡ true
  unfolding count update_first
  count-update_first-loses_one [] = refl
  count-update_first-loses_one (y ∷ xs) = ground (arith, count-update_first-loses_one xs)

-- An active administrator whom an update does not remove stays one.
changed-is_active_admin :
    (r : Option String) (a : Option Bool) (u : User)
    → removes_active_admin (record { role = r; is_active = a }) u ≡ false
    → is_active_admin u ≡ true
    → is_active_admin (changed (record { role = r; is_active = a }) u) ≡ true
changed-is_active_admin none none u h k = k
changed-is_active_admin none (some true) u h k = ground arith
changed-is_active_admin none (some false) u h k = ground arith
changed-is_active_admin (some r) none u h k = ground arith
changed-is_active_admin (some r) (some true) u h k = ground arith
changed-is_active_admin (some r) (some false) u h k = ground arith

store_user-keeps_admin :
    (payload : UserUpdateRequest) (u : User) (db : AuthDb)
    (f : find (λ x. x.id == u.id) db.users ≡ some u)
    → (removes_active_admin payload u && leb (count is_active_admin db.users) 1) ≡ false
    → leb 1 (count is_active_admin db.users) ≡ true
    → leb 1 (count is_active_admin (update_first (λ x. x.id == u.id) (changed payload) db.users))
      ≡ true
store_user-keeps_admin payload u db f g h = elim (Bool-cases (removes_active_admin payload u)) [
  | inl e ↦ ground (
    arith,
    count-update_first-loses_one is_active_admin (λ x. x.id == u.id) (changed payload) db.users,
  )
  | inr e ↦ ground (
    arith,
    count-update_first-kept is_active_admin (λ x. x.id == u.id) (changed payload) db.users {x = u} f
        (changed-is_active_admin payload.role payload.is_active u e),
  )
]

-- One request of update_user: the user it is about, the payload, the identifier in the access token and
-- the time.
pub record Update : Type 0 where
  pub user_id : ℕ
  pub payload : UserUpdateRequest
  pub subject : Option ℕ
  pub now : ℕ

abbrev pub updates : List Update → AuthDb → AuthDb
updates [] db = db
updates (r ∷ rs) db = updates rs (update_user r.user_id r.payload r.subject r.now db).1

-- The loaded user is the first with its identifier.
found_again :
    (user_id : ℕ) (u : User) (db : AuthDb)
    → find (λ x. x.id == user_id) db.users ≡ some u
    → find (λ x. x.id == u.id) db.users ≡ some u
found_again user_id u db h =
    let id : u.id ≡ user_id =
      ground (arith, find_sound (λ x. x.id == user_id) db.users {x = u} h) in
    subst (λ n. find (λ x. x.id == n) db.users ≡ some u) (sym id) h

update_user-keeps_admin :
    (user_id : ℕ) (payload : UserUpdateRequest) (subject : Option ℕ) (now : ℕ) (db : AuthDb)
    → leb 1 (count is_active_admin db.users) ≡ true
    → leb 1 (count is_active_admin (update_user user_id payload subject now db).1.users) ≡ true
unfolding update_user
update_user-keeps_admin user_id payload subject now db h =
    elim (Outcome-cases (require_roles ("admin" ∷ []) subject db)) [
      | inr (refusal, e) ↦ rw (e, update_user) h
      | inl (actor, r) ↦ elim (Option-cases (find (λ u. u.id == user_id) db.users)) [
        | inl e ↦ rw (r, e, update_user) h
        | inr (u, e) ↦
            elim (Bool-cases
              (removes_active_admin payload u && leb (count is_active_admin db.users) 1)) [
                | inl g ↦ rw (r, e, g, update_user) h
                | inr g ↦
                    rw (r, e, g, update_user)
                      (store_user-keeps_admin payload u db (found_again user_id u db e) g h)
              ]
      ]
    ]

-- An active administrator stays: when at least one user is an active administrator, at least one is
-- after any sequence of updates of users, by whoever asks for them.
pub administrator_remains :
    (requests : List Update) (db : AuthDb)
    → leb 1 (count is_active_admin db.users) ≡ true
    → leb 1 (count is_active_admin (updates requests db).users) ≡ true
administrator_remains [] db h = h
administrator_remains (r ∷ rs) db h =
    administrator_remains rs (update_user r.user_id r.payload r.subject r.now db).1
      (update_user-keeps_admin r.user_id r.payload r.subject r.now db h)

refusal-not_user_changed :
    (subject : Option ℕ) (db : AuthDb) (v : User) {refusal : AdminAnswer}
    → refusal ≡ user_changed v
    → require_roles ("admin" ∷ []) subject db ≡ raised refusal
    → ⊥
unfolding require_roles
refusal-not_user_changed subject db v {refusal} h e = ground arith

-- What is stored for a user who is disabled.
disabled :
    (user_id : ℕ) (payload : UserUpdateRequest) (u actor : User) (now : ℕ) (db : AuthDb)
    → payload.is_active ≡ some false
    → find (λ x. x.id == user_id) db.users ≡ some u
    → (count (is_open_token user_id) (update_where (is_open_token u.id) (revoke_row now) db.tokens)
        ≡ 0)
      × (get_current_user (some user_id) (store_user payload u actor now db) ≡ none)
unfolding get_current_user
disabled user_id payload u actor now db p e =
    let sound : (u.id == user_id) ≡ true = find_sound (λ x. x.id == user_id) db.users {x = u} e in
    let id : u.id ≡ user_id = ground (arith, sound) in
    let again =
      subst
        (λ n.
          find (λ x. x.id == user_id) (update_first (λ x. x.id == n) (changed payload) db.users)
          ≡ some (changed payload u))
        (sym id)
        (find-update_first (λ x. x.id == user_id) (changed payload) db.users {x = u} e sound) in
    (
      rw id (
          count-update_where-none (is_open_token user_id) (revoke_row now) db.tokens
            (λ t. ground arith)),
      rw (again, p, get_current_user) refl,
    )

-- Disabling a user ends the sessions: when update_user with is_active false answers with a changed user,
-- the tables that it leaves have no open refresh token of that user and refuse the user's access token.
pub update_user-ends_sessions :
    (user_id : ℕ) (role : Option String) (subject : Option ℕ) (now : ℕ) (db : AuthDb) (v : User)
    → (update_user user_id (record { role = role; is_active = some false }) subject now db).0
      ≡ user_changed v
    → (count
          (is_open_token user_id)
          (update_user user_id
            (record { role = role; is_active = some false })
            subject
            now
            db).1.tokens
        ≡ 0)
      × (get_current_user
            (some user_id)
            (update_user user_id (record { role = role; is_active = some false }) subject now db).1
          ≡ none)
unfolding update_user get_current_user
update_user-ends_sessions user_id role subject now db v h =
    let payload : UserUpdateRequest = record { role = role; is_active = some false } in
    elim (Outcome-cases (require_roles ("admin" ∷ []) subject db)) [
      | inr (refusal, e) ↦
          absurd (refusal-not_user_changed subject db v (rw (e, update_user) at h) e)
      | inl (actor, r) ↦ elim (Option-cases (find (λ u. u.id == user_id) db.users)) [
        | inl e ↦ absurd (let h' = rw (r, e, update_user) at h in cc)
        | inr (u, e) ↦
            elim (Bool-cases
              (removes_active_admin payload u && leb (count is_active_admin db.users) 1)) [
                | inl g ↦ absurd (let h' = rw (r, e, g, update_user) at h in cc)
                | inr g ↦ rw (r, e, g, update_user) (disabled user_id payload u actor now db refl e)
              ]
      ]
    ]

-- ===== src/Tests/Sessions.antt =====
-- The theorems on refresh tokens at concrete inputs.
use oncall.Auth.Admin.{is_active_admin, update_user, get_current_user, is_open_token, require_roles}
use oncall.Auth.Admins.{Update, administrator_remains, update_user-ends_sessions, updates}
use oncall.Auth.Replay.{replay_ends_family}
use oncall.Tests.Data.{value_or}
use oncall.Auth.Families.{active_count}
use oncall.Prelude.{
  String, Bool, List, [], find, leb, nat_eq, none, raised, refl, some, string_eq, true, ◌==◌, ◌∷◌,
  ◌≡◌, Option, count, false, update_first, update_where, ℕ,
}
use oncall.Auth.Tokens.{
  AuthDb, User, RefreshToken, issue_refresh_token, lock_token_and_user, reuse_detected,
  revoke_token, rotate_refresh_token,
}
use oncall.Auth.Sessions.{Call, calls, logs_in, one_active_token, refreshes}

abbrev hash : String → String
hash s = s

abbrev verify_password : String → String → Bool
verify_password given stored = given == stored

abbrev ann : User
ann = record { id = 1; username = "ann"; password_hash = "pw"; role = "admin"; is_active = true }

abbrev users_db : AuthDb
users_db = record { next_id = 5; users = ann ∷ []; tokens = []; audit = [] }

abbrev requests : List Call
requests =
    logs_in "ann" "pw" "dummy" "t1" 0
    ∷ refreshes (some "t1") (some "c") (some "c") "t2" 10
    ∷ refreshes (some "t1") (some "c") (some "c") "t3" 20
    ∷ []

one_active_token_example :
    leb (active_count 5 (calls hash verify_password requests users_db)) 1 ≡ true
one_active_token_example = one_active_token hash verify_password requests users_db 5 refl

abbrev session_db : AuthDb
session_db = record {
  next_id = 6;
  users = ann ∷ [];
  tokens =
      record { user_id = 1; family_id = 5; token_hash = "t1"; expires_at = 1000; revoked_at = none }
      ∷ [];
  audit = [];
}

abbrev rotated : User × String × AuthDb
rotated = value_or (ann, "", session_db) (rotate_refresh_token hash "t1" "t2" 10 session_db).0

replay_ends_family_example :
    (t : RefreshToken) × (find (λ x. x.token_hash == "t1") session_db.tokens ≡ some t)
    × ((rotate_refresh_token hash "t1" "t3" 20 rotated.2).0 ≡ raised reuse_detected)
    × (active_count t.family_id (rotate_refresh_token hash "t1" "t3" 20 rotated.2).1 ≡ 0)
unfolding rotate_refresh_token lock_token_and_user issue_refresh_token revoke_token find
replay_ends_family_example =
    replay_ends_family hash "t1" "t2" "t3" 10 20 session_db rotated.2 ann "t2" refl refl

abbrev bob : User
bob = record { id = 2; username = "bob"; password_hash = "pw2"; role = "admin"; is_active = true }

-- Two administrators, one session each.
abbrev admins_db : AuthDb
admins_db = record {
  next_id = 8;
  users = ann ∷ bob ∷ [];
  tokens =
      record { user_id = 1; family_id = 5; token_hash = "t1"; expires_at = 1000; revoked_at = none }
      ∷ record {
        user_id = 2;
        family_id = 6;
        token_hash = "t2";
        expires_at = 1000;
        revoked_at = none;
      }
      ∷ [];
  audit = [];
}

abbrev requested : ℕ → Option String → Option Bool → Option ℕ → Update
requested user_id role active subject = record {
  user_id = user_id;
  payload = record { role = role; is_active = active };
  subject = subject;
  now = 30;
}

-- Each tries to remove the other, and then the first one himself.
abbrev removals : List Update
removals =
    requested 2 (some "viewer") none (some 1)
    ∷ requested 1 none (some false) (some 2)
    ∷ requested 1 (some "operator") (some false) (some 1)
    ∷ []

administrator_remains_example :
    leb 1 (count is_active_admin (updates removals admins_db).users) ≡ true
unfolding count
administrator_remains_example = administrator_remains removals admins_db refl

update_user-ends_sessions_example :
    (count
        (is_open_token 2)
        (update_user 2
          (record { role = none; is_active = some false })
          (some 1)
          30
          admins_db).1.tokens
      ≡ 0)
    × (get_current_user
          (some 2)
          (update_user 2 (record { role = none; is_active = some false }) (some 1) 30 admins_db).1
        ≡ none)
unfolding update_user require_roles get_current_user find count update_first update_where
update_user-ends_sessions_example =
    update_user-ends_sessions 2 none (some 1) 30 admins_db (record bob { is_active = false }) refl

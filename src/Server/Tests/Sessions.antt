-- ===== src/Server/Tests/Sessions.antt =====
-- One user with one session.
use lightai_platform.Prelude.Rows.{select_one, update}
use lightai_platform.Prelude.{◌≡◌, refl, ◌==◌, true, false, none, some, [], ◌∷◌, any}
use lightai_platform.Server.Sessions.{
  User, UserSession, Accounts, AuthUser, SessionPolicy, Hashes, authenticate_session, revoked,
  find_session, enrich_effective_role, highest_role, group_roles,
}
use lightai_platform.Server.Sessions.Password.{
  PasswordPolicy, is_open_of, new_password, change_user_password, validate_password,
}
use lightai_platform.Server.Sessions.Laws.{change_ends_sessions}

-- a hash is the text itself
abbrev pub plain_hashes : Hashes
plain_hashes = record {
  hash_token = λ s. s;
  hash_password = λ s. some s;
  verify_password = λ password hash. password == hash;
}

abbrev pub ann : User
ann = record {
  id = "u1";
  username = "ann";
  password_hash = "old";
  role = "operator";
  enabled = true;
  password_changed_at = 5;
  must_change_password = false;
  updated_at = 5;
}

abbrev session_one : UserSession
session_one = record {
  user_id = "u1";
  token_hash = "token";
  last_seen_at = 90;
  expires_at = 200;
  revoked_at = none;
}

abbrev pub one_user : Accounts
one_user = record {
  users = ann ∷ [];
  user_sessions = session_one ∷ [];
  user_groups = [];
  user_group_members = [];
}

abbrev pub short_sessions : SessionPolicy
short_sessions = record { ttl_secs = 100; idle_timeout_secs = some 50; secure_cookie = true }

abbrev pub ann_seen : AuthUser
ann_seen = record {
  id = "u1";
  username = "ann";
  role = "operator";
  effective_role = "operator";
  enabled = true;
  must_change_password = false;
}

abbrev pub seen_now : Accounts
seen_now = record one_user { user_sessions = record session_one { last_seen_at = 100 } ∷ [] }

token_is_good :
    authenticate_session plain_hashes 100 "token" short_sessions one_user
    ≡ (some ann_seen, seen_now)
unfolding authenticate_session find_session select_one enrich_effective_role update highest_role
    group_roles
token_is_good = refl

abbrev pub any_password : PasswordPolicy
any_password = record {
  min_length = 3;
  complexity_required = false;
  expires_days = none;
  force_change_after_reset = false;
}

abbrev after_change : Accounts
after_change = record one_user {
  users = new_password 100 "new" ann ∷ [];
  user_sessions = revoked 100 session_one ∷ [];
}

password_is_changed :
    change_user_password plain_hashes 100 "u1" "old" "new" any_password one_user
    ≡ (none, after_change)
unfolding change_user_password validate_password select_one update
password_is_changed = refl

change_example : any (is_open_of "u1") after_change.user_sessions ≡ false
change_example =
    change_ends_sessions plain_hashes 100 "u1" "old" "new" any_password one_user after_change
      password_is_changed

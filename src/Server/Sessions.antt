-- ===== src/Server/Sessions.antt =====
-- Sessions and passwords of users: login sessions, their check, their end and a change of password of
-- server/src/repository.rs. The hashes that server/src/auth.rs takes from the
-- crates sha2 and argon2 are a parameter.
pub mod Laws
pub mod Password
use lightai_platform.Prelude.{
  ℕ, ◌+◌, String, Bool, false, true, not, ◌&&◌, ◌||◌, Option, none, some, List, [], ◌∷◌, ◌==◌, leb,
  ltb, map, is_some, if◌then◌else◌,
}
use lightai_platform.Prelude.Rows.{select, select_one, update}
use lightai_platform.Prelude.Text.{any_char, is_upper}

pub record User : Type 0 where
  pub id : String
  pub username : String
  pub password_hash : String
  pub role : String
  pub enabled : Bool
  pub password_changed_at : ℕ
  pub must_change_password : Bool
  pub updated_at : ℕ

pub record UserSession : Type 0 where
  pub user_id : String
  pub token_hash : String
  pub last_seen_at : ℕ
  pub expires_at : ℕ
  pub revoked_at : Option ℕ

pub record UserGroup : Type 0 where
  pub id : String
  pub name : String
  pub role : String
  pub enabled : Bool

pub record GroupMember : Type 0 where
  pub group_id : String
  pub user_id : String

-- the tables users, user_sessions, user_groups and user_group_members
pub record Accounts : Type 0 where
  pub users : List User
  pub user_sessions : List UserSession
  pub user_groups : List UserGroup
  pub user_group_members : List GroupMember

pub record AuthUser : Type 0 where
  pub id : String
  pub username : String
  pub role : String
  pub effective_role : String
  pub enabled : Bool
  pub must_change_password : Bool

pub record SessionPolicy : Type 0 where
  pub ttl_secs : ℕ
  pub idle_timeout_secs : Option ℕ
  pub secure_cookie : Bool

-- server/src/auth.rs over its crates: `hash_token` and `verify_password`, and `hash_password` with the
-- salt that it draws, which may fail
pub record Hashes : Type 0 where
  pub hash_token : String → String
  pub hash_password : String → Option String
  pub verify_password : String → String → Bool

unfoldable pub role_rank : String → ℕ
role_rank role =
    if role == "admin"
    then 3
    else if role == "operator"
    then 2
    else if role == "viewer"
    then 1
    else 0

-- the loop over the roles of the groups
unfoldable pub highest_role : String → List String → String
highest_role effective [] = effective
highest_role effective (role ∷ roles) =
    highest_role (if ltb (role_rank effective) (role_rank role) then role else effective) roles

-- the role of the group, if it is enabled
abbrev role_of_group : Option UserGroup → List String → List String
role_of_group none roles = roles
role_of_group (some g) roles = g.role ∷ roles

unfoldable pub group_roles : List UserGroup → String → List GroupMember → List String
group_roles groups user_id [] = []
group_roles groups user_id (m ∷ ms) =
    let roles = group_roles groups user_id ms in
    if m.user_id == user_id
    then role_of_group (select_one (λ g. g.id == m.group_id && g.enabled) groups) roles
    else roles

abbrev pub user_from_row : User → AuthUser
user_from_row u = record {
  id = u.id;
  username = u.username;
  role = u.role;
  effective_role = u.role;
  enabled = u.enabled;
  must_change_password = u.must_change_password;
}

unfoldable pub enrich_effective_role : Accounts → AuthUser → AuthUser
enrich_effective_role a user = record user {
  effective_role = highest_role user.role (group_roles a.user_groups user.id a.user_group_members);
}

-- WHERE token_hash = ? AND revoked_at IS NULL AND expires_at > ?
abbrev pub is_open_session : ℕ → String → UserSession → Bool
is_open_session now hash s =
    s.token_hash == hash && not (is_some s.revoked_at) && ltb now s.expires_at

-- the JOIN with the users that are enabled
abbrev joined :
    UserSession → Option User → Option (UserSession × User) → Option (UserSession × User)
joined s none rest = rest
joined s (some u) rest = some (s, u)

unfoldable pub find_session :
    ℕ → String → List User → List UserSession → Option (UserSession × User)
find_session now hash users [] = none
find_session now hash users (s ∷ ss) =
    let rest = find_session now hash users ss in
    if is_open_session now hash s
    then joined s (select_one (λ u. u.id == s.user_id && u.enabled) users) rest
    else rest

-- UPDATE user_sessions SET f WHERE p
abbrev pub update_sessions :
    (UserSession → Bool) → (UserSession → UserSession) → Accounts → Accounts
update_sessions p f a = record a { user_sessions = update p f a.user_sessions }

abbrev pub has_hash : String → UserSession → Bool
has_hash hash s = s.token_hash == hash

abbrev pub revoked : ℕ → UserSession → UserSession
revoked now s = record s { revoked_at = some now }

-- now - last_seen_at > idle, over the integers
abbrev pub is_idle : ℕ → Option ℕ → UserSession → Bool
is_idle now none s = false
is_idle now (some idle) s = ltb (s.last_seen_at + idle) now

module _ (hashes : Hashes) where
  abbrev pub session_found :
      ℕ
      → String
      → SessionPolicy
      → Accounts
      → Option (UserSession × User)
      → Option AuthUser × Accounts
  session_found now hash policy a none = (none, a)
  session_found now hash policy a (some (s, u)) =
      if is_idle now policy.idle_timeout_secs s
      then (none, update_sessions (has_hash hash) (revoked now) a)
      else (
        some (enrich_effective_role a (user_from_row u)),
        update_sessions (has_hash hash) (λ x. record x { last_seen_at = now }) a,
      )

  unfoldable pub authenticate_session :
      ℕ → String → SessionPolicy → Accounts → Option AuthUser × Accounts
  authenticate_session now token policy a =
      let hash = hashes.hash_token token in
      session_found now hash policy a (find_session now hash a.users a.user_sessions)

  unfoldable pub revoke_session : ℕ → String → Accounts → Accounts
  revoke_session now token = update_sessions (has_hash (hashes.hash_token token)) (revoked now)

-- ===== src/Server/Users.antt =====
-- The users of server/src/repository.rs: the first admin, the creation, the list, the update and the
-- reset of a password, with the validators of their requests. Each operation is a function from the
-- tables to a reply and the tables. The id that it draws, the hashes and the time are arguments.
pub mod Groups
pub mod Laws
use lightai_platform.Prelude.{
  ℕ, ◌+◌, String, Bool, true, false, not, ◌&&◌, ◌||◌, Option, none, some, List, [], ◌∷◌, ◌==◌, leb,
  ltb, nat_eq, map, length, any, if◌then◌else◌, unwrap_or,
}
use lightai_platform.Prelude.Rows.{select, select_one, update, insert, sort_by}
use lightai_platform.Prelude.Text.{byte_length, all_char, is_upper, one_of, text_leb, trim}
use lightai_platform.Server.Sessions.{
  User, Accounts, AuthUser, Hashes, enrich_effective_role, user_from_row, update_sessions, revoked,
}
use lightai_platform.Server.Sessions.Password.{
  PasswordPolicy, AccountError, weak_password, user_not_found, hash_failed, bad_username, bad_role,
  setup_completed, last_admin, not_unique, row_lost, is_lower, is_digit, validate_password,
  is_open_of,
}

-- a value or an error of `anyhow`
pub data Reply (A : Type 0) : Type 0 where
  done : A → Reply A
  failed : AccountError → Reply A

pub record UserCreateRequest : Type 0 where
  pub username : String
  pub password : String
  pub role : String

pub record UserUpdateRequest : Type 0 where
  pub password : Option String
  pub role : Option String
  pub enabled : Option Bool

-- `ch.is_ascii_alphanumeric() || matches!(ch, '-' | '_' | '.')`
abbrev pub is_username_char : ℕ → Bool
is_username_char c =
    is_lower c || is_upper c || is_digit c || nat_eq c 45 || nat_eq c 95 || nat_eq c 46

-- `validate_username`: its error, if there is one
unfoldable pub validate_username : String → Option AccountError
unfolding trim byte_length all_char
validate_username username =
    let name = trim username in
    if ltb (byte_length name) 3 || ltb 64 (byte_length name)
    then some (bad_username "username must be 3-64 characters")
    else if not (all_char is_username_char name)
    then some (bad_username "username may only contain letters, numbers, '.', '-' and '_'")
    else none

-- `?` on the answer of a validator
abbrev pub refuse_error :
    {A : Type 0} → Option AccountError → Accounts → Reply A × Accounts → Reply A × Accounts
refuse_error none a rest = rest
refuse_error (some e) a rest = (failed e, a)

-- `validate_role(role).is_ok()`
unfoldable pub validate_role : String → Bool
unfolding one_of
validate_role role = one_of ("admin" ∷ "operator" ∷ "viewer" ∷ []) role

unfoldable pub user_count : Accounts → ℕ
user_count a = length a.users

-- the view of a row
abbrev pub view_of_user : Accounts → Option User → Option AuthUser
view_of_user a none = none
view_of_user a (some u) = some (enrich_effective_role a (user_from_row u))

unfoldable pub user_by_id : Accounts → String → Option AuthUser
unfolding select_one
user_by_id a id = view_of_user a (select_one (λ u. u.id == id) a.users)

abbrev pub user_or_lost : String → Option AuthUser → Reply AuthUser
user_or_lost lost none = failed (row_lost lost)
user_or_lost lost (some u) = done u

-- the row is read again and answered
abbrev pub answered : String → String → Accounts → Reply AuthUser × Accounts
answered lost id a = (user_or_lost lost (user_by_id a id), a)

-- PRIMARY KEY (id), UNIQUE (username)
abbrev pub clashes : User → User → Bool
clashes u v = v.id == u.id || v.username == u.username

unfoldable pub insert_user : String → User → Accounts → Reply AuthUser × Accounts
insert_user lost u a =
    if any (clashes u) a.users
    then (failed not_unique, a)
    else answered lost u.id (record a { users = insert u a.users })

abbrev pub new_user : ℕ → String → String → String → String → User
new_user now id username role hash = record {
  id = id;
  username = trim username;
  password_hash = hash;
  role = role;
  enabled = true;
  password_changed_at = now;
  must_change_password = false;
  updated_at = now;
}

abbrev pub insert_hashed :
    String → ℕ → String → String → String → Option String → Accounts → Reply AuthUser × Accounts
insert_hashed lost now id username role none a = (failed hash_failed, a)
insert_hashed lost now id username role (some hash) a =
    insert_user lost (new_user now id username role hash) a

unfoldable pub list_users : Accounts → List AuthUser
unfolding sort_by
list_users a =
    map (λ u. enrich_effective_role a (user_from_row u))
      (sort_by (λ u v. text_leb u.username v.username) a.users)

-- WHERE id != ? AND role = 'admin' AND enabled = 1
abbrev pub is_admin : User → Bool
is_admin u = u.role == "admin" && u.enabled

unfoldable pub other_admins : String → Accounts → ℕ
other_admins id a = length (select (λ u. not (u.id == id) && is_admin u) a.users)

abbrev pub updated_user : ℕ → String → Bool → User → User
updated_user now role enabled u = record u { role = role; enabled = enabled; updated_at = now }

abbrev pub updated_with_password : ℕ → String → String → Bool → User → User
updated_with_password now hash role enabled u = record u {
  password_hash = hash;
  role = role;
  enabled = enabled;
  password_changed_at = now;
  must_change_password = true;
  updated_at = now;
}

abbrev pub update_user_row : String → (User → User) → Accounts → Accounts
update_user_row id f a = record a { users = update (λ u. u.id == id) f a.users }

-- UPDATE user_sessions SET revoked_at = ? WHERE user_id = ? AND revoked_at IS NULL
abbrev pub end_sessions : ℕ → String → Accounts → Accounts
end_sessions now id = update_sessions (is_open_of id) (revoked now)

-- the rest of the update once the row has been written
abbrev pub after_update : ℕ → String → Bool → Accounts → Reply AuthUser × Accounts
after_update now id enabled a =
    answered "updated user not found" id (if enabled then a else end_sessions now id a)

abbrev pub reset_row : ℕ → String → Bool → User → User
reset_row now hash must_change u = record u {
  password_hash = hash;
  password_changed_at = now;
  must_change_password = must_change;
  updated_at = now;
}

abbrev pub reset_hashed : ℕ → Bool → String → Option String → Accounts → Reply AuthUser × Accounts
reset_hashed now must_change id none a = (failed hash_failed, a)
reset_hashed now must_change id (some hash) a =
    answered "updated user not found" id
      (end_sessions now id (update_user_row id (reset_row now hash must_change) a))

-- `validate_role` where the request has a role
abbrev pub role_accepted : Option String → Bool
role_accepted none = true
role_accepted (some role) = validate_role role

-- `validate_password` where the request has a password
abbrev pub password_accepted : Option String → PasswordPolicy → Bool
password_accepted none policy = true
password_accepted (some password) policy = validate_password password policy

module _ (hashes : Hashes) where
  unfoldable pub setup_initial_admin :
      ℕ → String → String → String → PasswordPolicy → Accounts → Reply AuthUser × Accounts
  setup_initial_admin now id username password policy a =
      refuse_error (validate_username username) a (
        if not (validate_password password policy)
        then (failed weak_password, a)
        else if ltb 0 (user_count a)
        then (failed setup_completed, a)
        else insert_hashed "created admin not found" now id username "admin"
            (hashes.hash_password password) a)

  unfoldable pub create_user_with_policy :
      ℕ → String → UserCreateRequest → PasswordPolicy → Accounts → Reply AuthUser × Accounts
  create_user_with_policy now id request policy a =
      refuse_error (validate_username request.username) a (
        if not (validate_password request.password policy)
        then (failed weak_password, a)
        else if not (validate_role request.role)
        then (failed bad_role, a)
        else insert_hashed "created user not found" now id request.username request.role
            (hashes.hash_password request.password) a)

  abbrev pub update_hashed :
      ℕ → String → String → Bool → Option String → Accounts → Reply AuthUser × Accounts
  update_hashed now id role enabled none a = (failed hash_failed, a)
  update_hashed now id role enabled (some hash) a =
      after_update now id enabled
        (update_user_row id (updated_with_password now hash role enabled) a)

  abbrev pub write_user :
      ℕ → String → String → Bool → Option String → Accounts → Reply AuthUser × Accounts
  write_user now id role enabled none a =
      after_update now id enabled (update_user_row id (updated_user now role enabled) a)
  write_user now id role enabled (some password) a =
      update_hashed now id role enabled (hashes.hash_password password) a

  -- the update of a user that exists
  abbrev pub update_existing :
      ℕ → String → UserUpdateRequest → Accounts → Option AuthUser → Reply AuthUser × Accounts
  update_existing now id request a none = (failed user_not_found, a)
  update_existing now id request a (some existing) =
      let role = unwrap_or request.role existing.role in
      let enabled = unwrap_or request.enabled existing.enabled in
      if existing.role == "admin"
        && (not enabled || not (role == "admin"))
        && nat_eq (other_admins id a) 0
      then (failed last_admin, a)
      else write_user now id role enabled request.password a

  unfoldable pub update_user_with_policy :
      ℕ → String → UserUpdateRequest → PasswordPolicy → Accounts → Reply AuthUser × Accounts
  update_user_with_policy now id request policy a =
      if not (role_accepted request.role)
      then (failed bad_role, a)
      else if not (password_accepted request.password policy)
      then (failed weak_password, a)
      else update_existing now id request a (user_by_id a id)

  abbrev pub reset_found :
      ℕ → String → PasswordPolicy → Accounts → Option User → Reply AuthUser × Accounts
  reset_found now password policy a none = (failed user_not_found, a)
  reset_found now password policy a (some u) =
      reset_hashed now policy.force_change_after_reset u.id (hashes.hash_password password) a

  unfoldable pub reset_user_password :
      ℕ → String → String → PasswordPolicy → Accounts → Reply AuthUser × Accounts
  reset_user_password now username password policy a =
      if not (validate_password password policy)
      then (failed weak_password, a)
      else reset_found now password policy a (select_one (λ u. u.username == trim username) a.users)

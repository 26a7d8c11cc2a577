-- ===== src/Server/Routes.antt =====
-- The HTTP interface of server/src/routes.rs, as far as it decides who may do what: the session
-- cookie, the middleware `control_plane_auth` and the errors of the API. The router and the extractors
-- of the crate axum are a parameter, in Server/Routes/Serve.
pub mod Serve
pub mod Laws
use text.Mathlib.Text.{starts_with}
use lightai_platform.Prelude.{
  ℕ, String, Bool, true, false, not, ◌&&◌, ◌||◌, Option, none, some, List, [], ◌∷◌, ◌==◌,
  if◌then◌else◌, ◌<>◌,
}
use lightai_platform.Prelude.Text.{trim, split_on, split_once, contains_text}
use lightai_platform.Server.Sessions.{
  Accounts, AuthUser, SessionPolicy, Hashes, authenticate_session,
}
use lightai_platform.Server.Sessions.Password.{
  AccountError, weak_password, user_not_found, wrong_password, hash_failed, bad_role,
  setup_completed, last_admin, not_unique, group_not_found, group_has_members, bad_username,
  bad_group_name, row_lost,
}

pub data ApiError : Type 0 where
  unauthorized : ApiError
  forbidden bad_request not_found conflict : String → ApiError
  internal : AccountError → ApiError

-- the status of the response
abbrev pub status_code : ApiError → ℕ
status_code unauthorized = 401
status_code (forbidden m) = 403
status_code (bad_request m) = 400
status_code (not_found m) = 404
status_code (conflict m) = 409
status_code (internal e) = 500

-- what the middleware reads of a request: the method's name, the path and the Cookie header
pub record HttpRequest : Type 0 where
  pub method : String
  pub path : String
  pub cookie : Option String

abbrev session_value : Option (String × String) → Option String → Option String
session_value none rest = rest
session_value (some (name, value)) rest =
    if name == "lightai_session" && not (value == "") then some value else rest

-- the first part of the header that holds a session
unfoldable pub find_session_cookie : List String → Option String
unfolding trim split_once
find_session_cookie [] = none
find_session_cookie (part ∷ parts) =
    session_value (split_once 61 (trim part)) (find_session_cookie parts)

abbrev cookie_in : Option String → Option String
cookie_in none = none
cookie_in (some cookie) = find_session_cookie (split_on 59 cookie)

unfoldable pub session_cookie : HttpRequest → Option String
unfolding find_session_cookie split_on
session_cookie request = cookie_in request.cookie

-- the paths that the middleware lets through without a session
abbrev pub is_open_path : String → Bool
is_open_path path =
    not (starts_with path "/api/")
    || starts_with path "/api/agent/"
    || path == "/api/auth/login"
    || path == "/api/setup/status"
    || path == "/api/setup/admin"

-- the paths of users, groups, configuration and trash
abbrev pub is_admin_path : String → Bool
is_admin_path path =
    starts_with path "/api/users"
    || starts_with path "/api/groups"
    || starts_with path "/api/config"
    || starts_with path "/api/model-file-trash"

abbrev pub is_gateway_path : String → Bool
is_gateway_path path = starts_with path "/api/nodes/" && contains_text "/gateway/" path

unfoldable pub is_authorized_for_path : AuthUser → String → String → Bool
unfolding contains_text
is_authorized_for_path user method path =
    let role = user.effective_role in
    if role == "admin"
    then true
    else if starts_with path "/api/auth/" || path == "/api/frontend-errors"
    then true
    else if is_admin_path path
    then false
    else if is_gateway_path path
    then role == "admin" || role == "operator"
    else if role == "operator"
    then true
    else method == "GET"

unfoldable pub is_password_change_allowed_path : String → Bool
is_password_change_allowed_path path =
    path == "/api/auth/me"
    || path == "/api/auth/logout"
    || path == "/api/auth/change-password"
    || path == "/api/frontend-errors"

-- What the middleware decides: the request goes on, with the user that it carries from then on, or is
-- answered with an error.
pub data Admission : Type 0 where
  anonymous : Admission
  admitted : AuthUser → Admission
  refused : ApiError → Admission

abbrev pub checked_user : HttpRequest → AuthUser → Admission
checked_user request user =
    if user.must_change_password && not (is_password_change_allowed_path request.path)
    then refused (forbidden "Password change required before continuing")
    else if not (is_authorized_for_path user request.method request.path)
    then refused (forbidden "Insufficient permissions for this operation")
    else admitted user

abbrev pub session_checked : HttpRequest → Option AuthUser × Accounts → Admission × Accounts
session_checked request (none, a) = (refused unauthorized, a)
session_checked request (some user, a) = (checked_user request user, a)

module _ (hashes : Hashes) where
  abbrev pub cookie_checked :
      ℕ → SessionPolicy → HttpRequest → Accounts → Option String → Admission × Accounts
  cookie_checked now policy request a none = (refused unauthorized, a)
  cookie_checked now policy request a (some token) =
      session_checked request (authenticate_session hashes now token policy a)

  unfoldable pub control_plane_auth :
      ℕ → SessionPolicy → HttpRequest → Accounts → Admission × Accounts
  control_plane_auth now policy request a =
      if is_open_path request.path
      then (anonymous, a)
      else cookie_checked now policy request a (session_cookie request)

-- The message of an error. The texts of the crates are the parts that the server looks for: SQLite's
-- for a constraint, and what comes before argon2's.
unfoldable pub message : AccountError → String
message weak_password = "password does not meet the configured password policy"
message user_not_found = "user not found"
message wrong_password = "current password is incorrect"
message hash_failed = "failed to hash password"
message bad_role = "role must be admin, operator or viewer"
message setup_completed = "setup already completed"
message last_admin = "cannot disable or demote the last enabled admin"
message not_unique = "UNIQUE constraint"
message group_not_found = "group not found"
message group_has_members = "group has members; remove members before deleting"
message (bad_username m) = m
message (bad_group_name m) = m
message (row_lost m) = m

unfoldable pub group_management_error : AccountError → ApiError
unfolding message contains_text
group_management_error e =
    let m = message e in
    if contains_text "not found" m
    then not_found m
    else if contains_text "has members" m
    then conflict m
    else if contains_text "UNIQUE constraint" m
        || contains_text "must be" m
        || contains_text "may only contain" m
    then bad_request m
    else internal e

unfoldable pub setup_error : AccountError → ApiError
unfolding message contains_text
setup_error e =
    let m = message e in
    if contains_text "already completed" m
    then conflict m
    else if contains_text "password" m || contains_text "username" m
    then bad_request m
    else internal e

unfoldable pub user_management_error : AccountError → ApiError
unfolding message contains_text
user_management_error e =
    let m = message e in
    if contains_text "not found" m
    then not_found m
    else if contains_text "UNIQUE constraint" m
        || contains_text "must be" m
        || contains_text "cannot disable" m
        || contains_text "may only contain" m
    then bad_request m
    else internal e

unfoldable pub password_change_error : AccountError → ApiError
unfolding message contains_text
password_change_error e =
    let m = message e in
    if contains_text "password" m
    then bad_request m
    else if contains_text "not found" m
    then not_found m
    else internal e

unfoldable pub require_admin : AuthUser → Option ApiError
require_admin user = if user.effective_role == "admin" then none else some (forbidden "需要管理员权限")

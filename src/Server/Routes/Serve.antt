-- ===== src/Server/Routes/Serve.antt =====
-- The handlers of server/src/routes.rs on sessions, users and groups, and a request as the server
-- serves it: the middleware, then the handler that the router of axum picks, with the request's body
-- read. The audit events that a handler writes after its work are in another table and no handler
-- fails by them.
use lightai_platform.Prelude.{
  ℕ, String, Bool, true, not, Option, none, some, List, ◌==◌, nat_eq, if◌then◌else◌, unwrap_or,
}
use lightai_platform.Server.Sessions.{Accounts, AuthUser, SessionPolicy, Hashes, revoke_session}
use lightai_platform.Server.Sessions.Password.{
  PasswordPolicy, AccountError, login_user, change_user_password,
}
use lightai_platform.Server.Users.{
  Reply, done, failed, UserCreateRequest, UserUpdateRequest, user_count, list_users,
  setup_initial_admin, create_user_with_policy, update_user_with_policy,
}
use lightai_platform.Server.Users.Groups.{
  UserGroupView, UserGroupCreateRequest, UserGroupUpdateRequest, list_user_groups,
  create_user_group, update_user_group, replace_user_group_members, delete_user_group,
}
use lightai_platform.Server.Routes.{
  ApiError, unauthorized, forbidden, HttpRequest, Admission, anonymous, admitted, refused,
  session_cookie, control_plane_auth, require_admin, group_management_error, setup_error,
  user_management_error, password_change_error,
}

pub record LoginRequest : Type 0 where
  pub username : String
  pub password : String

pub record SetupAdminRequest : Type 0 where
  pub username : String
  pub password : String
  pub setup_token : Option String

pub record ChangePasswordRequest : Type 0 where
  pub current_password : String
  pub new_password : String

-- the routes on accounts, with what the extractors read of the path and of the body
pub data Endpoint : Type 0 where
  login : LoginRequest → Endpoint
  setup_admin : SetupAdminRequest → Endpoint
  change_password : ChangePasswordRequest → Endpoint
  create_user : UserCreateRequest → Endpoint
  update_user : String → UserUpdateRequest → Endpoint
  create_group : UserGroupCreateRequest → Endpoint
  update_group : String → UserGroupUpdateRequest → Endpoint
  update_group_members : String → List String → Endpoint
  delete_group : String → Endpoint
  logout current_user setup_status list_users_route list_groups : Endpoint

-- the body of a response; the cookie of a session holds its token
pub data Body : Type 0 where
  user_body : AuthUser → Body
  session_body : AuthUser → String → Body
  users_body : List AuthUser → Body
  group_body : UserGroupView → Body
  groups_body : List UserGroupView → Body
  setup_required : Bool → Body
  ok_body : Body

-- `rejected` is the answer of axum's extractor of the user to a request that carries none
pub data Response : Type 0 where
  rejected : Response
  success : Body → Response
  failure : ApiError → Response

pub record AuthPolicies : Type 0 where
  pub password_policy : PasswordPolicy
  pub session_policy : SessionPolicy
  pub setup_token : Option String

-- what a handler draws: the time, a fresh id and a fresh token
pub record Drawn : Type 0 where
  pub now : ℕ
  pub id : String
  pub token : String

-- `map_err(f)?` and the answer
abbrev pub respond :
    {A : Type 0} → (AccountError → ApiError) → (A → Body) → Reply A × Accounts → Response × Accounts
respond f g (done x, a) = (success (g x), a)
respond f g (failed e, a) = (failure (f e), a)

-- `require_admin(&user)?`
abbrev pub only_admin : Option ApiError → Accounts → Response × Accounts → Response × Accounts
only_admin none a rest = rest
only_admin (some e) a rest = (failure e, a)

abbrev pub logged_in_answer : Option (AuthUser × String) × Accounts → Response × Accounts
logged_in_answer (none, a) = (failure unauthorized, a)
logged_in_answer (some (user, token), a) = (success (session_body user token), a)

abbrev pub changed_answer : Option AccountError × Accounts → Response × Accounts
changed_answer (none, a) = (success ok_body, a)
changed_answer (some e, a) = (failure (password_change_error e), a)

-- the answer of `setup_admin`: the user that was set up, with the token of the login after it
abbrev pub setup_answer : AuthUser → Option (AuthUser × String) × Accounts → Response × Accounts
setup_answer user (none, a) = (failure unauthorized, a)
setup_answer user (some (seen, token), a) = (success (session_body user token), a)

-- the setup token, where one is configured
abbrev pub setup_token_matches : Option String → Option String → Bool
setup_token_matches none provided = true
setup_token_matches (some expected) provided = unwrap_or provided "" == expected

module _ (hashes : Hashes) (order : List String → List String) (policies : AuthPolicies) where
  abbrev pub revoke_cookie : ℕ → Option String → Accounts → Accounts
  revoke_cookie now none a = a
  revoke_cookie now (some token) a = revoke_session hashes now token a

  abbrev pub login_after_setup :
      Drawn → SetupAdminRequest → Reply AuthUser × Accounts → Response × Accounts
  login_after_setup d request (failed e, a) = (failure (setup_error e), a)
  login_after_setup d request (done user, a) = setup_answer user (
      login_user hashes d.now request.username request.password d.token policies.session_policy
        policies.password_policy a)

  -- a handler that takes no user
  abbrev pub open_handler : Drawn → Endpoint → Accounts → Response × Accounts
  open_handler d (login request) a = logged_in_answer (
      login_user hashes d.now request.username request.password d.token policies.session_policy
        policies.password_policy a)
  open_handler d (setup_admin request) a =
      if not (setup_token_matches policies.setup_token request.setup_token)
      then (failure (forbidden "setup token 错误。请检查初始化口令是否正确，或联系管理员获取正确的 setup token。"), a)
      else login_after_setup d request (
          setup_initial_admin hashes d.now d.id request.username request.password
            policies.password_policy a)
  open_handler d setup_status a = (success (setup_required (nat_eq (user_count a) 0)), a)
  open_handler d other a = (rejected, a)

  abbrev pub user_handler :
      Drawn → HttpRequest → AuthUser → Endpoint → Accounts → Response × Accounts
  user_handler d request user logout a =
      (success ok_body, revoke_cookie d.now (session_cookie request) a)
  user_handler d request user (change_password body) a = changed_answer (
      change_user_password hashes d.now user.id body.current_password body.new_password
        policies.password_policy a)
  user_handler d request user current_user a = (success (user_body user), a)
  user_handler d request user list_users_route a =
      only_admin (require_admin user) a (success (users_body (list_users a)), a)
  user_handler d request user (create_user body) a = only_admin (require_admin user) a (
      respond user_management_error user_body
        (create_user_with_policy hashes d.now d.id body policies.password_policy a))
  user_handler d request user (update_user id body) a = only_admin (require_admin user) a (
      respond user_management_error user_body
        (update_user_with_policy hashes d.now id body policies.password_policy a))
  user_handler d request user list_groups a =
      only_admin (require_admin user) a (success (groups_body (list_user_groups a)), a)
  user_handler d request user (create_group body) a =
      only_admin (require_admin user) a
        (respond group_management_error group_body (create_user_group d.id body a))
  user_handler d request user (update_group id body) a =
      only_admin (require_admin user) a
        (respond group_management_error group_body (update_user_group id body a))
  user_handler d request user (update_group_members id ids) a =
      only_admin (require_admin user) a
        (respond group_management_error group_body (replace_user_group_members order id ids a))
  user_handler d request user (delete_group id) a =
      only_admin (require_admin user) a
        (respond group_management_error (λ t. ok_body) (delete_user_group id a))
  user_handler d request user (login body) a = open_handler d (login body) a
  user_handler d request user (setup_admin body) a = open_handler d (setup_admin body) a
  user_handler d request user setup_status a = open_handler d setup_status a

  -- the handler that the router picks, after the middleware
  abbrev pub served_by : Drawn → HttpRequest → Endpoint → Admission × Accounts → Response × Accounts
  served_by d request endpoint (refused e, a) = (failure e, a)
  served_by d request endpoint (anonymous, a) = open_handler d endpoint a
  served_by d request endpoint (admitted user, a) = user_handler d request user endpoint a

  unfoldable pub serve : Drawn → HttpRequest → Endpoint → Accounts → Response × Accounts
  serve d request endpoint a =
      served_by d request endpoint
        (control_plane_auth hashes d.now policies.session_policy request a)

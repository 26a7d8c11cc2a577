-- ===== src/Server/Tests/Users.antt =====
-- Requests on accounts: the first admin, a session, a user that is created, and a viewer's requests.
use lightai_platform.Prelude.Rows.{select_one, update}
use lightai_platform.Prelude.{
  ◌≡◌, refl, ◌==◌, ◌||◌, not, true, false, none, some, [], ◌∷◌, any, ltb, String,
}
use lightai_platform.Server.Sessions.{
  User, UserSession, Accounts, authenticate_session, find_session, enrich_effective_role,
  highest_role, group_roles,
}
use lightai_platform.Server.Sessions.Password.{weak_password, validate_password, login_user}
use lightai_platform.Server.Sessions.Laws.{opens}
use lightai_platform.Server.Users.{
  UserCreateRequest, UserUpdateRequest, update_user_with_policy, validate_username, user_count,
  setup_initial_admin, insert_user, user_by_id, create_user_with_policy, validate_role,
}
use lightai_platform.Server.Users.Laws.{IsSound}
use lightai_platform.Server.Users.Laws.Ended.{ended, disabled_user_is_out}
use lightai_platform.Server.Routes.{
  HttpRequest, admitted, control_plane_auth, internal, is_password_change_allowed_path,
  session_cookie, ApiError, is_authorized_for_path, require_admin,
}
use lightai_platform.Server.Routes.Serve.{
  SetupAdminRequest, setup_admin, create_user, AuthPolicies, Drawn, serve, user_handler,
  open_handler, failure,
}
use lightai_platform.Server.Routes.Laws.Reached.{
  empty_accounts, fresh, next, request, Reached-IsSound,
}
use lightai_platform.Server.Routes.Laws.Access.{
  lets_only, may_write, admin_paths_need_admin, writes_need_operator, admitted_has_session,
}
use lightai_platform.Server.Routes.Laws.Manage.{
  managed_by_admin, is_admin_admission, setup_only_once, weak_password_is_internal, is_success,
}
use lightai_platform.Server.Tests.Sessions.{
  plain_hashes, any_password, short_sessions, one_user, ann_seen, seen_now,
}

abbrev policies : AuthPolicies
policies = record {
  password_policy = any_password;
  session_policy = short_sessions;
  setup_token = some "init";
}

abbrev drawn : Drawn
drawn = record { now = 100; id = "u9"; token = "t9" }

abbrev setup_body : SetupAdminRequest
setup_body = record { username = " root "; password = "secret"; setup_token = some "init" }

abbrev setup_request : HttpRequest
setup_request = record { method = "POST"; path = "/api/setup/admin"; cookie = none }

abbrev root : User
root = record {
  id = "u9";
  username = "root";
  password_hash = "secret";
  role = "admin";
  enabled = true;
  password_changed_at = 100;
  must_change_password = false;
  updated_at = 100;
}

abbrev root_session : UserSession
root_session = record {
  user_id = "u9";
  token_hash = "t9";
  last_seen_at = 100;
  expires_at = 200;
  revoked_at = none;
}

abbrev set_up : Accounts
set_up = record empty_accounts { users = root ∷ []; user_sessions = root_session ∷ [] }

setup_serves :
    (serve plain_hashes
      (λ xs. xs)
      policies
      drawn
      setup_request
      (setup_admin setup_body)
      empty_accounts).1
    ≡ set_up
unfolding serve control_plane_auth setup_initial_admin validate_username validate_password
    user_count insert_user any user_by_id login_user
setup_serves = refl

Reached-IsSound_example : IsSound set_up
Reached-IsSound_example =
    Reached-IsSound plain_hashes (λ xs. xs) policies (λ xs x. refl)
      (next fresh (request drawn setup_request (setup_admin setup_body) setup_serves))

-- ann is an operator
abbrev list_request : HttpRequest
list_request = record {
  method = "GET";
  path = "/api/users";
  cookie = some "theme=dark; lightai_session=token";
}

admin_paths_example :
    lets_only
      (λ u. u.effective_role == "admin")
      (control_plane_auth plain_hashes 100 short_sessions list_request one_user).0
    ≡ true
unfolding any
admin_paths_example =
    admin_paths_need_admin plain_hashes 100 short_sessions list_request one_user refl

abbrev stop_request : HttpRequest
stop_request = record list_request { method = "POST"; path = "/api/model-instances/i1/stop" }

ann_is_admitted :
    control_plane_auth plain_hashes 100 short_sessions stop_request one_user
    ≡ (admitted ann_seen, seen_now)
unfolding control_plane_auth session_cookie authenticate_session find_session select_one
    enrich_effective_role update is_authorized_for_path highest_role group_roles
ann_is_admitted = refl

writes_example :
    lets_only may_write (control_plane_auth plain_hashes 100 short_sessions stop_request one_user).0
    ≡ true
writes_example =
    writes_need_operator plain_hashes 100 short_sessions stop_request one_user refl refl refl refl

admitted_example :
    (token : String) × (session_cookie stop_request ≡ some token)
    × (any (opens 100 (plain_hashes.hash_token token) ann_seen.id) one_user.user_sessions ≡ true)
    × (ann_seen.enabled ≡ true)
    × (not ann_seen.must_change_password || is_password_change_allowed_path stop_request.path
        ≡ true)
admitted_example =
    admitted_has_session plain_hashes 100 short_sessions stop_request one_user ann_seen seen_now
      ann_is_admitted

abbrev bob_body : UserCreateRequest
bob_body = record { username = "bob"; password = "12345"; role = "viewer" }

abbrev root_request : HttpRequest
root_request = record { method = "POST"; path = "/api/users"; cookie = some "lightai_session=t9" }

root_creates_bob :
    is_success
      (serve plain_hashes
        (λ xs. xs)
        policies
        (record drawn { now = 110; id = "u10" })
        root_request
        (create_user bob_body)
        set_up).0
    ≡ true
unfolding serve control_plane_auth session_cookie authenticate_session find_session select_one
    enrich_effective_role is_authorized_for_path highest_role group_roles require_admin
    create_user_with_policy validate_username validate_password validate_role insert_user any
    user_by_id
root_creates_bob = refl

managed_example :
    is_admin_admission (control_plane_auth plain_hashes 110 short_sessions root_request set_up).0
    ≡ true
managed_example =
    managed_by_admin plain_hashes (λ xs. xs) policies (record drawn { now = 110; id = "u10" })
      root_request (create_user bob_body) set_up refl root_creates_bob

someone_is_set_up : ltb 0 (user_count set_up) ≡ true
unfolding user_count
someone_is_set_up = refl

setup_again_example :
    (e : ApiError) × (open_handler plain_hashes
        (λ xs. xs)
        policies
        drawn
        (setup_admin setup_body)
        set_up
      ≡ (failure e, set_up))
setup_again_example =
    setup_only_once plain_hashes (λ xs. xs) policies drawn setup_body set_up someone_is_set_up

abbrev disable : UserUpdateRequest
disable = record { password = none; role = none; enabled = some false }

disabled_example :
    ended "u1" (update_user_with_policy plain_hashes 100 "u1" disable any_password one_user) ≡ true
disabled_example = disabled_user_is_out plain_hashes 100 "u1" disable any_password one_user refl

bob_is_a_name : validate_username "bob" ≡ none
unfolding validate_username
bob_is_a_name = refl

one_is_weak : validate_password "1" any_password ≡ false
unfolding validate_password
one_is_weak = refl

weak_password_example :
    user_handler plain_hashes
      (λ xs. xs)
      policies
      drawn
      root_request
      (record ann_seen { effective_role = "admin" })
      (create_user (record bob_body { password = "1" }))
      set_up
    ≡ (failure (internal weak_password), set_up)
weak_password_example =
    weak_password_is_internal plain_hashes (λ xs. xs) policies drawn root_request
      (record ann_seen { effective_role = "admin" }) (record bob_body { password = "1" }) set_up
      refl bob_is_a_name one_is_weak

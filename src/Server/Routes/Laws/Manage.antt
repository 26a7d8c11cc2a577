-- ===== src/Server/Routes/Laws/Manage.antt =====
-- The management of users and groups: by whom, when the first admin can be set up, and what a weak
-- password is answered with.
use lightai_platform.Prelude.{
  ℕ, String, ◌≡◌, refl, Bool, true, false, not, Option, none, some, List, ◌==◌, arith,
  if◌then◌else◌, ltb, Bool-cases, inl, inr, ◌⊎◌,
}
use lightai_platform.Prelude.Text.{contains_text}
use lightai_platform.Server.Sessions.{Accounts, AuthUser, Hashes}
use lightai_platform.Server.Sessions.Password.{
  PasswordPolicy, AccountError, weak_password, setup_completed, validate_password,
}
use lightai_platform.Server.Users.{
  failed, UserCreateRequest, setup_initial_admin, create_user_with_policy, validate_username,
  user_count, insert_hashed, refuse_error,
}
use lightai_platform.Server.Routes.{
  ApiError, internal, HttpRequest, Admission, anonymous, admitted, refused, control_plane_auth,
  require_admin, user_management_error, message,
}
use lightai_platform.Server.Routes.Serve.{
  Endpoint, login, setup_admin, change_password, create_user, update_user, create_group,
  update_group, update_group_members, delete_group, logout, current_user, setup_status,
  list_users_route, list_groups, Response, success, failure, AuthPolicies, Drawn, SetupAdminRequest,
  only_admin, user_handler, served_by, serve, open_handler, setup_token_matches,
}

-- the endpoints that read or change users and groups
abbrev pub manages : Endpoint → Bool
manages (create_user body) = true
manages (update_user id body) = true
manages (create_group body) = true
manages (update_group id body) = true
manages (update_group_members id ids) = true
manages (delete_group id) = true
manages list_users_route = true
manages list_groups = true
manages other = false

-- the request goes on with an admin
abbrev pub is_admin_admission : Admission → Bool
is_admin_admission (admitted user) = user.effective_role == "admin"
is_admin_admission other = false

abbrev pub is_success : Response → Bool
is_success (success body) = true
is_success other = false

only_admin_succeeds :
    (user : AuthUser) (a : Accounts) (x : Response × Accounts)
    → is_success (only_admin (require_admin user) a x).0 ≡ true
    → user.effective_role == "admin" ≡ true
unfolding require_admin
only_admin_succeeds user a x h = ground (arith, h)

module _ (hashes : Hashes) (order : List String → List String) (policies : AuthPolicies) where
  user_manages :
      (d : Drawn) (request : HttpRequest) (user : AuthUser) (endpoint : Endpoint) (a : Accounts)
      → manages endpoint ≡ true
      → is_success (user_handler hashes order policies d request user endpoint a).0 ≡ true
      → user.effective_role == "admin" ≡ true
  user_manages d request user (create_user body) a m h = only_admin_succeeds user a _ h
  user_manages d request user (update_user id body) a m h = only_admin_succeeds user a _ h
  user_manages d request user (create_group body) a m h = only_admin_succeeds user a _ h
  user_manages d request user (update_group id body) a m h = only_admin_succeeds user a _ h
  user_manages d request user (update_group_members id ids) a m h = only_admin_succeeds user a _ h
  user_manages d request user (delete_group id) a m h = only_admin_succeeds user a _ h
  user_manages d request user list_users_route a m h = only_admin_succeeds user a _ h
  user_manages d request user list_groups a m h = only_admin_succeeds user a _ h
  user_manages d request user (login body) a m h = cc
  user_manages d request user (setup_admin body) a m h = cc
  user_manages d request user (change_password body) a m h = cc
  user_manages d request user logout a m h = cc
  user_manages d request user current_user a m h = cc
  user_manages d request user setup_status a m h = cc

  open_manages :
      (d : Drawn) (endpoint : Endpoint) (a : Accounts)
      → manages endpoint ≡ true
      → is_success (open_handler hashes order policies d endpoint a).0 ≡ false
  open_manages d (create_user body) a m = refl
  open_manages d (update_user id body) a m = refl
  open_manages d (create_group body) a m = refl
  open_manages d (update_group id body) a m = refl
  open_manages d (update_group_members id ids) a m = refl
  open_manages d (delete_group id) a m = refl
  open_manages d list_users_route a m = refl
  open_manages d list_groups a m = refl
  open_manages d (login body) a m = cc
  open_manages d (setup_admin body) a m = cc
  open_manages d (change_password body) a m = cc
  open_manages d logout a m = cc
  open_manages d current_user a m = cc
  open_manages d setup_status a m = cc

  served_manages :
      (d : Drawn) (request : HttpRequest) (endpoint : Endpoint) (x : Admission × Accounts)
      → manages endpoint ≡ true
      → is_success (served_by hashes order policies d request endpoint x).0 ≡ true
      → is_admin_admission x.0 ≡ true
  served_manages d request endpoint (anonymous, a) m h = cc (h, open_manages d endpoint a m)
  served_manages d request endpoint (refused e, a) m h = cc
  served_manages d request endpoint (admitted user, a) m h =
      user_manages d request user endpoint a m h

  -- An answer of success to a request that reads or changes users or groups is one to a request that
  -- the middleware let through with an admin, whichever path the router took it from.
  pub managed_by_admin :
      (d : Drawn) (request : HttpRequest) (endpoint : Endpoint) (a : Accounts)
      → manages endpoint ≡ true
      → is_success (serve hashes order policies d request endpoint a).0 ≡ true
      → is_admin_admission (control_plane_auth hashes d.now policies.session_policy request a).0
        ≡ true
  unfolding serve
  managed_by_admin d request endpoint a m h =
      served_manages d request endpoint
        (control_plane_auth hashes d.now policies.session_policy request a) m h

  setup_again :
      (now : ℕ) (id username password : String) (policy : PasswordPolicy) (a : Accounts)
      → ltb 0 (user_count a) ≡ true
      → (e : AccountError) × (setup_initial_admin hashes now id username password policy a
          ≡ (failed e, a))
  unfolding setup_initial_admin
  setup_again now id username password policy a h =
      refused_again (validate_username username) (Bool-cases (validate_password password policy))
    where
      refused_again :
          (o : Option AccountError)
          → (validate_password password policy ≡ true) ⊎ (validate_password password policy ≡ false)
          → (e : AccountError) × (refuse_error o a (
                if not (validate_password password policy)
                then (failed weak_password, a)
                else if ltb 0 (user_count a)
                then (failed setup_completed, a)
                else insert_hashed "created admin not found" now id username "admin"
                    (hashes.hash_password password)
                    a)
              ≡ (failed e, a))
      refused_again (some e) k = (e, refl)
      refused_again none (inl k) = (setup_completed, ground (arith, h, k))
      refused_again none (inr k) = (weak_password, ground (arith, h, k))

  -- Once there is a user, a request to set up the first admin fails and changes no account.
  pub setup_only_once :
      (d : Drawn) (body : SetupAdminRequest) (a : Accounts)
      → ltb 0 (user_count a) ≡ true
      → (e : ApiError) × (open_handler hashes order policies d (setup_admin body) a
          ≡ (failure e, a))
  setup_only_once d body a h =
      let (e, same) =
        setup_again d.now d.id body.username body.password policies.password_policy a h in
      elim (Bool-cases (setup_token_matches policies.setup_token body.setup_token)) [
        | inl k ↦ rw (k, same) (_, refl)
        | inr k ↦ rw k (_, refl)
      ]

-- A user that an admin creates with a good name and a password that the policy refuses is not created,
-- and the answer is the internal error 500, not the 400 of the other faults of a request.
pub weak_password_is_internal :
    (hashes : Hashes) (order : List String → List String) (policies : AuthPolicies) (d : Drawn)
    (request : HttpRequest) (user : AuthUser) (body : UserCreateRequest) (a : Accounts)
    → user.effective_role == "admin" ≡ true
    → validate_username body.username ≡ none
    → validate_password body.password policies.password_policy ≡ false
    → user_handler hashes order policies d request user (create_user body) a
      ≡ (failure (internal weak_password), a)
unfolding create_user_with_policy user_management_error contains_text message require_admin
weak_password_is_internal hashes order policies d request user body a admin name weak =
    ground (arith, admin, name, weak)

-- ===== src/Server/Routes/Laws/Reached.antt =====
-- The states of the accounts that a fresh server reaches by requests and by the command that resets a
-- password (server/src/main.rs).
use lightai_platform.Prelude.{
  ℕ, String, ◌≡◌, refl, true, not, Option, none, some, List, [], any, all, ltb, subst, all,
}
use lightai_platform.Prelude.Text.{all_distinct}
use lightai_platform.Server.Sessions.{Accounts, AuthUser, Hashes}
use lightai_platform.Server.Sessions.Password.{AccountError}
use lightai_platform.Server.Users.{Reply, done, failed, user_count, reset_user_password}
use lightai_platform.Server.Users.Laws.{IsSound}
use lightai_platform.Server.Users.Laws.Sound.{LeavesSound, LeavesSound-if}
use lightai_platform.Server.Users.Laws.Users.{
  setup-LeavesSound, create_user-LeavesSound, update_user-LeavesSound,
}
use lightai_platform.Server.Users.Laws.Passwords.{
  reset_user_password-LeavesSound, change_user_password-LeavesSound, login_user-LeavesSound,
  revoke-IsSound,
}
use lightai_platform.Server.Users.Laws.Groups.{create_group-LeavesSound, update_group-LeavesSound}
use lightai_platform.Server.Users.Laws.Members.{
  IsSetOrder, replace_members-LeavesSound, delete_group-LeavesSound,
}
use lightai_platform.Server.Routes.{
  ApiError, HttpRequest, Admission, anonymous, admitted, refused, session_cookie, require_admin,
}
use lightai_platform.Server.Routes.Laws.Admitted.{AdmitsSound, control_plane_auth-AdmitsSound}
use lightai_platform.Server.Routes.Serve.{
  Endpoint, login, setup_admin, change_password, create_user, update_user, create_group,
  update_group, update_group_members, delete_group, logout, current_user, setup_status,
  list_users_route, list_groups, Body, Response, AuthPolicies, Drawn, SetupAdminRequest, respond,
  only_admin, logged_in_answer, changed_answer, setup_answer, setup_token_matches, revoke_cookie,
  login_after_setup, open_handler, user_handler, served_by, serve,
}

respond-LeavesSound :
    {A : Type 0} (f : AccountError → ApiError) (g : A → Body) (x : Reply A × Accounts)
    → LeavesSound x
    → LeavesSound (respond f g x)
respond-LeavesSound f g (done x, a) h = record { sound = h.sound }
respond-LeavesSound f g (failed e, a) h = record { sound = h.sound }

only_admin-LeavesSound :
    (o : Option ApiError) (a : Accounts) (x : Response × Accounts)
    → IsSound a
    → LeavesSound x
    → LeavesSound (only_admin o a x)
only_admin-LeavesSound none a x h k = k
only_admin-LeavesSound (some e) a x h k = record { sound = h }

logged_in_answer-LeavesSound :
    (x : Option (AuthUser × String) × Accounts) → LeavesSound x → LeavesSound (logged_in_answer x)
logged_in_answer-LeavesSound (none, a) h = record { sound = h.sound }
logged_in_answer-LeavesSound (some (user, token), a) h = record { sound = h.sound }

changed_answer-LeavesSound :
    (x : Option AccountError × Accounts) → LeavesSound x → LeavesSound (changed_answer x)
changed_answer-LeavesSound (none, a) h = record { sound = h.sound }
changed_answer-LeavesSound (some e, a) h = record { sound = h.sound }

setup_answer-LeavesSound :
    (user : AuthUser) (x : Option (AuthUser × String) × Accounts)
    → LeavesSound x
    → LeavesSound (setup_answer user x)
setup_answer-LeavesSound user (none, a) h = record { sound = h.sound }
setup_answer-LeavesSound user (some (seen, token), a) h = record { sound = h.sound }

module _ (hashes : Hashes) (order : List String → List String) (set : IsSetOrder order)
    (policies : AuthPolicies) where
  login_after_setup-LeavesSound :
      (d : Drawn) (request : SetupAdminRequest) (x : Reply AuthUser × Accounts)
      → LeavesSound x
      → LeavesSound (login_after_setup hashes order policies d request x)
  login_after_setup-LeavesSound d request (failed e, a) h = record { sound = h.sound }
  login_after_setup-LeavesSound d request (done user, a) h = setup_answer-LeavesSound user _ (
      login_user-LeavesSound hashes d.now request.username request.password d.token
        policies.session_policy policies.password_policy a h.sound)

  open_handler-LeavesSound :
      (d : Drawn) (endpoint : Endpoint) (a : Accounts)
      → IsSound a
      → LeavesSound (open_handler hashes order policies d endpoint a)
  open_handler-LeavesSound d (login body) a h = logged_in_answer-LeavesSound _ (
      login_user-LeavesSound hashes d.now body.username body.password d.token
        policies.session_policy policies.password_policy a h)
  open_handler-LeavesSound d (setup_admin body) a h =
      LeavesSound-if (not (setup_token_matches policies.setup_token body.setup_token))
        (λ e. record { sound = h })
        (λ e. login_after_setup-LeavesSound d body _ (
          setup-LeavesSound hashes d.now d.id body.username body.password policies.password_policy a
            h))
  open_handler-LeavesSound d setup_status a h = record { sound = h }
  open_handler-LeavesSound d logout a h = record { sound = h }
  open_handler-LeavesSound d (change_password body) a h = record { sound = h }
  open_handler-LeavesSound d current_user a h = record { sound = h }
  open_handler-LeavesSound d list_users_route a h = record { sound = h }
  open_handler-LeavesSound d (create_user body) a h = record { sound = h }
  open_handler-LeavesSound d (update_user id body) a h = record { sound = h }
  open_handler-LeavesSound d list_groups a h = record { sound = h }
  open_handler-LeavesSound d (create_group body) a h = record { sound = h }
  open_handler-LeavesSound d (update_group id body) a h = record { sound = h }
  open_handler-LeavesSound d (update_group_members id ids) a h = record { sound = h }
  open_handler-LeavesSound d (delete_group id) a h = record { sound = h }

  revoke_cookie-IsSound :
      (now : ℕ) (o : Option String) (a : Accounts)
      → IsSound a
      → IsSound (revoke_cookie hashes order policies now o a)
  revoke_cookie-IsSound now none a h = h
  revoke_cookie-IsSound now (some token) a h = revoke-IsSound hashes now token a h

  user_handler-LeavesSound :
      (d : Drawn) (request : HttpRequest) (user : AuthUser) (endpoint : Endpoint) (a : Accounts)
      → IsSound a
      → ltb 0 (user_count a) ≡ true
      → LeavesSound (user_handler hashes order policies d request user endpoint a)
  user_handler-LeavesSound d request user (login body) a h some_user =
      open_handler-LeavesSound d (login body) a h
  user_handler-LeavesSound d request user (setup_admin body) a h some_user =
      open_handler-LeavesSound d (setup_admin body) a h
  user_handler-LeavesSound d request user setup_status a h some_user = record { sound = h }
  user_handler-LeavesSound d request user logout a h some_user = record {
    sound = revoke_cookie-IsSound d.now (session_cookie request) a h;
  }
  user_handler-LeavesSound d request user (change_password body) a h some_user =
      changed_answer-LeavesSound _ (
        change_user_password-LeavesSound hashes d.now user.id body.current_password
          body.new_password policies.password_policy a h)
  user_handler-LeavesSound d request user current_user a h some_user = record { sound = h }
  user_handler-LeavesSound d request user list_users_route a h some_user =
      only_admin-LeavesSound (require_admin user) a _ h (record { sound = h })
  user_handler-LeavesSound d request user (create_user body) a h some_user =
      only_admin-LeavesSound (require_admin user) a _ h (
        respond-LeavesSound _ _ _
          (create_user-LeavesSound hashes d.now d.id body policies.password_policy a h some_user))
  user_handler-LeavesSound d request user (update_user id body) a h some_user =
      only_admin-LeavesSound (require_admin user) a _ h (
        respond-LeavesSound _ _ _
          (update_user-LeavesSound hashes d.now id body policies.password_policy a h))
  user_handler-LeavesSound d request user list_groups a h some_user =
      only_admin-LeavesSound (require_admin user) a _ h (record { sound = h })
  user_handler-LeavesSound d request user (create_group body) a h some_user =
      only_admin-LeavesSound (require_admin user) a _ h
        (respond-LeavesSound _ _ _ (create_group-LeavesSound d.id body a h))
  user_handler-LeavesSound d request user (update_group id body) a h some_user =
      only_admin-LeavesSound (require_admin user) a _ h
        (respond-LeavesSound _ _ _ (update_group-LeavesSound id body a h))
  user_handler-LeavesSound d request user (update_group_members id ids) a h some_user =
      only_admin-LeavesSound (require_admin user) a _ h
        (respond-LeavesSound _ _ _ (replace_members-LeavesSound order set id ids a h))
  user_handler-LeavesSound d request user (delete_group id) a h some_user =
      only_admin-LeavesSound (require_admin user) a _ h
        (respond-LeavesSound _ _ _ (delete_group-LeavesSound id a h))

  served_by-LeavesSound :
      (d : Drawn) (request : HttpRequest) (endpoint : Endpoint) (x : Admission × Accounts)
      → AdmitsSound x
      → LeavesSound (served_by hashes order policies d request endpoint x)
  served_by-LeavesSound d request endpoint (refused e, a) h = record { sound = h.sound }
  served_by-LeavesSound d request endpoint (anonymous, a) h =
      open_handler-LeavesSound d endpoint a h.sound
  served_by-LeavesSound d request endpoint (admitted user, a) h =
      user_handler-LeavesSound d request user endpoint a h.sound (h.of_users user refl)

  pub serve-LeavesSound :
      (d : Drawn) (request : HttpRequest) (endpoint : Endpoint) (a : Accounts)
      → IsSound a
      → LeavesSound (serve hashes order policies d request endpoint a)
  unfolding serve
  serve-LeavesSound d request endpoint a h =
      served_by-LeavesSound d request endpoint _
        (control_plane_auth-AdmitsSound hashes d.now policies.session_policy request a h)

abbrev pub empty_accounts : Accounts
empty_accounts = record {
  users = [];
  user_sessions = [];
  user_groups = [];
  user_group_members = [];
}

-- what happens to the accounts of a running server: any request, and the reset of a password
pub data AccountStep (hashes : Hashes) (order : List String → List String) (policies : AuthPolicies)
    (a b : Accounts) : Type 0 where
  request :
      (d : Drawn) (r : HttpRequest) (endpoint : Endpoint)
      → (serve hashes order policies d r endpoint a).1 ≡ b
      → AccountStep hashes order policies a b
  reset :
      (now : ℕ) (username password : String)
      → (reset_user_password hashes now username password policies.password_policy a).1 ≡ b
      → AccountStep hashes order policies a b

pub data Reached (hashes : Hashes) (order : List String → List String) (policies : AuthPolicies)
    : Accounts → Type 0 where
  fresh : Reached hashes order policies empty_accounts
  next :
      {a b : Accounts}
      → Reached hashes order policies a
      → AccountStep hashes order policies a b
      → Reached hashes order policies b

step-IsSound :
    (hashes : Hashes) (order : List String → List String) (policies : AuthPolicies) (a b : Accounts)
    → IsSetOrder order
    → IsSound a
    → AccountStep hashes order policies a b
    → IsSound b
step-IsSound hashes order policies a b set h (request d r endpoint e) =
    subst IsSound e (serve-LeavesSound hashes order set policies d r endpoint a h).sound
step-IsSound hashes order policies a b set h (reset now username password e) =
    subst IsSound e
      (reset_user_password-LeavesSound hashes now username password policies.password_policy a
        h).sound

empty-IsSound : IsSound empty_accounts
unfolding all any all_distinct
empty-IsSound = record {
  user_ids = refl;
  usernames = refl;
  admin = refl;
  group_ids = refl;
  group_names = refl;
  members = refl;
}

-- Whatever requests a server gets from its first start on, users and groups are told apart by id and by
-- name, the user and the group of every membership exist, and once there is a user there is an enabled
-- admin.
pub Reached-IsSound :
    (hashes : Hashes) (order : List String → List String) (policies : AuthPolicies)
    → IsSetOrder order
    → {a : Accounts} → Reached hashes order policies a
    → IsSound a
Reached-IsSound hashes order policies set fresh = empty-IsSound
Reached-IsSound hashes order policies set (next r st) =
    step-IsSound hashes order policies _ _ set (Reached-IsSound hashes order policies set r) st

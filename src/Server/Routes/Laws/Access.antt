-- ===== src/Server/Routes/Laws/Access.antt =====
-- Who is let through: which paths are for admins only, what a change of anything else wants, and what a
-- user with a password to change may do. The prefixes of the paths for admins are listed here again.
use text.Mathlib.Text.{starts_with}
use lightai_platform.Prelude.{
  ℕ, String, ◌≡◌, refl, ap, ◌∙◌, Bool, true, false, not, ◌||◌, Option, none, some, ◌==◌, arith, any,
  Bool-cases, inl, inr, eq_iff, subst, nat_eq, List, [], ◌∷◌,
}
use lightai_platform.Prelude.Text.Prefix.{
  char_at, is_longer, char_at-starts_with, starts_with-append_left,
}
use lightai_platform.Server.Sessions.{
  Accounts, AuthUser, SessionPolicy, Hashes, authenticate_session,
}
use lightai_platform.Server.Sessions.Laws.{opens, authenticated_is_open}
use lightai_platform.Server.Routes.{
  HttpRequest, Admission, anonymous, admitted, refused, session_cookie, checked_user,
  session_checked, cookie_checked, control_plane_auth, is_open_path, is_admin_path,
  is_password_change_allowed_path, is_authorized_for_path,
}

-- the requests that are answered with an error, and those of users that pass a test
abbrev pub lets_only : (AuthUser → Bool) → Admission → Bool
lets_only p anonymous = false
lets_only p (refused e) = true
lets_only p (admitted user) = p user

-- What the test of a user lets through is what the middleware does, away from the open paths.
checked_lets_only :
    (p : AuthUser → Bool) (request : HttpRequest) (x : Option AuthUser × Accounts)
    → ((user : AuthUser) → lets_only p (checked_user request user) ≡ true)
    → lets_only p (session_checked request x).0 ≡ true
checked_lets_only p request (none, a) h = refl
checked_lets_only p request (some user, a) h = h user

module _ (hashes : Hashes) where
  cookie_lets_only :
      (p : AuthUser → Bool) (now : ℕ) (policy : SessionPolicy) (request : HttpRequest)
      (a : Accounts) (o : Option String)
      → ((user : AuthUser) → lets_only p (checked_user request user) ≡ true)
      → lets_only p (cookie_checked hashes now policy request a o).0 ≡ true
  cookie_lets_only p now policy request a none h = refl
  cookie_lets_only p now policy request a (some token) h =
      checked_lets_only p request (authenticate_session hashes now token policy a) h

  auth_lets_only :
      (p : AuthUser → Bool) (now : ℕ) (policy : SessionPolicy) (request : HttpRequest)
      (a : Accounts)
      → is_open_path request.path ≡ false
      → ((user : AuthUser) → lets_only p (checked_user request user) ≡ true)
      → lets_only p (control_plane_auth hashes now policy request a).0 ≡ true
  unfolding control_plane_auth
  auth_lets_only p now policy request a closed h =
      rw closed (cookie_lets_only p now policy request a (session_cookie request) h)

-- the sixth character of the paths for admins
admin_letter : ℕ → Bool
admin_letter c = nat_eq c 117 || nat_eq c 103 || nat_eq c 99 || nat_eq c 109

admin_path_letter :
    (path : String) → is_admin_path path ≡ true → admin_letter (char_at 5 path) ≡ true
unfolding admin_letter char_at is_longer
admin_path_letter path h = ground (
  arith,
  h,
  char_at-starts_with 5 path "/api/users",
  char_at-starts_with 5 path "/api/groups",
  char_at-starts_with 5 path "/api/config",
  char_at-starts_with 5 path "/api/model-file-trash",
)

admin_path_api : (path : String) → is_admin_path path ≡ true → starts_with path "/api/" ≡ true
admin_path_api path h = ground (
  arith,
  h,
  starts_with-append_left path "/api/" "users",
  starts_with-append_left path "/api/" "groups",
  starts_with-append_left path "/api/" "config",
  starts_with-append_left path "/api/" "model-file-trash",
)

letter_of : (path k : String) (n : ℕ) → path == k ≡ true → char_at 5 k ≡ n → char_at 5 path ≡ n
letter_of path k n h e = ap (char_at 5) ((eq_iff path k).0 h) ∙ e

admin_path_closed : (path : String) → is_admin_path path ≡ true → is_open_path path ≡ false
unfolding admin_letter char_at is_longer
admin_path_closed path h = ground (
  arith,
  admin_path_letter path h,
  admin_path_api path h,
  char_at-starts_with 5 path "/api/agent/",
  letter_of path "/api/auth/login" 97,
  letter_of path "/api/setup/status" 115,
  letter_of path "/api/setup/admin" 115,
)

admin_path_checked :
    (request : HttpRequest) (user : AuthUser)
    → is_admin_path request.path ≡ true
    → lets_only (λ u. u.effective_role == "admin") (checked_user request user) ≡ true
unfolding is_authorized_for_path admin_letter char_at is_longer
admin_path_checked request user h = ground (
  arith,
  h,
  admin_path_letter request.path h,
  char_at-starts_with 5 request.path "/api/auth/",
  letter_of request.path "/api/frontend-errors" 102,
)

abbrev pub admin_prefixes : List String
admin_prefixes = "/api/users" ∷ "/api/groups" ∷ "/api/config" ∷ "/api/model-file-trash" ∷ []

listed_is_admin_path :
    (path : String) → any (starts_with path) admin_prefixes ≡ true → is_admin_path path ≡ true
unfolding any
listed_is_admin_path path h = ground (arith, h)

-- A request whose path begins with /api/users, /api/groups, /api/config or /api/model-file-trash is let
-- through only with the session of a user whose effective role is admin, whatever its method; any
-- other is answered with an error.
pub admin_paths_need_admin :
    (hashes : Hashes) (now : ℕ) (policy : SessionPolicy) (request : HttpRequest) (a : Accounts)
    → any (starts_with request.path) admin_prefixes ≡ true
    → lets_only
        (λ u. u.effective_role == "admin")
        (control_plane_auth hashes now policy request a).0
      ≡ true
admin_paths_need_admin hashes now policy request a h =
    let closed = listed_is_admin_path request.path h in
    auth_lets_only hashes (λ u. u.effective_role == "admin") now policy request a
      (admin_path_closed request.path closed) (λ user. admin_path_checked request user closed)

-- an operator or an admin
abbrev pub may_write : AuthUser → Bool
may_write user = user.effective_role == "admin" || user.effective_role == "operator"

write_checked :
    (request : HttpRequest) (user : AuthUser)
    → request.method == "GET" ≡ false
    → starts_with request.path "/api/auth/" ≡ false
    → request.path == "/api/frontend-errors" ≡ false
    → lets_only may_write (checked_user request user) ≡ true
unfolding is_authorized_for_path
write_checked request user get auth errors = ground (arith, get, auth, errors)

-- A request other than GET is let through only for an operator or an admin, except on the open paths,
-- on those of the user's own session and password, and for reports of errors of the front end.
pub writes_need_operator :
    (hashes : Hashes) (now : ℕ) (policy : SessionPolicy) (request : HttpRequest) (a : Accounts)
    → is_open_path request.path ≡ false
    → starts_with request.path "/api/auth/" ≡ false
    → request.path == "/api/frontend-errors" ≡ false
    → request.method == "GET" ≡ false
    → lets_only may_write (control_plane_auth hashes now policy request a).0 ≡ true
writes_need_operator hashes now policy request a closed auth errors get =
    auth_lets_only hashes may_write now policy request a closed
      (λ user. write_checked request user get auth errors)

-- The session that lets a user through.
checked_has_session :
    (hashes : Hashes) (now : ℕ) (policy : SessionPolicy) (request : HttpRequest) (a : Accounts)
    (token : String) (o : Option AuthUser) (user : AuthUser) (b c : Accounts)
    → authenticate_session hashes now token policy a ≡ (o, c)
    → session_checked request (o, c) ≡ (admitted user, b)
    → (any (opens now (hashes.hash_token token) user.id) a.user_sessions ≡ true)
      × (user.enabled ≡ true)
      × (not user.must_change_password || is_password_change_allowed_path request.path ≡ true)
checked_has_session hashes now policy request a token none user b c e h = cc
checked_has_session hashes now policy request a token (some u) user b c e h =
    let same : u ≡ user = ground (arith, h) in
    let allowed : not u.must_change_password || is_password_change_allowed_path request.path
        ≡ true =
      ground (arith, h) in
    let (opened, enabled) = authenticated_is_open hashes now token policy a u c e in
    subst
      (λ v.
        (any (opens now (hashes.hash_token token) v.id) a.user_sessions ≡ true)
        × (v.enabled ≡ true)
        × (not v.must_change_password || is_password_change_allowed_path request.path ≡ true))
      same (opened, enabled, allowed)

cookie_has_session :
    (hashes : Hashes) (now : ℕ) (policy : SessionPolicy) (request : HttpRequest) (a : Accounts)
    (cookie : Option String) (user : AuthUser) (b : Accounts)
    → cookie_checked hashes now policy request a cookie ≡ (admitted user, b)
    → (token : String) × (cookie ≡ some token)
      × (any (opens now (hashes.hash_token token) user.id) a.user_sessions ≡ true)
      × (user.enabled ≡ true)
      × (not user.must_change_password || is_password_change_allowed_path request.path ≡ true)
cookie_has_session hashes now policy request a none user b h = cc
cookie_has_session hashes now policy request a (some token) user b h =
    let x = authenticate_session hashes now token policy a in
    let (opened, enabled, allowed) =
      checked_has_session hashes now policy request a token x.0 user b x.1 refl h in
    (token, refl, opened, enabled, allowed)

-- A request that goes on with a user carries a session cookie of that user whose session is neither
-- revoked nor run out; the user is enabled, and one that has a password to change goes no further than
-- the paths for that.
pub admitted_has_session :
    (hashes : Hashes) (now : ℕ) (policy : SessionPolicy) (request : HttpRequest) (a : Accounts)
    (user : AuthUser) (b : Accounts)
    → control_plane_auth hashes now policy request a ≡ (admitted user, b)
    → (token : String) × (session_cookie request ≡ some token)
      × (any (opens now (hashes.hash_token token) user.id) a.user_sessions ≡ true)
      × (user.enabled ≡ true)
      × (not user.must_change_password || is_password_change_allowed_path request.path ≡ true)
unfolding control_plane_auth
admitted_has_session hashes now policy request a user b h =
    elim (Bool-cases (is_open_path request.path)) [
      | inl e ↦ ground (arith, h, e)
      | inr e ↦
          cookie_has_session hashes now policy request a (session_cookie request) user b (rw e at h)
    ]

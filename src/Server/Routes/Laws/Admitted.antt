-- ===== src/Server/Routes/Laws/Admitted.antt =====
-- The middleware keeps the invariant of the accounts, and the user that it lets through is one of the
-- users.
use lightai_platform.Prelude.{
  ℕ, String, ◌≡◌, refl, Bool, true, false, not, ◌||◌, Option, none, some, List, [], ◌∷◌, arith,
  if◌then◌else◌, length, ltb, is_some,
}
use lightai_platform.Prelude.Rows.{select_one}
use lightai_platform.Server.Sessions.{
  User, UserSession, Accounts, AuthUser, SessionPolicy, Hashes, authenticate_session, find_session,
  session_found,
}
use lightai_platform.Server.Users.{user_count}
use lightai_platform.Server.Users.Laws.{IsSound}
use lightai_platform.Server.Users.Laws.Sound.{LeavesSound}
use lightai_platform.Server.Users.Laws.Passwords.{authenticate-LeavesSound}
use lightai_platform.Server.Routes.{
  HttpRequest, Admission, anonymous, admitted, session_cookie, session_checked, cookie_checked,
  control_plane_auth, is_open_path,
}

nobody_found :
    (now : ℕ) (hash : String) (ss : List UserSession) → find_session now hash [] ss ≡ none
unfolding find_session select_one
nobody_found now hash [] = refl
nobody_found now hash (s ∷ ss) = ground (arith, nobody_found now hash ss)

found_some_user :
    (now : ℕ) (hash : String) (us : List User) (ss : List UserSession)
    → is_some (find_session now hash us ss) ≡ true
    → ltb 0 (length us) ≡ true
found_some_user now hash [] ss h = ground (arith, h, nobody_found now hash ss)
found_some_user now hash (u ∷ us) ss h = ground arith

found_keeps_users :
    (hashes : Hashes) (now : ℕ) (hash : String) (policy : SessionPolicy) (a : Accounts)
    (o : Option (UserSession × User))
    → (is_some o ≡ true → ltb 0 (length a.users) ≡ true)
    → not (is_some (session_found hashes now hash policy a o).0)
        || ltb 0 (length (session_found hashes now hash policy a o).1.users)
      ≡ true
found_keeps_users hashes now hash policy a none h = refl
found_keeps_users hashes now hash policy a (some (s, u)) h = ground (arith, h refl)

-- An authenticated user is one of the users.
abbrev someone : Option AuthUser × Accounts → Bool
someone x = not (is_some x.0) || ltb 0 (user_count x.1)

authenticated_someone :
    (hashes : Hashes) (now : ℕ) (token : String) (policy : SessionPolicy) (a : Accounts)
    → someone (authenticate_session hashes now token policy a) ≡ true
unfolding authenticate_session user_count
authenticated_someone hashes now token policy a =
    let hash = hashes.hash_token token in
    found_keeps_users hashes now hash policy a _ (found_some_user now hash a.users a.user_sessions)

-- The middleware leaves sound tables, and lets only one of the users through.
pub record AdmitsSound (x : Admission × Accounts) : Type 0 where
  pub sound : IsSound x.1
  pub of_users : (user : AuthUser) → x.0 ≡ admitted user → ltb 0 (user_count x.1) ≡ true

session_checked-AdmitsSound :
    (request : HttpRequest) (x : Option AuthUser × Accounts)
    → LeavesSound x
    → someone x ≡ true
    → AdmitsSound (session_checked request x)
session_checked-AdmitsSound request (none, a) h e = record {
  sound = h.sound;
  of_users = λ user k. cc;
}
session_checked-AdmitsSound request (some user, a) h e = record {
  sound = h.sound;
  of_users = λ user k. e;
}

module _ (hashes : Hashes) where
  cookie_checked-AdmitsSound :
      (now : ℕ) (policy : SessionPolicy) (request : HttpRequest) (a : Accounts) (o : Option String)
      → IsSound a
      → AdmitsSound (cookie_checked hashes now policy request a o)
  cookie_checked-AdmitsSound now policy request a none h = record {
    sound = h;
    of_users = λ user k. cc;
  }
  cookie_checked-AdmitsSound now policy request a (some token) h =
      session_checked-AdmitsSound request (authenticate_session hashes now token policy a)
        (authenticate-LeavesSound hashes now token policy a h)
        (authenticated_someone hashes now token policy a)

  pub control_plane_auth-AdmitsSound :
      (now : ℕ) (policy : SessionPolicy) (request : HttpRequest) (a : Accounts)
      → IsSound a
      → AdmitsSound (control_plane_auth hashes now policy request a)
  unfolding control_plane_auth
  control_plane_auth-AdmitsSound now policy request a h =
      opened-AdmitsSound (is_open_path request.path)
    where
      opened-AdmitsSound :
          (b : Bool)
          → AdmitsSound (
              if b
              then (anonymous, a)
              else cookie_checked hashes now policy request a (session_cookie request))
      opened-AdmitsSound true = record { sound = h; of_users = λ user k. cc }
      opened-AdmitsSound false = cookie_checked-AdmitsSound now policy request a _ h

-- ===== src/Server/Sessions/Laws.antt =====
-- What the check of a session promises.
use lightai_platform.Prelude.{
  ℕ, String, ◌≡◌, refl, ap, Bool, true, false, ◌&&◌, ◌||◌, Option, none, some, List, [], ◌∷◌, ◌==◌,
  arith, if◌then◌else◌, Bool-cases, Option-cases, inl, inr, any, eq_iff, subst,
}
use lightai_platform.Prelude.Rows.{update, select_one}
use lightai_platform.Prelude.Rows.Laws.{select_one_sound}
use lightai_platform.Server.Sessions.Password.{
  PasswordPolicy, is_open_of, stored_password, checked_change, change_user_password,
  validate_password,
}
use lightai_platform.Server.Sessions.{
  User, UserSession, Accounts, AuthUser, SessionPolicy, Hashes, find_session, has_hash, revoked,
  session_found, authenticate_session, revoke_session, enrich_effective_role, is_open_session,
  joined, is_idle,
}

revoked_not_found :
    (past now : ℕ) (hash : String) (users : List User) (ss : List UserSession)
    → find_session now hash users (update (has_hash hash) (revoked past) ss) ≡ none
unfolding find_session update
revoked_not_found past now hash users [] = refl
revoked_not_found past now hash users (s ∷ ss) =
    ground (arith, revoked_not_found past now hash users ss)

-- A token that has been revoked is refused from then on, at any time and under any policy.
pub revoked_is_refused :
    (hashes : Hashes) (past now : ℕ) (token : String) (policy : SessionPolicy) (a : Accounts)
    → (authenticate_session hashes now token policy (revoke_session hashes past token a)).0 ≡ none
unfolding authenticate_session revoke_session
revoked_is_refused hashes past now token policy a =
    ap
      (λ o.
        (session_found hashes now (hashes.hash_token token) policy
          (revoke_session hashes past token a) o).0)
      (revoked_not_found past now (hashes.hash_token token) a.users a.user_sessions)

-- a session with the hash that is open, of the user
abbrev pub opens : ℕ → String → String → UserSession → Bool
opens now hash user_id s = is_open_session now hash s && s.user_id == user_id

found_step :
    (now : ℕ) (hash : String) (users : List User) (s : UserSession)
    (rest : Option (UserSession × User)) (x : UserSession) (u : User) (later : Bool)
    → (rest ≡ some (x, u) → (later ≡ true) × (u.enabled ≡ true))
    → (if is_open_session now hash s
        then joined s (select_one (λ v. v.id == s.user_id && v.enabled) users) rest
        else rest)
      ≡ some (x, u)
    → (opens now hash u.id s || later ≡ true) × (u.enabled ≡ true)
found_step now hash users s rest x u later h e =
    let p : User → Bool = λ v. v.id == s.user_id && v.enabled in
    elim (Option-cases (select_one p users)) [
      | inl none_found ↦ (ground (arith, h, e, none_found), ground (arith, h, e, none_found))
      | inr (v, k) ↦
          let found = select_one_sound p users v k in
          (
            ground (arith, h, e, k, found, eq_iff v.id s.user_id, eq_iff s.user_id v.id),
            ground (arith, h, e, k, found),
          )
    ]

found_opens :
    (now : ℕ) (hash : String) (users : List User) (ss : List UserSession) (x : UserSession)
    (u : User)
    → find_session now hash users ss ≡ some (x, u)
    → (any (opens now hash u.id) ss ≡ true) × (u.enabled ≡ true)
unfolding find_session any
found_opens now hash users [] x u e = cc
found_opens now hash users (s ∷ ss) x u e =
    found_step now hash users s (find_session now hash users ss) x u (any (opens now hash u.id) ss)
      (λ k. found_opens now hash users ss x u k) e

answer_opens :
    (hashes : Hashes) (now : ℕ) (hash : String) (policy : SessionPolicy) (a : Accounts)
    (o : Option (UserSession × User)) (user : AuthUser) (b : Accounts)
    → ((x : UserSession) (u : User)
        → o ≡ some (x, u)
        → (any (opens now hash u.id) a.user_sessions ≡ true) × (u.enabled ≡ true))
    → session_found hashes now hash policy a o ≡ (some user, b)
    → (any (opens now hash user.id) a.user_sessions ≡ true) × (user.enabled ≡ true)
unfolding enrich_effective_role
answer_opens hashes now hash policy a none user b h e = cc
answer_opens hashes now hash policy a (some (x, u)) user b h e =
    let (open_, enabled) = h x u refl in
    elim (Bool-cases (is_idle now policy.idle_timeout_secs x)) [
      | inl idle ↦ ground (arith, e, idle)
      | inr active ↦
          let same : u.id ≡ user.id = ground (arith, e, active) in
          (
            subst (λ id. any (opens now hash id) a.user_sessions ≡ true) same open_,
            ground (arith, e, active, enabled),
          )
    ]

-- Whom a token authenticates is an enabled user with a session of that token that has neither been
-- revoked nor run out.
pub authenticated_is_open :
    (hashes : Hashes) (now : ℕ) (token : String) (policy : SessionPolicy) (a : Accounts)
    (user : AuthUser) (b : Accounts)
    → authenticate_session hashes now token policy a ≡ (some user, b)
    → (any (opens now (hashes.hash_token token) user.id) a.user_sessions ≡ true)
      × (user.enabled ≡ true)
unfolding authenticate_session
authenticated_is_open hashes now token policy a user b h =
    answer_opens hashes now (hashes.hash_token token) policy a _ user b
      (λ x u e. found_opens now (hashes.hash_token token) a.users a.user_sessions x u e) h

pub sessions_ended :
    (now : ℕ) (user_id : String) (ss : List UserSession)
    → any (is_open_of user_id) (update (is_open_of user_id) (revoked now) ss) ≡ false
unfolding any update
sessions_ended now user_id [] = refl
sessions_ended now user_id (s ∷ ss) = ground (arith, sessions_ended now user_id ss)

stored_ends :
    (hashes : Hashes) (now : ℕ) (user_id : String) (o : Option String) (a b : Accounts)
    → stored_password hashes now user_id o a ≡ (none, b)
    → any (is_open_of user_id) b.user_sessions ≡ false
stored_ends hashes now user_id none a b h = cc
stored_ends hashes now user_id (some hash) a b h =
    subst (λ x. any (is_open_of user_id) x.user_sessions ≡ false) (ap (λ r. r.1) h)
      (sessions_ended now user_id a.user_sessions)

checked_ends :
    (hashes : Hashes) (now : ℕ) (user_id current password : String) (o : Option User)
    (a b : Accounts)
    → checked_change hashes now user_id current password a o ≡ (none, b)
    → any (is_open_of user_id) b.user_sessions ≡ false
checked_ends hashes now user_id current password none a b h = cc
checked_ends hashes now user_id current password (some u) a b h =
    elim (Bool-cases (hashes.verify_password current u.password_hash)) [
      | inl e ↦
          stored_ends hashes now user_id (hashes.hash_password password) a b (ground (arith, h, e))
      | inr e ↦ ground (arith, h, e)
    ]

-- A change of a password that succeeds leaves no session of the user that has not been revoked.
pub change_ends_sessions :
    (hashes : Hashes) (now : ℕ) (user_id current password : String) (policy : PasswordPolicy)
    (a b : Accounts)
    → change_user_password hashes now user_id current password policy a ≡ (none, b)
    → any (is_open_of user_id) b.user_sessions ≡ false
unfolding change_user_password
change_ends_sessions hashes now user_id current password policy a b h =
    elim (Bool-cases (validate_password password policy)) [
      | inl e ↦
          checked_ends hashes now user_id current password
            (select_one (λ u. u.id == user_id && u.enabled) a.users) a b (ground (arith, h, e))
      | inr e ↦ ground (arith, h, e)
    ]

-- ===== src/Server/Users/Laws/Ended.antt =====
-- What ends the sessions of a user: being disabled, and the reset of the password.
use lightai_platform.Prelude.{
  ℕ, String, ◌≡◌, refl, ap, Bool, true, false, not, ◌&&◌, ◌||◌, Option, none, some, ◌==◌,
  if◌then◌else◌, any, unwrap_or, nat_eq,
}
use lightai_platform.Server.Sessions.{Accounts, AuthUser, Hashes}
use lightai_platform.Server.Sessions.Password.{PasswordPolicy, is_open_of}
use lightai_platform.Server.Sessions.Laws.{sessions_ended}
use lightai_platform.Server.Users.{
  Reply, done, failed, UserUpdateRequest, update_user_with_policy, update_existing, write_user,
  update_hashed, user_by_id, role_accepted, password_accepted, other_admins, answered, user_or_lost,
}

-- The reply is an error, or the user has no session that is open.
abbrev pub ended : String → Reply AuthUser × Accounts → Bool
ended id (failed e, a) = true
ended id (done u, a) = not (any (is_open_of id) a.user_sessions)

ended-answered :
    (lost id : String) (a : Accounts)
    → any (is_open_of id) a.user_sessions ≡ false
    → ended id (answered lost id a) ≡ true
ended-answered lost id a h = ended-shown (user_by_id a id)
  where
    ended-shown : (o : Option AuthUser) → ended id (user_or_lost lost o, a) ≡ true
    ended-shown none = refl
    ended-shown (some u) = ap not h

ended-if :
    (id : String) (b : Bool) (x y : Reply AuthUser × Accounts)
    → (b ≡ true → ended id x ≡ true)
    → (b ≡ false → ended id y ≡ true)
    → ended id (if b then x else y) ≡ true
ended-if id true x y h k = h refl
ended-if id false x y h k = k refl

module _ (hashes : Hashes) where
  ended-write_user :
      (now : ℕ) (id role : String) (password : Option String) (a : Accounts)
      → ended id (write_user hashes now id role false password a) ≡ true
  ended-write_user now id role none a =
      ended-answered _ id _ (sessions_ended now id a.user_sessions)
  ended-write_user now id role (some password) a = ended-hashed (hashes.hash_password password)
    where
      ended-hashed :
          (o : Option String) → ended id (update_hashed hashes now id role false o a) ≡ true
      ended-hashed none = refl
      ended-hashed (some hash) = ended-answered _ id _ (sessions_ended now id a.user_sessions)

  ended-update_existing :
      (now : ℕ) (id : String) (request : UserUpdateRequest) (a : Accounts) (o : Option AuthUser)
      → request.enabled ≡ some false
      → ended id (update_existing hashes now id request a o) ≡ true
  ended-update_existing now id request a none e = refl
  ended-update_existing now id request a (some user) e =
      let role = unwrap_or request.role user.role in
      rw e (
        ended-if id
          (user.role == "admin"
            && (not false || not (role == "admin"))
            && nat_eq (other_admins id a) 0)
          _ _ (λ k. refl) (λ k. ended-write_user now id role request.password a))

  -- An update that disables a user either fails or leaves the user no session that is open.
  pub disabled_user_is_out :
      (now : ℕ) (id : String) (request : UserUpdateRequest) (policy : PasswordPolicy) (a : Accounts)
      → request.enabled ≡ some false
      → ended id (update_user_with_policy hashes now id request policy a) ≡ true
  unfolding update_user_with_policy
  disabled_user_is_out now id request policy a e =
      ended-if id (not (role_accepted request.role)) _ _ (λ k. refl)
        (λ k.
          ended-if id (not (password_accepted request.password policy)) _ _ (λ l. refl)
            (λ l. ended-update_existing now id request a (user_by_id a id) e))

-- ===== src/Server/Users/Laws/Passwords.antt =====
-- The operations on passwords and sessions keep the invariant of the accounts.
use lightai_platform.Prelude.{
  ℕ, String, ◌≡◌, refl, Bool, not, ◌||◌, Option, none, some, ◌==◌, arith,
}
use lightai_platform.Prelude.Rows.{select_one}
use lightai_platform.Prelude.Rows.Laws.{length-update}
use lightai_platform.Prelude.Text.{trim}
use lightai_platform.Server.Sessions.{
  User, UserSession, Accounts, Hashes, SessionPolicy, authenticate_session, revoke_session,
  session_found, is_idle,
}
use lightai_platform.Server.Sessions.Password.{
  PasswordPolicy, validate_password, change_user_password, checked_change, login_user,
  stored_password, new_password, logged_in, has_expired,
}
use lightai_platform.Server.Users.{
  is_admin, update_user_row, reset_hashed, reset_row, reset_found, reset_user_password,
}
use lightai_platform.Server.Users.Laws.{IsSound}
use lightai_platform.Server.Users.Laws.Sound.{
  LeavesSound, LeavesSound-if, IsSound-sessions, IsSound-update,
}
use lightai_platform.Server.Users.Laws.Rows.{any-update_same}

module _ (hashes : Hashes) where
  -- An update that keeps the role and the flag of each user keeps the admins.
  same_admins :
      (id : String) (f : User → User) (a : Accounts)
      → IsSound a
      → ((u : User) → (f u).id ≡ u.id)
      → ((u : User) → (f u).username ≡ u.username)
      → ((u : User) → is_admin (f u) ≡ is_admin u)
      → IsSound (update_user_row id f a)
  same_admins id f a h ids names admins =
      let p : User → Bool = λ u. u.id == id in
      IsSound-update id f a h ids names (
        ground
          (arith, h.admin, any-update_same p is_admin f admins a.users, length-update p f a.users))

  reset_hashed-LeavesSound :
      (now : ℕ) (must_change : Bool) (id : String) (o : Option String) (a : Accounts)
      → IsSound a
      → LeavesSound (reset_hashed now must_change id o a)
  reset_hashed-LeavesSound now must_change id none a h = record { sound = h }
  reset_hashed-LeavesSound now must_change id (some hash) a h =
      let f = reset_row now hash must_change in
      record {
        sound =
            IsSound-sessions (update_user_row id f a) _
              (same_admins id f a h (λ u. refl) (λ u. refl) (λ u. refl));
      }

  reset_found-LeavesSound :
      (now : ℕ) (password : String) (policy : PasswordPolicy) (a : Accounts) (o : Option User)
      → IsSound a
      → LeavesSound (reset_found hashes now password policy a o)
  reset_found-LeavesSound now password policy a none h = record { sound = h }
  reset_found-LeavesSound now password policy a (some u) h =
      reset_hashed-LeavesSound now policy.force_change_after_reset u.id
        (hashes.hash_password password) a h

  pub reset_user_password-LeavesSound :
      (now : ℕ) (username password : String) (policy : PasswordPolicy) (a : Accounts)
      → IsSound a
      → LeavesSound (reset_user_password hashes now username password policy a)
  unfolding reset_user_password
  reset_user_password-LeavesSound now username password policy a h =
      LeavesSound-if (not (validate_password password policy)) (λ e. record { sound = h })
        (λ e.
          reset_found-LeavesSound now password policy a
            (select_one (λ u. u.username == trim username) a.users) h)

  stored_password-LeavesSound :
      (now : ℕ) (id : String) (o : Option String) (a : Accounts)
      → IsSound a
      → LeavesSound (stored_password hashes now id o a)
  stored_password-LeavesSound now id none a h = record { sound = h }
  stored_password-LeavesSound now id (some hash) a h = record {
    sound =
        IsSound-sessions (update_user_row id (new_password now hash) a) _
          (same_admins id (new_password now hash) a h (λ u. refl) (λ u. refl) (λ u. refl));
  }

  checked_change-LeavesSound :
      (now : ℕ) (id current password : String) (a : Accounts) (o : Option User)
      → IsSound a
      → LeavesSound (checked_change hashes now id current password a o)
  checked_change-LeavesSound now id current password a none h = record { sound = h }
  checked_change-LeavesSound now id current password a (some u) h =
      LeavesSound-if (not (hashes.verify_password current u.password_hash))
        (λ e. record { sound = h })
        (λ e. stored_password-LeavesSound now id (hashes.hash_password password) a h)

  pub change_user_password-LeavesSound :
      (now : ℕ) (id current password : String) (policy : PasswordPolicy) (a : Accounts)
      → IsSound a
      → LeavesSound (change_user_password hashes now id current password policy a)
  unfolding change_user_password
  change_user_password-LeavesSound now id current password policy a h =
      LeavesSound-if (not (validate_password password policy)) (λ e. record { sound = h })
        (λ e. checked_change-LeavesSound now id current password a _ h)

  logged_in-LeavesSound :
      (now : ℕ) (password token : String) (policy : SessionPolicy) (rules : PasswordPolicy)
      (a : Accounts) (o : Option User)
      → IsSound a
      → LeavesSound (logged_in hashes now password token policy rules a o)
  logged_in-LeavesSound now password token policy rules a none h = record { sound = h }
  logged_in-LeavesSound now password token policy rules a (some u) h =
      LeavesSound-if (not u.enabled || not (hashes.verify_password password u.password_hash))
        (λ e. record { sound = h })
        (λ e.
          LeavesSound-if (has_expired now rules.expires_days u.password_changed_at)
            (λ e. record { sound = h }) (λ e. record { sound = IsSound-sessions a _ h }))

  pub login_user-LeavesSound :
      (now : ℕ) (username password token : String) (policy : SessionPolicy) (rules : PasswordPolicy)
      (a : Accounts)
      → IsSound a
      → LeavesSound (login_user hashes now username password token policy rules a)
  unfolding login_user
  login_user-LeavesSound now username password token policy rules a h =
      logged_in-LeavesSound now password token policy rules a _ h

  session_found-LeavesSound :
      (now : ℕ) (hash : String) (policy : SessionPolicy) (a : Accounts)
      (o : Option (UserSession × User))
      → IsSound a
      → LeavesSound (session_found hashes now hash policy a o)
  session_found-LeavesSound now hash policy a none h = record { sound = h }
  session_found-LeavesSound now hash policy a (some (s, u)) h =
      LeavesSound-if (is_idle now policy.idle_timeout_secs s)
        (λ e. record { sound = IsSound-sessions a _ h })
        (λ e. record { sound = IsSound-sessions a _ h })

  pub authenticate-LeavesSound :
      (now : ℕ) (token : String) (policy : SessionPolicy) (a : Accounts)
      → IsSound a
      → LeavesSound (authenticate_session hashes now token policy a)
  unfolding authenticate_session
  authenticate-LeavesSound now token policy a h =
      session_found-LeavesSound now (hashes.hash_token token) policy a _ h

  pub revoke-IsSound :
      (now : ℕ) (token : String) (a : Accounts)
      → IsSound a
      → IsSound (revoke_session hashes now token a)
  unfolding revoke_session
  revoke-IsSound now token a h = IsSound-sessions a _ h

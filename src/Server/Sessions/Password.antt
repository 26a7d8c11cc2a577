-- ===== src/Server/Sessions/Password.antt =====
-- `login_user`, `change_user_password` and `validate_password`. A change that succeeds ends every
-- session of the user. The id of a new session does not matter and is left out; its token is an
-- argument.
use lightai_platform.Prelude.{
  ℕ, ◌+◌, ◌*◌, String, Bool, not, ◌&&◌, ◌||◌, Option, none, some, ◌==◌, leb, ltb, is_some,
  if◌then◌else◌, false,
}
use lightai_platform.Prelude.Rows.{select_one, update, insert}
use lightai_platform.Prelude.Text.{byte_length, any_char, is_upper, trim}
use lightai_platform.Server.Sessions.{
  User, UserSession, Accounts, AuthUser, SessionPolicy, Hashes, enrich_effective_role,
  user_from_row, update_sessions, revoked,
}

pub record PasswordPolicy : Type 0 where
  pub min_length : ℕ
  pub complexity_required : Bool
  pub expires_days : Option ℕ
  pub force_change_after_reset : Bool

-- the errors of `anyhow`; a validator that has several messages and a row that is not found again
-- carry their text
pub data AccountError : Type 0 where
  weak_password user_not_found wrong_password hash_failed bad_role setup_completed : AccountError
  last_admin not_unique group_not_found group_has_members : AccountError
  bad_username bad_group_name row_lost : String → AccountError

abbrev pub is_lower : ℕ → Bool
is_lower c = leb 97 c && leb c 122

abbrev pub is_digit : ℕ → Bool
is_digit c = leb 48 c && leb c 57

-- `validate_password(password, policy).is_ok()`
unfoldable pub validate_password : String → PasswordPolicy → Bool
unfolding any_char byte_length
validate_password password policy =
    not (ltb (byte_length password) policy.min_length)
    && (not policy.complexity_required
        || (any_char is_lower password && any_char is_upper password && any_char is_digit password))

-- changed_at > 0 && now - changed_at > days * 86_400
abbrev pub has_expired : ℕ → Option ℕ → ℕ → Bool
has_expired now none changed_at = false
has_expired now (some days) changed_at = ltb 0 changed_at && ltb (changed_at + days * 86400) now

abbrev pub session_of : ℕ → String → String → SessionPolicy → UserSession
session_of now user_id hash policy = record {
  user_id = user_id;
  token_hash = hash;
  last_seen_at = now;
  expires_at = now + policy.ttl_secs;
  revoked_at = none;
}

abbrev pub is_open_of : String → UserSession → Bool
is_open_of user_id s = s.user_id == user_id && not (is_some s.revoked_at)

abbrev pub new_password : ℕ → String → User → User
new_password now hash u = record u {
  password_hash = hash;
  password_changed_at = now;
  must_change_password = false;
  updated_at = now;
}

module _ (hashes : Hashes) where
  abbrev pub logged_in :
      ℕ
      → String
      → String
      → SessionPolicy
      → PasswordPolicy
      → Accounts
      → Option User
      → Option (AuthUser × String) × Accounts
  logged_in now password token policy rules a none = (none, a)
  logged_in now password token policy rules a (some u) =
      if not u.enabled || not (hashes.verify_password password u.password_hash)
      then (none, a)
      else if has_expired now rules.expires_days u.password_changed_at
      then (none, a)
      else (
        some (enrich_effective_role a (user_from_row u), token),
        record a {
          user_sessions =
              insert (session_of now u.id (hashes.hash_token token) policy) a.user_sessions;
        },
      )

  unfoldable pub login_user :
      ℕ
      → String
      → String
      → String
      → SessionPolicy
      → PasswordPolicy
      → Accounts
      → Option (AuthUser × String) × Accounts
  login_user now username password token policy rules a =
      logged_in now password token policy rules a
        (select_one (λ u. u.username == trim username) a.users)

  -- the two UPDATE statements, with the hash of the new password
  abbrev pub stored_password :
      ℕ → String → Option String → Accounts → Option AccountError × Accounts
  stored_password now user_id none a = (some hash_failed, a)
  stored_password now user_id (some hash) a = (
    none,
    update_sessions (is_open_of user_id) (revoked now)
        (record a { users = update (λ u. u.id == user_id) (new_password now hash) a.users }),
  )

  abbrev pub checked_change :
      ℕ → String → String → String → Accounts → Option User → Option AccountError × Accounts
  checked_change now user_id current password a none = (some user_not_found, a)
  checked_change now user_id current password a (some u) =
      if not (hashes.verify_password current u.password_hash)
      then (some wrong_password, a)
      else stored_password now user_id (hashes.hash_password password) a

  -- an error, if there is one
  unfoldable pub change_user_password :
      ℕ → String → String → String → PasswordPolicy → Accounts → Option AccountError × Accounts
  change_user_password now user_id current password policy a =
      if not (validate_password password policy)
      then (some weak_password, a)
      else checked_change now user_id current password a
          (select_one (λ u. u.id == user_id && u.enabled) a.users)

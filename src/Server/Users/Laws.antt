-- ===== src/Server/Users/Laws.antt =====
-- The invariant of the tables of accounts. The child modules show that the operations keep it.
pub mod Rows
pub mod Sound
pub mod Users
pub mod Passwords
pub mod Groups
pub mod Members
pub mod Ended
use lightai_platform.Prelude.{
  ◌≡◌, Bool, true, ◌&&◌, ◌||◌, List, ◌==◌, all, any, length, map, nat_eq, String,
}
use lightai_platform.Prelude.Text.{all_distinct}
use lightai_platform.Server.Sessions.{User, UserGroup, GroupMember, Accounts}
use lightai_platform.Server.Users.{is_admin}

abbrev pub has_user : String → List User → Bool
has_user id users = any (λ u. u.id == id) users

abbrev pub has_group : String → List UserGroup → Bool
has_group id groups = any (λ g. g.id == id) groups

-- the member's user and group exist
abbrev pub is_known : List User → List UserGroup → GroupMember → Bool
is_known users groups m = has_user m.user_id users && has_group m.group_id groups

-- no user yet, or an enabled admin
abbrev pub has_admin : List User → Bool
has_admin users = nat_eq (length users) 0 || any is_admin users

-- Users are told apart by id and by name, groups too, a member's user and group exist, and once there
-- is a user there is an enabled admin.
pub record IsSound (a : Accounts) : Type 0 where
  pub user_ids : all_distinct (map (λ u. u.id) a.users) ≡ true
  pub usernames : all_distinct (map (λ u. u.username) a.users) ≡ true
  pub admin : has_admin a.users ≡ true
  pub group_ids : all_distinct (map (λ g. g.id) a.user_groups) ≡ true
  pub group_names : all_distinct (map (λ g. g.name) a.user_groups) ≡ true
  pub members : all (is_known a.users a.user_groups) a.user_group_members ≡ true

-- ===== src/Server/Users/Groups.antt =====
-- The groups of users of server/src/repository.rs: list, create, update, the replacement of the
-- members and the deletion. The order in which a `HashSet` gives its elements is an argument.
use lightai_platform.Prelude.{
  ℕ, String, Bool, true, not, ◌&&◌, ◌||◌, Option, none, some, List, [], ◌∷◌, ◌++◌, ◌==◌, ltb, map,
  length, any, all, is_some, if◌then◌else◌, unwrap_or,
}
use lightai_platform.Prelude.Rows.{select, select_one, update, delete, insert, sort_by}
use lightai_platform.Prelude.Text.{byte_length, any_char, is_control, one_of, text_leb, trim}
use lightai_platform.Server.Sessions.{
  User, UserGroup, GroupMember, Accounts, AuthUser, enrich_effective_role, user_from_row,
}
use lightai_platform.Server.Sessions.Password.{
  AccountError, user_not_found, bad_role, not_unique, row_lost, bad_group_name, group_not_found,
  group_has_members,
}
use lightai_platform.Server.Users.{Reply, done, failed, validate_role, user_by_id, refuse_error}

pub record UserGroupView : Type 0 where
  pub id : String
  pub name : String
  pub role : String
  pub enabled : Bool
  pub member_count : ℕ
  pub members : List AuthUser

pub record UserGroupCreateRequest : Type 0 where
  pub name : String
  pub role : String

pub record UserGroupUpdateRequest : Type 0 where
  pub name : Option String
  pub role : Option String
  pub enabled : Option Bool

-- `validate_group_name`: its error, if there is one
unfoldable pub validate_group_name : String → Option AccountError
unfolding trim byte_length any_char is_control
validate_group_name name =
    let trimmed = trim name in
    if ltb (byte_length trimmed) 2 || ltb 80 (byte_length trimmed)
    then some (bad_group_name "group name must be 2-80 characters")
    else if any_char is_control trimmed
    then some (bad_group_name "group name must not contain control characters")
    else none

abbrev with_user : Option User → List User → List User
with_user none us = us
with_user (some u) us = u ∷ us

-- the JOIN of the members of the group with the users
unfoldable pub joined_users : String → List User → List GroupMember → List User
joined_users group_id users [] = []
joined_users group_id users (m ∷ ms) =
    let rest = joined_users group_id users ms in
    if m.group_id == group_id
    then with_user (select_one (λ u. u.id == m.user_id) users) rest
    else rest

unfoldable pub group_members : Accounts → String → List AuthUser
unfolding sort_by joined_users
group_members a group_id =
    map (λ u. enrich_effective_role a (user_from_row u))
      (sort_by (λ u v. text_leb u.username v.username)
        (joined_users group_id a.users a.user_group_members))

abbrev pub group_view_from_row : Accounts → UserGroup → UserGroupView
group_view_from_row a g =
    let members = group_members a g.id in
    record {
      id = g.id;
      name = g.name;
      role = g.role;
      enabled = g.enabled;
      member_count = length members;
      members = members;
    }

abbrev pub view_of_group : Accounts → Option UserGroup → Option UserGroupView
view_of_group a none = none
view_of_group a (some g) = some (group_view_from_row a g)

unfoldable pub user_group_by_id : Accounts → String → Option UserGroupView
unfolding select_one
user_group_by_id a id = view_of_group a (select_one (λ g. g.id == id) a.user_groups)

abbrev pub group_or_lost : String → Option UserGroupView → Reply UserGroupView
group_or_lost lost none = failed (row_lost lost)
group_or_lost lost (some g) = done g

abbrev pub group_answered : String → String → Accounts → Reply UserGroupView × Accounts
group_answered lost id a = (group_or_lost lost (user_group_by_id a id), a)

unfoldable pub list_user_groups : Accounts → List UserGroupView
unfolding sort_by
list_user_groups a =
    map (group_view_from_row a) (sort_by (λ g h. text_leb g.name h.name) a.user_groups)

-- PRIMARY KEY (id), UNIQUE (name)
abbrev pub group_clashes : UserGroup → UserGroup → Bool
group_clashes g h = h.id == g.id || h.name == g.name

unfoldable pub create_user_group :
    String → UserGroupCreateRequest → Accounts → Reply UserGroupView × Accounts
create_user_group id request a =
    let g : UserGroup = record {
      id = id;
      name = trim request.name;
      role = request.role;
      enabled = true;
    } in
    refuse_error (validate_group_name request.name) a (
      if not (validate_role request.role)
      then (failed bad_role, a)
      else if any (group_clashes g) a.user_groups
      then (failed not_unique, a)
      else group_answered "created group not found" id
          (record a { user_groups = insert g a.user_groups }))

abbrev pub updated_group : String → String → Bool → UserGroup → UserGroup
updated_group name role enabled g = record g { name = trim name; role = role; enabled = enabled }

abbrev pub update_existing_group :
    String
    → UserGroupUpdateRequest
    → Accounts
    → Option UserGroupView
    → Reply UserGroupView × Accounts
update_existing_group id request a none = (failed group_not_found, a)
update_existing_group id request a (some existing) =
    let name = unwrap_or request.name existing.name in
    let role = unwrap_or request.role existing.role in
    let enabled = unwrap_or request.enabled existing.enabled in
    refuse_error (validate_group_name name) a (
      if not (validate_role role)
      then (failed bad_role, a)
      else if any (λ g. not (g.id == id) && g.name == trim name) a.user_groups
      then (failed not_unique, a)
      else group_answered "updated group not found" id (record a {
        user_groups = update (λ g. g.id == id) (updated_group name role enabled) a.user_groups;
      }))

unfoldable pub update_user_group :
    String → UserGroupUpdateRequest → Accounts → Reply UserGroupView × Accounts
update_user_group id request a = update_existing_group id request a (user_group_by_id a id)

-- `seen` once the loop has run
unfoldable pub distinct_ids : List String → List String
unfolding one_of
distinct_ids [] = []
distinct_ids (x ∷ xs) = let rest = distinct_ids xs in if one_of rest x then rest else x ∷ rest

abbrev pub member_of : String → String → GroupMember
member_of group_id user_id = record { group_id = group_id; user_id = user_id }

module _ (set_order : List String → List String) where
  unfoldable pub replace_user_group_members :
      String → List String → Accounts → Reply UserGroupView × Accounts
  unfolding distinct_ids
  replace_user_group_members group_id user_ids a =
      if not (is_some (user_group_by_id a group_id))
      then (failed group_not_found, a)
      else if not (all (λ id. is_some (user_by_id a id)) user_ids)
      then (failed user_not_found, a)
      else group_answered "updated group not found" group_id (record a {
        user_group_members =
            delete (λ m. m.group_id == group_id) a.user_group_members
            ++ map (member_of group_id) (set_order (distinct_ids user_ids));
      })

unfoldable pub delete_user_group : String → Accounts → Reply Unit × Accounts
delete_user_group group_id a =
    if ltb 0 (length (select (λ m. m.group_id == group_id) a.user_group_members))
    then (failed group_has_members, a)
    else if not (any (λ g. g.id == group_id) a.user_groups)
    then (failed group_not_found, a)
    else (done tt, record a { user_groups = delete (λ g. g.id == group_id) a.user_groups })

-- ===== src/Server/Users/Laws/Members.antt =====
-- The replacement of the members of a group and the deletion of a group keep the invariant of the
-- accounts: every member's user and group exist.
use lightai_platform.Prelude.{
  String, ◌≡◌, refl, Bool, true, false, not, List, [], ◌∷◌, ◌++◌, ◌==◌, arith, map, any, all,
  length, eq_iff, eq_refl, is_some, ltb,
}
use lightai_platform.Prelude.Rows.{select, select_one, delete}
use lightai_platform.Prelude.Text.{one_of}
use lightai_platform.Server.Sessions.{User, UserGroup, GroupMember, Accounts}
use lightai_platform.Server.Users.{user_by_id, view_of_user}
use lightai_platform.Server.Users.Groups.{
  replace_user_group_members, delete_user_group, user_group_by_id, distinct_ids, member_of,
  view_of_group,
}
use lightai_platform.Server.Users.Laws.{IsSound, has_user, has_group, is_known}
use lightai_platform.Server.Users.Laws.Sound.{LeavesSound, LeavesSound-if}
use lightai_platform.Server.Users.Laws.Rows.{any-select, all_distinct-delete}

-- An iteration of a set gives its elements and no other.
abbrev pub IsSetOrder : (List String → List String) → Type 0
IsSetOrder order = (xs : List String) (x : String) → one_of (order xs) x ≡ one_of xs x

all-delete :
    (q p : GroupMember → Bool) (ms : List GroupMember)
    → all q ms ≡ true
    → all q (delete p ms) ≡ true
unfolding all delete
all-delete q p [] h = refl
all-delete q p (m ∷ ms) h = ground (arith, h, all-delete q p ms)

all-append :
    (q : GroupMember → Bool) (ms ns : List GroupMember)
    → all q ms ≡ true
    → all q ns ≡ true
    → all q (ms ++ ns) ≡ true
unfolding all
all-append q [] ns h k = k
all-append q (m ∷ ms) ns h k = ground (arith, h, k, all-append q ms ns)

one_of-distinct : (xs : List String) (x : String) → one_of (distinct_ids xs) x ≡ one_of xs x
unfolding one_of distinct_ids
one_of-distinct [] x = refl
one_of-distinct (y ∷ ys) x = ground (arith, one_of-distinct ys x, one_of-distinct ys y, eq_iff x y)

pub found_user : (a : Accounts) (id : String) → is_some (user_by_id a id) ≡ has_user id a.users
unfolding user_by_id any
found_user a id = found a.users
  where
    found :
        (us : List User)
        → is_some (view_of_user a (select_one (λ u. u.id == id) us)) ≡ has_user id us
    found [] = refl
    found (u ∷ us) = ground (arith, found us)

pub found_group :
    (a : Accounts) (id : String) → is_some (user_group_by_id a id) ≡ has_group id a.user_groups
unfolding user_group_by_id any
found_group a id = found a.user_groups
  where
    found :
        (gs : List UserGroup)
        → is_some (view_of_group a (select_one (λ g. g.id == id) gs)) ≡ has_group id gs
    found [] = refl
    found (g ∷ gs) = ground (arith, found gs)

checked_users :
    (a : Accounts) (ids : List String) (x : String)
    → all (λ id. is_some (user_by_id a id)) ids ≡ true
    → one_of ids x ≡ true
    → has_user x a.users ≡ true
unfolding all one_of
checked_users a [] x h e = cc
checked_users a (id ∷ ids) x h e =
    ground (arith, h, e, found_user a id, eq_iff x id, checked_users a ids x)

all_members :
    (q : GroupMember → Bool) (group_id : String) (xs : List String)
    → ((x : String) → one_of xs x ≡ true → q (member_of group_id x) ≡ true)
    → all q (map (member_of group_id) xs) ≡ true
unfolding all one_of
all_members q group_id [] h = refl
all_members q group_id (x ∷ xs) h =
    let rest = all_members q group_id xs (λ y e. h y (ground (arith, e))) in
    ground (arith, h x, eq_refl x, rest)

module _ (order : List String → List String) (set : IsSetOrder order) where
  members_known :
      (group_id : String) (ids : List String) (a : Accounts)
      → IsSound a
      → has_group group_id a.user_groups ≡ true
      → all (λ id. is_some (user_by_id a id)) ids ≡ true
      → all (is_known a.users a.user_groups) (
          delete (λ m. m.group_id == group_id) a.user_group_members
          ++ map (member_of group_id) (order (distinct_ids ids)))
        ≡ true
  members_known group_id ids a h group users =
      let q = is_known a.users a.user_groups in
      all-append q _ _ (all-delete q (λ m. m.group_id == group_id) a.user_group_members h.members) (
        all_members q group_id (order (distinct_ids ids)) (λ x e. ground (
          arith,
          e,
          group,
          set (distinct_ids ids) x,
          one_of-distinct ids x,
          checked_users a ids x users,
        )))

  pub replace_members-LeavesSound :
      (group_id : String) (ids : List String) (a : Accounts)
      → IsSound a
      → LeavesSound (replace_user_group_members order group_id ids a)
  unfolding replace_user_group_members
  replace_members-LeavesSound group_id ids a h =
      LeavesSound-if (not (is_some (user_group_by_id a group_id))) (λ e. record { sound = h })
        (λ no_group.
          LeavesSound-if (not (all (λ id. is_some (user_by_id a id)) ids))
            (λ e. record { sound = h })
            (λ no_user. record {
              sound = record {
                user_ids = h.user_ids;
                usernames = h.usernames;
                admin = h.admin;
                group_ids = h.group_ids;
                group_names = h.group_names;
                members =
                    members_known group_id ids a h
                      (ground (arith, no_group, found_group a group_id)) (ground (arith, no_user));
              };
            }))

-- A group that stays is still found.
has_group-delete :
    (k id : String) (gs : List UserGroup)
    → (k == id) ≡ false
    → has_group k gs ≡ true
    → has_group k (delete (λ g. g.id == id) gs) ≡ true
unfolding any delete
has_group-delete k id [] h e = cc
has_group-delete k id (g ∷ gs) h e =
    ground (arith, h, e, has_group-delete k id gs, eq_iff g.id id, eq_iff g.id k, eq_iff k id)

without_group :
    (id : String) (us : List User) (gs : List UserGroup) (ms : List GroupMember)
    → any (λ m. m.group_id == id) ms ≡ false
    → all (is_known us gs) ms ≡ true
    → all (is_known us (delete (λ g. g.id == id) gs)) ms ≡ true
unfolding any all
without_group id us gs [] h k = refl
without_group id us gs (m ∷ ms) h k =
    ground (arith, h, k, has_group-delete m.group_id id gs, without_group id us gs ms)

pub delete_group-LeavesSound :
    (id : String) (a : Accounts) → IsSound a → LeavesSound (delete_user_group id a)
unfolding delete_user_group
delete_group-LeavesSound id a h =
    let p : UserGroup → Bool = λ g. g.id == id in
    let q : GroupMember → Bool = λ m. m.group_id == id in
    LeavesSound-if (ltb 0 (length (select q a.user_group_members))) (λ e. record { sound = h })
      (λ empty.
        LeavesSound-if (not (any p a.user_groups)) (λ e. record { sound = h })
          (λ e. record {
            sound = record {
              user_ids = h.user_ids;
              usernames = h.usernames;
              admin = h.admin;
              group_ids = all_distinct-delete (λ g. g.id) p a.user_groups h.group_ids;
              group_names = all_distinct-delete (λ g. g.name) p a.user_groups h.group_names;
              members =
                  without_group id a.users a.user_groups a.user_group_members
                    (ground (arith, empty, any-select q a.user_group_members)) h.members;
            };
          }))

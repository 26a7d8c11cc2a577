-- ===== src/Server/Users/Laws/Groups.antt =====
-- The operations on groups keep the invariant of the accounts.
use lightai_platform.Prelude.{
  String, ◌≡◌, refl, ◌∙◌, Bool, true, false, not, ◌&&◌, Option, none, some, List, [], ◌∷◌, ◌==◌,
  arith, map, any, all, eq_iff, Bool-cases, inl, inr, unwrap_or,
}
use lightai_platform.Prelude.Rows.{update, insert}
use lightai_platform.Prelude.Text.{one_of, all_distinct, trim}
use lightai_platform.Prelude.Text.Laws.{all_distinct-snoc}
use lightai_platform.Server.Sessions.{User, UserGroup, GroupMember, Accounts}
use lightai_platform.Server.Users.{validate_role}
use lightai_platform.Server.Users.Groups.{
  UserGroupCreateRequest, UserGroupUpdateRequest, create_user_group, update_user_group,
  group_clashes, updated_group, user_group_by_id, update_existing_group, validate_group_name,
  view_of_group,
}
use lightai_platform.Server.Users.Laws.{IsSound, has_group, is_known}
use lightai_platform.Server.Users.Laws.Sound.{LeavesSound, LeavesSound-if, LeavesSound-refuse_error}
use lightai_platform.Server.Users.Laws.Rows.{
  map-update, map-append, any-append, any-one_of, any-or-left, any-update_same,
}

-- Members stay known when no group goes.
groups_stay :
    (us : List User) (gs hs : List UserGroup) (ms : List GroupMember)
    → ((id : String) → has_group id gs ≡ true → has_group id hs ≡ true)
    → all (is_known us gs) ms ≡ true
    → all (is_known us hs) ms ≡ true
unfolding all
groups_stay us gs hs [] keeps h = refl
groups_stay us gs hs (m ∷ ms) keeps h =
    ground (arith, h, keeps m.group_id, groups_stay us gs hs ms keeps)

IsSound-insert_group :
    (g : UserGroup) (a : Accounts)
    → IsSound a
    → any (group_clashes g) a.user_groups ≡ false
    → IsSound (record a { user_groups = insert g a.user_groups })
IsSound-insert_group g a h new =
    let either = any-or-left (λ v. v.id == g.id) (λ v. v.name == g.name) a.user_groups in
    let ids = any-one_of (λ v. v.id) g.id a.user_groups in
    let names = any-one_of (λ v. v.name) g.name a.user_groups in
    record {
      user_ids = h.user_ids;
      usernames = h.usernames;
      admin = h.admin;
      group_ids = rw (map-append (λ v. v.id) a.user_groups (g ∷ [])) (
          all_distinct-snoc (map (λ v. v.id) a.user_groups) g.id h.group_ids
            (ground (arith, new, either, ids)));
      group_names = rw (map-append (λ v. v.name) a.user_groups (g ∷ [])) (
          all_distinct-snoc (map (λ v. v.name) a.user_groups) g.name h.group_names
            (ground (arith, new, either, names)));
      members =
          groups_stay a.users a.user_groups (insert g a.user_groups) a.user_group_members
            (λ id e. ground (arith, e, any-append (λ v. v.id == id) a.user_groups (g ∷ [])))
            h.members;
    }

pub create_group-LeavesSound :
    (id : String) (request : UserGroupCreateRequest) (a : Accounts)
    → IsSound a
    → LeavesSound (create_user_group id request a)
unfolding create_user_group
create_group-LeavesSound id request a h =
    let g : UserGroup = record {
      id = id;
      name = trim request.name;
      role = request.role;
      enabled = true;
    } in
    LeavesSound-refuse_error (validate_group_name request.name) a _ h (
      LeavesSound-if (not (validate_role request.role)) (λ e. record { sound = h })
        (λ e.
          LeavesSound-if (any (group_clashes g) a.user_groups) (λ e. record { sound = h })
            (λ e. record { sound = IsSound-insert_group g a h e })))

-- The name of one row may change to one that no other row has.
absent :
    (id k : String) (f : UserGroup → UserGroup) (gs : List UserGroup) (x : String)
    → ((g : UserGroup) → (f g).name ≡ k)
    → one_of (map (λ g. g.name) gs) x ≡ false
    → (x == k) ≡ false
    → one_of (map (λ g. g.name) (update (λ g. g.id == id) f gs)) x ≡ false
unfolding one_of update
absent id k f [] x named h other = refl
absent id k f (g ∷ gs) x named h other = ground (arith, h, other, named g, absent id k f gs x named)

unmatched :
    (id : String) (f : UserGroup → UserGroup) (gs : List UserGroup)
    → one_of (map (λ g. g.id) gs) id ≡ false
    → update (λ g. g.id == id) f gs ≡ gs
unfolding one_of update
unmatched id f [] h = refl
unmatched id f (g ∷ gs) h = ground (arith, h, unmatched id f gs, eq_iff g.id id, eq_iff id g.id)

free :
    (id k : String) (gs : List UserGroup)
    → one_of (map (λ g. g.id) gs) id ≡ false
    → any (λ g. not (g.id == id) && g.name == k) gs ≡ false
    → one_of (map (λ g. g.name) gs) k ≡ false
unfolding one_of any
free id k [] h e = refl
free id k (g ∷ gs) h e =
    ground
      (arith, h, e, free id k gs, eq_iff g.id id, eq_iff id g.id, eq_iff g.name k, eq_iff k g.name)

names-update :
    (id k : String) (f : UserGroup → UserGroup) (gs : List UserGroup)
    → ((g : UserGroup) → (f g).name ≡ k)
    → all_distinct (map (λ g. g.id) gs) ≡ true
    → all_distinct (map (λ g. g.name) gs) ≡ true
    → any (λ g. not (g.id == id) && g.name == k) gs ≡ false
    → all_distinct (map (λ g. g.name) (update (λ g. g.id == id) f gs)) ≡ true
unfolding all_distinct update any
names-update id k f [] named ids names new = refl
names-update id k f (g ∷ gs) named ids names new = elim (Bool-cases (g.id == id)) [
  | inl e ↦
      let same = (eq_iff g.id id).0 e in
      let out : one_of (map (λ g. g.id) gs) id ≡ false = ground (arith, same, ids) in
      ground (arith, e, names, named g, unmatched id f gs out, free id k gs out, new)
  | inr e ↦
      ground
        (arith, e, ids, names, new, names-update id k f gs named, absent id k f gs g.name named)
]

update_existing_group-LeavesSound :
    (id : String) (request : UserGroupUpdateRequest) (a : Accounts) (o : Option UserGroup)
    → IsSound a
    → LeavesSound (update_existing_group id request a (view_of_group a o))
update_existing_group-LeavesSound id request a none h = record { sound = h }
update_existing_group-LeavesSound id request a (some g) h =
    let name = unwrap_or request.name g.name in
    let role = unwrap_or request.role g.role in
    let enabled = unwrap_or request.enabled g.enabled in
    let f = updated_group name role enabled in
    let p : UserGroup → Bool = λ v. v.id == id in
    LeavesSound-refuse_error (validate_group_name name) a _ h (
      LeavesSound-if (not (validate_role role)) (λ e. record { sound = h })
        (λ e.
          LeavesSound-if (any (λ v. not (v.id == id) && v.name == trim name) a.user_groups)
            (λ e. record { sound = h })
            (λ e. record {
              sound = record {
                user_ids = h.user_ids;
                usernames = h.usernames;
                admin = h.admin;
                group_ids = rw (map-update (λ v. v.id) p f (λ v. refl) a.user_groups) h.group_ids;
                group_names =
                    names-update id (trim name) f a.user_groups (λ v. refl) h.group_ids
                      h.group_names e;
                members =
                    groups_stay a.users a.user_groups (update p f a.user_groups)
                      a.user_group_members
                      (λ k found.
                        any-update_same p (λ v. v.id == k) f (λ v. refl) a.user_groups ∙ found)
                      h.members;
              };
            })))

pub update_group-LeavesSound :
    (id : String) (request : UserGroupUpdateRequest) (a : Accounts)
    → IsSound a
    → LeavesSound (update_user_group id request a)
unfolding update_user_group user_group_by_id
update_group-LeavesSound id request a h = update_existing_group-LeavesSound id request a _ h

-- ===== src/Server/Users/Laws/Sound.antt =====
-- What the operations on the accounts of server/src/repository.rs share: an operation leaves the tables
-- sound, and so do an insert and an update of a user.
use lightai_platform.Prelude.{
  String, ◌≡◌, refl, ap, Bool, true, false, Option, none, some, List, [], ◌∷◌, ◌==◌, arith,
  if◌then◌else◌, map, any, all, ◌∙◌,
}
use lightai_platform.Prelude.Rows.{update, insert}
use lightai_platform.Prelude.Text.Laws.{all_distinct-snoc}
use lightai_platform.Server.Sessions.{User, UserSession, UserGroup, GroupMember, Accounts}
use lightai_platform.Server.Sessions.Password.{AccountError}
use lightai_platform.Server.Users.{Reply, clashes, is_admin, update_user_row, refuse_error}
use lightai_platform.Server.Users.Laws.{IsSound, has_user, is_known, has_admin}
use lightai_platform.Server.Users.Laws.Rows.{
  map-update, map-append, any-append, any-one_of, any-or-left, any-update_same,
}

-- The operation leaves sound tables.
pub record LeavesSound {A : Type 0} (x : A × Accounts) : Type 0 where
  pub sound : IsSound x.1

-- Both outcomes of a test do, each knowing how the test came out.
pub LeavesSound-if :
    {A : Type 0} (b : Bool) {x y : A × Accounts}
    → (b ≡ true → LeavesSound x)
    → (b ≡ false → LeavesSound y)
    → LeavesSound (if b then x else y)
LeavesSound-if true h k = h refl
LeavesSound-if false h k = k refl

pub LeavesSound-refuse_error :
    {A : Type 0} (e : Option AccountError) (a : Accounts) (x : Reply A × Accounts)
    → IsSound a
    → LeavesSound x
    → LeavesSound (refuse_error e a x)
LeavesSound-refuse_error none a x h k = k
LeavesSound-refuse_error (some e) a x h k = record { sound = h }

-- Members stay known when no user goes.
members_stay :
    (us vs : List User) (gs : List UserGroup) (ms : List GroupMember)
    → ((id : String) → has_user id us ≡ true → has_user id vs ≡ true)
    → all (is_known us gs) ms ≡ true
    → all (is_known vs gs) ms ≡ true
unfolding all
members_stay us vs gs [] keeps h = refl
members_stay us vs gs (m ∷ ms) keeps h =
    ground (arith, h, keeps m.user_id, members_stay us vs gs ms keeps)

-- Sessions do not matter to the invariant.
pub IsSound-sessions :
    (a : Accounts) (ss : List UserSession) → IsSound a → IsSound (record a { user_sessions = ss })
IsSound-sessions a ss h = record {
  user_ids = h.user_ids;
  usernames = h.usernames;
  admin = h.admin;
  group_ids = h.group_ids;
  group_names = h.group_names;
  members = h.members;
}

pub IsSound-insert :
    (u : User) (a : Accounts)
    → IsSound a
    → any (clashes u) a.users ≡ false
    → any is_admin (insert u a.users) ≡ true
    → IsSound (record a { users = insert u a.users })
IsSound-insert u a h new admin =
    let either = any-or-left (λ v. v.id == u.id) (λ v. v.username == u.username) a.users in
    let ids = any-one_of (λ v. v.id) u.id a.users in
    let names = any-one_of (λ v. v.username) u.username a.users in
    record {
      user_ids = rw (map-append (λ v. v.id) a.users (u ∷ [])) (
          all_distinct-snoc (map (λ v. v.id) a.users) u.id h.user_ids
            (ground (arith, new, either, ids)));
      usernames = rw (map-append (λ v. v.username) a.users (u ∷ [])) (
          all_distinct-snoc (map (λ v. v.username) a.users) u.username h.usernames
            (ground (arith, new, either, names)));
      admin = ground (arith, admin);
      group_ids = h.group_ids;
      group_names = h.group_names;
      members =
          members_stay a.users (insert u a.users) a.user_groups a.user_group_members
            (λ id e. ground (arith, e, any-append (λ v. v.id == id) a.users (u ∷ []))) h.members;
    }

-- An update of one user that keeps its id and its name.
pub IsSound-update :
    (id : String) (f : User → User) (a : Accounts)
    → IsSound a
    → ((u : User) → (f u).id ≡ u.id)
    → ((u : User) → (f u).username ≡ u.username)
    → has_admin (update (λ u. u.id == id) f a.users) ≡ true
    → IsSound (update_user_row id f a)
IsSound-update id f a h ids names admin = record {
  user_ids = rw (map-update (λ u. u.id) (λ u. u.id == id) f ids a.users) h.user_ids;
  usernames = rw (map-update (λ u. u.username) (λ u. u.id == id) f names a.users) h.usernames;
  admin = admin;
  group_ids = h.group_ids;
  group_names = h.group_names;
  members =
      members_stay a.users (update (λ u. u.id == id) f a.users) a.user_groups a.user_group_members
        (λ k e.
          any-update_same (λ u. u.id == id) (λ u. u.id == k) f (λ u. ap (λ t. t == k) (ids u))
            a.users
          ∙ e)
        h.members;
}

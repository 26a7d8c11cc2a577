-- ===== src/Server/Users/Laws/Users.antt =====
-- The operations on users keep the invariant of the accounts.
use lightai_platform.Prelude.{
  ℕ, String, ◌≡◌, refl, Bool, true, false, not, ◌&&◌, ◌||◌, Option, none, some, List, [], ◌∷◌, ◌==◌,
  arith, any, length, nat_eq, ltb, Bool-cases, inl, inr, unwrap_or, ◌∙◌,
}
use lightai_platform.Prelude.Rows.{update, insert, select_one}
use lightai_platform.Server.Sessions.{User, Accounts, Hashes, enrich_effective_role}
use lightai_platform.Server.Sessions.Password.{PasswordPolicy, validate_password}
use lightai_platform.Server.Users.{
  UserCreateRequest, UserUpdateRequest, user_by_id, insert_user, new_user, insert_hashed, clashes,
  is_admin, other_admins, update_user_row, after_update, setup_initial_admin,
  create_user_with_policy, update_hashed, write_user, update_existing, update_user_with_policy,
  updated_user, updated_with_password, validate_username, user_count, validate_role, role_accepted,
  password_accepted, view_of_user,
}
use lightai_platform.Server.Users.Laws.{IsSound, has_admin}
use lightai_platform.Server.Users.Laws.Rows.{
  any-append, any-update_other, any-update_hit, any-select, others_pass,
}
use lightai_platform.Server.Users.Laws.Sound.{
  LeavesSound, LeavesSound-if, LeavesSound-refuse_error, IsSound-sessions, IsSound-insert,
  IsSound-update,
}

found_not_empty :
    (p : User → Bool) (us : List User) (r : User)
    → select_one p us ≡ some r
    → nat_eq (length us) 0 ≡ false
unfolding select_one
found_not_empty p [] r h = cc
found_not_empty p (u ∷ us) r h = ground arith

-- An admin other than the user of an id.
abbrev other_admin : String → User → Bool
other_admin id u = not (u.id == id) && is_admin u

-- Unless the last admin would go, an update of a role leaves an admin.
other_admin_left :
    (id role : String) (enabled : Bool) (a : Accounts) (r : User)
    → IsSound a
    → select_one (λ u. u.id == id) a.users ≡ some r
    → (r.role == "admin" && (not enabled || not (role == "admin")) && nat_eq (other_admins id a) 0)
      ≡ false
    → role == "admin" && enabled ≡ false
    → any (other_admin id) a.users ≡ true
unfolding other_admins
other_admin_left id role enabled a r h found allowed e = elim (Bool-cases (r.role == "admin")) [
  | inl was ↦ ground (arith, was, allowed, e, any-select (other_admin id) a.users)
  | inr was ↦
      others_pass (λ u. u.id) id is_admin a.users r h.user_ids found (ground (arith, was))
        (ground (arith, h.admin, found_not_empty (λ u. u.id == id) a.users r found))
]

admin_left :
    (id role : String) (enabled : Bool) (f : User → User) (a : Accounts) (r : User)
    → IsSound a
    → ((u : User) → is_admin (f u) ≡ (role == "admin" && enabled))
    → select_one (λ u. u.id == id) a.users ≡ some r
    → (r.role == "admin" && (not enabled || not (role == "admin")) && nat_eq (other_admins id a) 0)
      ≡ false
    → has_admin (update (λ u. u.id == id) f a.users) ≡ true
admin_left id role enabled f a r h written found allowed =
    let p : User → Bool = λ u. u.id == id in
    elim (Bool-cases (role == "admin" && enabled)) [
      | inl e ↦
          let hit = any-update_hit p is_admin f (λ u. written u ∙ e) a.users r found in
          ground (arith, hit)
      | inr e ↦
          let left = other_admin_left id role enabled a r h found allowed e in
          let kept = any-update_other p is_admin f a.users left in ground (arith, kept)
    ]

after_update-LeavesSound :
    (now : ℕ) (id : String) (enabled : Bool) (a : Accounts)
    → IsSound a
    → LeavesSound (after_update now id enabled a)
after_update-LeavesSound now id true a h = record { sound = h }
after_update-LeavesSound now id false a h = record { sound = IsSound-sessions a _ h }

module _ (hashes : Hashes) where
  write_user-LeavesSound :
      (now : ℕ) (id role : String) (enabled : Bool) (password : Option String) (a : Accounts)
      (r : User)
      → IsSound a
      → select_one (λ u. u.id == id) a.users ≡ some r
      → (r.role == "admin"
          && (not enabled || not (role == "admin"))
          && nat_eq (other_admins id a) 0)
        ≡ false
      → LeavesSound (write_user hashes now id role enabled password a)
  write_user-LeavesSound now id role enabled none a r h found allowed =
      let f = updated_user now role enabled in
      after_update-LeavesSound now id enabled (update_user_row id f a) (
        IsSound-update id f a h (λ u. refl) (λ u. refl)
          (admin_left id role enabled f a r h (λ u. refl) found allowed))
  write_user-LeavesSound now id role enabled (some password) a r h found allowed =
      hashed_update-LeavesSound (hashes.hash_password password)
    where
      hashed_update-LeavesSound :
          (o : Option String) → LeavesSound (update_hashed hashes now id role enabled o a)
      hashed_update-LeavesSound none = record { sound = h }
      hashed_update-LeavesSound (some hash) =
          let f = updated_with_password now hash role enabled in
          after_update-LeavesSound now id enabled (update_user_row id f a) (
            IsSound-update id f a h (λ u. refl) (λ u. refl)
              (admin_left id role enabled f a r h (λ u. refl) found allowed))

  update_existing-LeavesSound :
      (now : ℕ) (id : String) (request : UserUpdateRequest) (a : Accounts) (o : Option User)
      → IsSound a
      → select_one (λ u. u.id == id) a.users ≡ o
      → LeavesSound (update_existing hashes now id request a (view_of_user a o))
  unfolding enrich_effective_role
  update_existing-LeavesSound now id request a none h found = record { sound = h }
  update_existing-LeavesSound now id request a (some r) h found =
      LeavesSound-if _ (λ e. record { sound = h })
        (λ e.
          write_user-LeavesSound now id (unwrap_or request.role r.role)
            (unwrap_or request.enabled r.enabled) request.password a r h found e)

  pub update_user-LeavesSound :
      (now : ℕ) (id : String) (request : UserUpdateRequest) (policy : PasswordPolicy) (a : Accounts)
      → IsSound a
      → LeavesSound (update_user_with_policy hashes now id request policy a)
  unfolding update_user_with_policy user_by_id
  update_user-LeavesSound now id request policy a h =
      LeavesSound-if (not (role_accepted request.role)) (λ e. record { sound = h })
        (λ e.
          LeavesSound-if (not (password_accepted request.password policy))
            (λ e. record { sound = h })
            (λ e. update_existing-LeavesSound now id request a _ h refl))

  insert_user-LeavesSound :
      (lost : String) (u : User) (a : Accounts)
      → IsSound a
      → any is_admin (insert u a.users) ≡ true
      → LeavesSound (insert_user lost u a)
  unfolding insert_user
  insert_user-LeavesSound lost u a h admin =
      LeavesSound-if (any (clashes u) a.users) (λ e. record { sound = h })
        (λ e. record { sound = IsSound-insert u a h e admin })

  insert_hashed-LeavesSound :
      (lost : String) (now : ℕ) (id username role : String) (o : Option String) (a : Accounts)
      → IsSound a
      → any is_admin a.users || role == "admin" ≡ true
      → LeavesSound (insert_hashed lost now id username role o a)
  unfolding any
  insert_hashed-LeavesSound lost now id username role none a h admin = record { sound = h }
  insert_hashed-LeavesSound lost now id username role (some hash) a h admin =
      let u = new_user now id username role hash in
      insert_user-LeavesSound lost u a h
        (ground (arith, admin, any-append is_admin a.users (u ∷ [])))

  pub setup-LeavesSound :
      (now : ℕ) (id username password : String) (policy : PasswordPolicy) (a : Accounts)
      → IsSound a
      → LeavesSound (setup_initial_admin hashes now id username password policy a)
  unfolding setup_initial_admin
  setup-LeavesSound now id username password policy a h =
      let answer = hashes.hash_password password in
      LeavesSound-refuse_error (validate_username username) a _ h (
        LeavesSound-if (not (validate_password password policy)) (λ e. record { sound = h })
          (λ e.
            LeavesSound-if (ltb 0 (user_count a)) (λ e. record { sound = h })
              (λ e. insert_hashed-LeavesSound _ now id username "admin" answer a h (ground arith))))

  -- A user is created where there is one already: the one that asks for it.
  pub create_user-LeavesSound :
      (now : ℕ) (id : String) (request : UserCreateRequest) (policy : PasswordPolicy) (a : Accounts)
      → IsSound a
      → ltb 0 (user_count a) ≡ true
      → LeavesSound (create_user_with_policy hashes now id request policy a)
  unfolding create_user_with_policy user_count
  create_user-LeavesSound now id request policy a h some_user =
      let answer = hashes.hash_password request.password in
      let admin : any is_admin a.users || request.role == "admin" ≡ true =
        ground (arith, h.admin, some_user) in
      LeavesSound-refuse_error (validate_username request.username) a _ h (
        LeavesSound-if (not (validate_password request.password policy)) (λ e. record { sound = h })
          (λ e.
            LeavesSound-if (not (validate_role request.role)) (λ e. record { sound = h })
              (λ e.
                insert_hashed-LeavesSound _ now id request.username request.role answer a h admin)))

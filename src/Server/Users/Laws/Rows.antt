-- ===== src/Server/Users/Laws/Rows.antt =====
-- Laws of the tables of users: rows by their id, and the rows that an update leaves.
use lightai_platform.Prelude.{
  String, ◌≡◌, refl, ap, Bool, true, false, not, ◌&&◌, ◌||◌, some, List, [], ◌∷◌, ◌++◌, ◌==◌, arith,
  map, any, length, eq_iff, ltb,
}
use lightai_platform.Prelude.Rows.{update, select, select_one, delete}
use lightai_platform.Prelude.Text.{one_of, all_distinct}

module _ {ℓ} {A : Type ℓ} where
  -- An update that keeps a column keeps the list of its values.
  pub map-update :
      (key : A → String) (p : A → Bool) (f : A → A)
      → ((x : A) → key (f x) ≡ key x)
      → (xs : List A) → map key (update p f xs) ≡ map key xs
  unfolding update
  map-update key p f h [] = refl
  map-update key p f h (x ∷ xs) = ground (arith, h x, map-update key p f h xs)

  pub map-append :
      (key : A → String) (xs ys : List A) → map key (xs ++ ys) ≡ map key xs ++ map key ys
  map-append key [] ys = refl
  map-append key (x ∷ xs) ys = ap (λ t. key x ∷ t) (map-append key xs ys)

  pub any-append : (q : A → Bool) (xs ys : List A) → any q (xs ++ ys) ≡ any q xs || any q ys
  unfolding any
  any-append q [] ys = refl
  any-append q (x ∷ xs) ys = ground (arith, any-append q xs ys)

  -- A condition that no row has in a column is found nowhere.
  pub any-one_of :
      (key : A → String) (k : String) (xs : List A)
      → any (λ x. key x == k) xs ≡ one_of (map key xs) k
  unfolding any one_of
  any-one_of key k [] = refl
  any-one_of key k (x ∷ xs) =
      ground (arith, any-one_of key k xs, eq_iff (key x) k, eq_iff k (key x))

  pub any-or-left : (p q : A → Bool) (xs : List A) → any (λ x. p x || q x) xs ≡ any p xs || any q xs
  unfolding any
  any-or-left p q [] = refl
  any-or-left p q (x ∷ xs) = ground (arith, any-or-left p q xs)

  -- A row that the update leaves alone is still there.
  pub any-update_other :
      (p q : A → Bool) (f : A → A) (xs : List A)
      → any (λ x. not (p x) && q x) xs ≡ true
      → any q (update p f xs) ≡ true
  unfolding any update
  any-update_other p q f [] h = cc
  any-update_other p q f (x ∷ xs) h = ground (arith, h, any-update_other p q f xs)

  -- A row that the update writes is there.
  pub any-update_hit :
      (p q : A → Bool) (f : A → A)
      → ((x : A) → q (f x) ≡ true)
      → (xs : List A) (r : A) → select_one p xs ≡ some r
      → any q (update p f xs) ≡ true
  unfolding any update select_one
  any-update_hit p q f h [] r e = cc
  any-update_hit p q f h (x ∷ xs) r e = ground (arith, h x, e, any-update_hit p q f h xs r)

  -- An update that keeps a test keeps whether some row passes it.
  pub any-update_same :
      (p q : A → Bool) (f : A → A)
      → ((x : A) → q (f x) ≡ q x)
      → (xs : List A) → any q (update p f xs) ≡ any q xs
  unfolding any update
  any-update_same p q f h [] = refl
  any-update_same p q f h (x ∷ xs) = ground (arith, h x, any-update_same p q f h xs)

  pub any-select : (p : A → Bool) (xs : List A) → ltb 0 (length (select p xs)) ≡ any p xs
  unfolding any select
  any-select p [] = refl
  any-select p (x ∷ xs) = ground (arith, any-select p xs)

  others-miss :
      (key : A → String) (k : String) (q : A → Bool) (xs : List A)
      → one_of (map key xs) k ≡ false
      → any q xs ≡ true
      → any (λ x. not (key x == k) && q x) xs ≡ true
  unfolding any one_of
  others-miss key k q [] h e = cc
  others-miss key k q (x ∷ xs) h e =
      ground (arith, h, e, others-miss key k q xs, eq_iff (key x) k, eq_iff k (key x))

  -- Where the keys are distinct and the row of a key fails a test, another row passes it.
  pub others_pass :
      (key : A → String) (k : String) (q : A → Bool) (xs : List A) (r : A)
      → all_distinct (map key xs) ≡ true
      → select_one (λ x. key x == k) xs ≡ some r
      → q r ≡ false
      → any q xs ≡ true
      → any (λ x. not (key x == k) && q x) xs ≡ true
  unfolding any all_distinct select_one
  others_pass key k q [] r d e n h = cc
  others_pass key k q (x ∷ xs) r d e n h =
      ground (arith, d, e, n, h, others_pass key k q xs r, others-miss key k q xs, eq_iff (key x) k)

  -- Distinct keys stay distinct when rows go.
  one_of-delete :
      (key : A → String) (p : A → Bool) (k : String) (xs : List A)
      → one_of (map key xs) k ≡ false
      → one_of (map key (delete p xs)) k ≡ false
  unfolding one_of delete
  one_of-delete key p k [] h = refl
  one_of-delete key p k (x ∷ xs) h = ground (arith, h, one_of-delete key p k xs)

  pub all_distinct-delete :
      (key : A → String) (p : A → Bool) (xs : List A)
      → all_distinct (map key xs) ≡ true
      → all_distinct (map key (delete p xs)) ≡ true
  unfolding all_distinct delete
  all_distinct-delete key p [] h = refl
  all_distinct-delete key p (x ∷ xs) h =
      ground (arith, h, all_distinct-delete key p xs, one_of-delete key p (key x) xs)

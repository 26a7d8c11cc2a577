-- ===== src/Server/Listings/Laws.antt =====
-- The order and the length of a list.
use lightai_platform.Prelude.{
  suc, ◌≡◌, refl, ap, ◌∙◌, Bool, true, false, ◌&&◌, List, [], ◌∷◌, map, length, arith, Bool-cases,
  inl, inr,
}
use lightai_platform.Prelude.Rows.{insert_by, sort_by}
use lightai_platform.Server.Tables.{Db}
use lightai_platform.Server.Exec.{ok}
use lightai_platform.Server.Trash.{ModelFileTrashView, model_file_trash_from_row}
use lightai_platform.Server.Listings.{newer, list_model_file_trash}

module _ {A : Type 0} (before : A → A → Bool) where
  -- each row may stand before the next
  abbrev heads : A → List A → Bool
  heads x [] = true
  heads x (y ∷ ys) = before x y

  abbrev pub is_sorted : List A → Bool
  is_sorted [] = true
  is_sorted (x ∷ xs) = heads x xs && is_sorted xs

  length-insert_by : (x : A) (xs : List A) → length (insert_by before x xs) ≡ suc (length xs)
  unfolding insert_by
  length-insert_by x [] = refl
  length-insert_by x (y ∷ ys) = ground (arith, length-insert_by x ys)

  pub length-sort_by : (xs : List A) → length (sort_by before xs) ≡ length xs
  unfolding sort_by
  length-sort_by [] = refl
  length-sort_by (x ∷ xs) = length-insert_by x (sort_by before xs) ∙ ap suc (length-sort_by xs)

  heads-insert_by :
      (z x : A) (xs : List A)
      → before z x ≡ true
      → heads z xs ≡ true
      → heads z (insert_by before x xs) ≡ true
  unfolding insert_by
  heads-insert_by z x [] h k = h
  heads-insert_by z x (y ∷ ys) h k = elim (Bool-cases (before x y)) [
    | inl e ↦ ground (arith, h, k, e)
    | inr e ↦ ground (arith, h, k, e)
  ]

  module _ (total : (x y : A) → before x y ≡ false → before y x ≡ true) where
    is_sorted-insert_by :
        (x : A) (xs : List A) → is_sorted xs ≡ true → is_sorted (insert_by before x xs) ≡ true
    unfolding insert_by
    is_sorted-insert_by x [] h = refl
    is_sorted-insert_by x (y ∷ ys) h = elim (Bool-cases (before x y)) [
      | inl e ↦ ground (arith, h, e)
      | inr e ↦ ground (arith, h, e, heads-insert_by y x ys (total x y e), is_sorted-insert_by x ys)
    ]

    pub is_sorted-sort_by : (xs : List A) → is_sorted (sort_by before xs) ≡ true
    unfolding sort_by
    is_sorted-sort_by [] = refl
    is_sorted-sort_by (x ∷ xs) = is_sorted-insert_by x (sort_by before xs) (is_sorted-sort_by xs)

length-map : {A B : Type 0} (f : A → B) (xs : List A) → length (map f xs) ≡ length xs
length-map f [] = refl
length-map f (x ∷ xs) = ap suc (length-map f xs)

-- The list of the trash has as many items as the table, the newest first.
pub trash_is_listed :
    (db : Db)
    → (items : List ModelFileTrashView) × (list_model_file_trash db ≡ (ok items, db))
      × (length items ≡ length db.model_file_trash)
      × (is_sorted newer items ≡ true)
unfolding list_model_file_trash
trash_is_listed db =
    let views = map (λ t. model_file_trash_from_row db t) db.model_file_trash in
    (
      sort_by newer views,
      refl,
      length-sort_by newer views
          ∙ length-map (λ t. model_file_trash_from_row db t) db.model_file_trash,
      is_sorted-sort_by newer (λ x y h. ground (arith, h)) views,
    )

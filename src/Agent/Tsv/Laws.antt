-- ===== src/Agent/Tsv/Laws.antt =====
-- What the parsers and the merge promise.
pub mod Keys
pub mod Merge
use lightai_platform.Prelude.{
  ℕ, String, ◌≡◌, refl, sym, subst, ap, ◌∙◌, ◌⊎◌, inl, inr, Bool, true, false, Option, none, some,
  List, [], ◌∷◌, ◌==◌, arith, Bool-cases,
}
use lightai_platform.Agent.Tsv.Cells.{
  Parsed, parsed, bailed, Reading, TsvResult, CollectorStatus, nothing_read, set_status,
  parse_status, status_row, read_row, read_rows, finish, has_status, column,
}

module _ {Item : Type 0} where
  set_status_same :
      (cols : List String) (o : Option CollectorStatus) (r s : Reading Item)
      → set_status cols o r ≡ parsed s
      → (s.items ≡ r.items) × (s.seen_keys ≡ r.seen_keys)
  set_status_same cols none r s h = cc
  set_status_same cols (some c) r s h = (ground (arith, h), ground (arith, h))

  status_row_same :
      (cols : List String) (r s : Reading Item)
      → status_row cols r ≡ parsed s
      → (s.items ≡ r.items) × (s.seen_keys ≡ r.seen_keys)
  unfolding status_row
  status_row_same cols r s h =
      set_status_same cols (parse_status (column 2 cols)) r s (ground (arith, h))

  module _ (kind : String) (item_row : List String → Reading Item → Reading Item) where
    -- A row that is read leaves the items and the keys as they were, or is a row of an item.
    read_row_cases :
        (cols : List String) (r s : Reading Item)
        → read_row kind item_row cols r ≡ parsed s
        → ((s.items ≡ r.items) × (s.seen_keys ≡ r.seen_keys)) ⊎ (s ≡ item_row cols r)
    unfolding read_row
    read_row_cases cols r s h = elim (Bool-cases (column 0 cols == "STATUS")) [
      | inl e ↦ inl (status_row_same cols r s (ground (arith, h, e)))
      | inr e ↦ elim (Bool-cases (column 0 cols == kind)) [
        | inl k ↦ inr (ground (arith, h, e, k))
        | inr k ↦ inl (ground (arith, h, e, k), ground (arith, h, e, k))
      ]
    ]

    module _ (P : List Item → List String → Type 0)
        (keeps : (cols : List String) (r : Reading Item)
          → P r.items r.seen_keys
          → P (item_row cols r).items (item_row cols r).seen_keys) where
      row_keeps :
          (cols : List String) (r s : Reading Item)
          → P r.items r.seen_keys
          → read_row kind item_row cols r ≡ parsed s
          → P s.items s.seen_keys
      row_keeps cols r s p h = elim (read_row_cases cols r s h) [
        | inl (items, keys) ↦
            subst (λ k. P s.items k) (sym keys) (subst (λ i. P i r.seen_keys) (sym items) p)
        | inr e ↦ subst {A = Reading Item} (λ x. P x.items x.seen_keys) (sym e) (keeps cols r p)
      ]

      next_keeps :
          (o : Parsed (Reading Item)) (rows : List (List String)) (s : Reading Item)
          → ((t : Reading Item) → o ≡ parsed t → P t.items t.seen_keys)
          → ((t : Reading Item)
              → P t.items t.seen_keys
              → read_rows kind item_row rows t ≡ parsed s
              → P s.items s.seen_keys)
          → elim o [ bailed e ↦ bailed e | parsed t ↦ read_rows kind item_row rows t ] ≡ parsed s
          → P s.items s.seen_keys
      next_keeps (bailed e) rows s p rest h = cc
      next_keeps (parsed t) rows s p rest h = rest t (p t refl) h

      pub read_rows_keep :
          (rows : List (List String)) (r s : Reading Item)
          → P r.items r.seen_keys
          → read_rows kind item_row rows r ≡ parsed s
          → P s.items s.seen_keys
      unfolding read_rows
      read_rows_keep [] r s p h =
          let same : r ≡ s = cc in subst {A = Reading Item} (λ x. P x.items x.seen_keys) same p
      read_rows_keep (cols ∷ rows) r s p h =
          next_keeps (read_row kind item_row cols r) rows s (λ t e. row_keeps cols r t p e)
            (λ t q k. read_rows_keep rows t s q k) h

      status_keeps :
          (r : Reading Item) (o : Option CollectorStatus) (d : TsvResult Item)
          → P r.items r.seen_keys
          → has_status r o ≡ parsed d
          → (keys : List String) × P d.items keys
      status_keeps r none d p h = cc
      status_keeps r (some c) d p h = (r.seen_keys, subst (λ i. P i r.seen_keys) (cc) p)

      finish_keeps :
          (o : Parsed (Reading Item)) (d : TsvResult Item)
          → ((s : Reading Item) → o ≡ parsed s → P s.items s.seen_keys)
          → finish o ≡ parsed d
          → (keys : List String) × P d.items keys
      unfolding finish
      finish_keeps (bailed e) d p h = cc
      finish_keeps (parsed r) d p h = status_keeps r r.status d (p r refl) h

      -- What holds before the loop, and what the rows of items keep, holds of a result.
      pub result_keeps :
          (rows : List (List String)) (d : TsvResult Item)
          → P [] []
          → finish (read_rows kind item_row rows nothing_read) ≡ parsed d
          → (keys : List String) × P d.items keys
      result_keeps rows d p h =
          finish_keeps (read_rows kind item_row rows nothing_read) d
            (λ s e. read_rows_keep rows nothing_read s p e) h

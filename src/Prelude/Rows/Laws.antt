-- ===== src/Prelude/Rows/Laws.antt =====
-- Laws of the statements on tables.
use lightai_platform.Prelude.{
  ℕ, ◌≤◌, ◌≡◌, refl, ap, Bool, true, false, ◌||◌, none, some, List, [], ◌∷◌, ◌++◌, arith,
  if◌then◌else◌, All, length, Bool-cases, inl, inr, All-mono, Option-cases,
}
use lightai_platform.Prelude.Rows.{select_one, update, select_first, select}

module _ {ℓ} {A : Type ℓ} where
  pub length-update : (p : A → Bool) (f : A → A) (rs : List A) → length (update p f rs) ≡ length rs
  unfolding update
  length-update p f [] = refl
  length-update p f (r ∷ rs) = omega (arith, length-update p f rs)

  -- An update whose rows all miss the condition changes nothing.
  pub update_none :
      (p : A → Bool) (f : A → A) (rs : List A) → All (λ r. p r ≡ false) rs → update p f rs ≡ rs
  unfolding update
  update_none p f [] h = refl
  update_none p f (r ∷ rs) h = ground (arith, h.0, update_none p f rs h.1)

  -- Two conditions that agree on the rows make the same update.
  pub update_ext :
      (p q : A → Bool) (f : A → A) (rs : List A)
      → All (λ r. p r ≡ q r) rs
      → update p f rs ≡ update q f rs
  unfolding update
  update_ext p q f [] h = refl
  update_ext p q f (r ∷ rs) h =
      rw h.0 (ap (λ t. (if q r then f r else r) ∷ t) (update_ext p q f rs h.1))

  -- An update after an update is one update, if the first leaves no row to the second.
  pub update-update :
      (p q : A → Bool) (f : A → A)
      → ((r : A) → q (f r) ≡ false)
      → (rs : List A) → update q f (update p f rs) ≡ update (λ r. p r || q r) f rs
  unfolding update
  update-update p q f h [] = refl
  update-update p q f h (r ∷ rs) = ground (arith, h r, update-update p q f h rs)

  -- What `select_one` finds satisfies the condition.
  pub select_one_sound :
      (p : A → Bool) (rs : List A) (r : A) → select_one p rs ≡ some r → p r ≡ true
  unfolding select_one
  select_one_sound p [] r h = cc
  select_one_sound p (x ∷ rs) r h = ground (arith, select_one_sound p rs r)

  -- A query by a condition that the update keeps finds the updated row.
  pub select_one-update :
      (p q : A → Bool) (f : A → A)
      → ((r : A) → p (f r) ≡ p r)
      → (rs : List A) (r : A) → select_one p rs ≡ some r
      → select_one p (update q f rs) ≡ some (if q r then f r else r)
  unfolding select_one update
  select_one-update p q f h [] r e = cc
  select_one-update p q f h (x ∷ rs) r e = ground (arith, h x, select_one-update p q f h rs r)

  -- An update of other rows does not matter to a query.
  pub select_one-update_other :
      (p q : A → Bool) (f : A → A)
      → ((r : A) → q r ≡ true → p r ≡ false)
      → ((r : A) → p (f r) ≡ p r)
      → (rs : List A) → select_one p (update q f rs) ≡ select_one p rs
  unfolding select_one update
  select_one-update_other p q f apart same [] = refl
  select_one-update_other p q f apart same (r ∷ rs) =
      ground (arith, apart r, same r, select_one-update_other p q f apart same rs)

  pub select_one-update-none :
      (p q : A → Bool) (f : A → A)
      → ((r : A) → p (f r) ≡ p r)
      → (rs : List A) → select_one p rs ≡ none
      → select_one p (update q f rs) ≡ none
  unfolding select_one update
  select_one-update-none p q f h [] e = refl
  select_one-update-none p q f h (x ∷ rs) e = ground (arith, h x, select_one-update-none p q f h rs)

  -- The first row by a key satisfies the condition, and no row that does has a smaller key.

  pub select_first-none :
      (p : A → Bool) (key : A → ℕ) (rs : List A)
      → select_first p key rs ≡ none
      → All (λ x. p x ≡ false) rs
  unfolding select_first
  select_first-none p key [] h = tt
  select_first-none p key (x ∷ rs) h = ground (arith, select_first-none p key rs)

module _ {ℓ} {A : Type ℓ} (p : A → Bool) (key : A → ℕ) where
  abbrev pub Least : A → List A → Type 0
  Least r rs = All (λ x. p x ≡ true → key r ≤ key x) rs

  Least-of_none : (r : A) (rs : List A) → All (λ x. p x ≡ false) rs → Least r rs
  Least-of_none r = All-mono _ _ (λ x h e. cc)

  Least-of_le : (r s : A) (rs : List A) → key r ≤ key s → Least s rs → Least r rs
  Least-of_le r s rs h = All-mono _ _ (λ x k e. omega (arith, k e)) rs

  -- The first row by a key satisfies the condition, and no row that does has a smaller key.
  pub select_first_sound :
      (rs : List A) (r : A) → select_first p key rs ≡ some r → (p r ≡ true) × Least r rs
  unfolding select_first
  select_first_sound [] r h = cc
  select_first_sound (x ∷ rs) r h = elim (Bool-cases (p x)) [
    | inr miss ↦
        let (hit, least) = select_first_sound rs r (rw miss at h) in (hit, ((λ e. cc), least))
    | inl hit ↦ elim (Option-cases (select_first p key rs)) [
      | inl e ↦ ground (arith, Least-of_none r rs (select_first-none p key rs e))
      | inr (s, e) ↦ ground (arith, select_first_sound rs s e, Least-of_le x s rs)
    ]
  ]

-- A property of the rows that the update keeps where its condition holds.
pub All-update {ℓ κ} :
    {A : Type ℓ} (P : A → Type κ) (p : A → Bool) (f : A → A)
    → ((r : A) → p r ≡ true → P r → P (f r))
    → (rs : List A) → All P rs
    → All P (update p f rs)
unfolding update
All-update P p f k [] h = tt
All-update P p f k (r ∷ rs) h = (ground (arith, h.0, k r), All-update P p f k rs h.1)

pub All-append {ℓ κ} :
    {A : Type ℓ} (P : A → Type κ) (xs ys : List A) → All P xs → All P ys → All P (xs ++ ys)
All-append P [] ys h k = k
All-append P (x ∷ xs) ys h k = (h.0, All-append P xs ys h.1 k)

-- What holds of the rows that satisfy a condition holds of the rows that it selects.
pub All-select {ℓ κ} :
    {A : Type ℓ} (P : A → Type κ) (p : A → Bool) (rs : List A)
    → All (λ r. p r ≡ true → P r) rs
    → All P (select p rs)
unfolding select
All-select P p [] h = tt
All-select P p (r ∷ rs) h = elim (Bool-cases (p r)) [
  | inl e ↦ rw e (h.0 e, All-select P p rs h.1)
  | inr e ↦ rw e (All-select P p rs h.1)
]

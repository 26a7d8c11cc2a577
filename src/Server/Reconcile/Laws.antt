-- ===== src/Server/Reconcile/Laws.antt =====
-- What a heartbeat leaves of the instances of its node.
use lightai_platform.Prelude.{
  ℕ, String, Bool, true, false, ◌≡◌, ◌&&◌, ◌||◌, List, [], ◌∷◌, ◌==◌, map, All, All-mono, arith,
  eq_refl, eq_iff, if◌then◌else◌, Bool-cases, inl, inr,
}
use lightai_platform.Prelude.Rows.{select, update}
use lightai_platform.Prelude.Rows.Laws.{All-select}
use lightai_platform.Server.Tables.{Db, Instance, instance_is, Runtime}
use lightai_platform.Server.Reconcile.{
  ManagedInstanceReport, is_managed, is_active, is_reported, lost, fail_missing,
  reconcile_managed_instances, apply_reports,
}

-- one of the ids
abbrev among : List String → String → Bool
among [] id = false
among (x ∷ xs) id = id == x || among xs id

module _ (runtimes : List Runtime) (node_id : String) (now : ℕ)
    (reports : List ManagedInstanceReport) where
  -- a managed row that is active is reported, or one of the ids that are still to be looked at
  abbrev Accounted : List String → Instance → Type 0
  Accounted ids i =
      is_managed runtimes node_id i && is_active i.status ≡ true
      → is_reported reports i.id || among ids i.id ≡ true

  Accounted-more :
      (id : String) (ids : List String) (i : Instance) → Accounted ids i → Accounted (id ∷ ids) i
  Accounted-more id ids i h active = ground (arith, h active)

  Accounted-head :
      (i : Instance) (rows : List Instance)
      → Accounted
          (map
            (λ x. x.id)
            (select (λ x. is_managed runtimes node_id x && is_active x.status) (i ∷ rows)))
          i
  unfolding select
  Accounted-head i rows active = rw active (ground (arith, eq_refl i.id))

  Accounted-tail :
      (i x : Instance) (rows : List Instance)
      → Accounted
          (map (λ y. y.id) (select (λ y. is_managed runtimes node_id y && is_active y.status) rows))
          x
      → Accounted
          (map
            (λ y. y.id)
            (select (λ y. is_managed runtimes node_id y && is_active y.status) (i ∷ rows)))
          x
  unfolding select
  Accounted-tail i x rows h =
      elim (Bool-cases (is_managed runtimes node_id i && is_active i.status)) [
        | inl e ↦ rw e (Accounted-more i.id _ x h)
        | inr e ↦ rw e h
      ]

  Accounted-select :
      (rows : List Instance)
      → All
          (Accounted (
            map
              (λ i. i.id)
              (select (λ i. is_managed runtimes node_id i && is_active i.status) rows)))
          rows
  unfolding select
  Accounted-select [] = tt
  Accounted-select (i ∷ rows) = (
    Accounted-head i rows,
    All-mono _ _ (λ x h. Accounted-tail i x rows h) rows (Accounted-select rows),
  )

  Accounted-reported :
      (id : String) (ids : List String) (i : Instance)
      → is_reported reports id ≡ true
      → Accounted (id ∷ ids) i
      → Accounted ids i
  Accounted-reported id ids i seen h active = ground (arith, h active, eq_iff i.id id)

  lost_row : (ids : List String) (i : Instance) → Accounted ids (lost now i)
  lost_row ids i active = ground arith

  kept_row :
      (id : String) (ids : List String) (i : Instance)
      → instance_is id i ≡ false
      → Accounted (id ∷ ids) i
      → Accounted ids i
  kept_row id ids i e h active = ground (arith, h active)

  Accounted-row :
      (id : String) (ids : List String) (i : Instance)
      → Accounted (id ∷ ids) i
      → Accounted ids (if instance_is id i then lost now i else i)
  Accounted-row id ids i h = elim (Bool-cases (instance_is id i)) [
    | inl e ↦ rw e (lost_row ids i)
    | inr e ↦ rw e (kept_row id ids i e h)
  ]

  Accounted-lost :
      (id : String) (ids : List String) (rows : List Instance)
      → All (Accounted (id ∷ ids)) rows
      → All (Accounted ids) (update (instance_is id) (lost now) rows)
  unfolding update
  Accounted-lost id ids [] h = tt
  Accounted-lost id ids (i ∷ rows) h = (Accounted-row id ids i h.0, Accounted-lost id ids rows h.1)

  fail_missing_sound :
      (ids : List String) (rows : List Instance)
      → All (Accounted ids) rows
      → All (Accounted []) (fail_missing now reports ids rows)
  unfolding fail_missing
  fail_missing_sound [] rows h = h
  fail_missing_sound (id ∷ ids) rows h = elim (Bool-cases (is_reported reports id)) [
    | inl seen ↦ rw seen (
        fail_missing_sound ids rows
          (All-mono _ _ (λ i k. Accounted-reported id ids i seen k) rows h))
    | inr seen ↦ rw seen (fail_missing_sound ids _ (Accounted-lost id ids rows h))
  ]

-- After a heartbeat no instance of its node only seems to run: every local instance of the node that
-- is starting, running or stopping then, and whose backend is not Ollama, is one that the agent
-- reported.
pub reconcile_no_phantom :
    (node_id : String) (reports : List ManagedInstanceReport) (now : ℕ) (db : Db)
    → All
        (λ i. is_reported reports i.id ≡ true)
        (select
          (λ i. is_managed db.runtime_environments node_id i && is_active i.status)
          (reconcile_managed_instances node_id reports now db).model_instances)
unfolding reconcile_managed_instances
reconcile_no_phantom node_id reports now db =
    let runtimes = db.runtime_environments in
    let rows = apply_reports now node_id reports db.model_instances in
    All-select _ _ _ (
      All-mono _ _ (λ i h active. ground (arith, h active)) _
        (fail_missing_sound runtimes node_id now reports _ rows
          (Accounted-select runtimes node_id now reports rows)))

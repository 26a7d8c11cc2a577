-- ===== src/Server/Instances/Edit/Laws.antt =====
-- What an edit or a deletion of an instance may do.
use lightai_platform.Prelude.{
  ℕ, String, ◌≡◌, refl, ◌∙◌, sym, subst, if◌then◌else◌, true, false, Option, some, List, [], ◌∷◌,
  ◌==◌, any, is_some, arith, Bool-cases, ◌⊎◌, inl, inr,
}
use lightai_platform.Prelude.Rows.{select_one}
use lightai_platform.Prelude.Text.{one_of}
use lightai_platform.Server.Serde.{Serde}
use lightai_platform.Server.Tables.{Db, Instance, instance_is}
use lightai_platform.Server.Exec.{err, conflict, after}
use lightai_platform.Server.Exec.Effects.{Keeps-if}
use lightai_platform.Server.InstanceView.{model_instance_from_row}
use lightai_platform.Server.InstanceView.Laws.{model_instance_found}
use lightai_platform.Server.Instances.Params.{Http}
use lightai_platform.Server.Instances.Edit.{
  ModelInstanceUpdateRequest, is_live, is_config_change, edit_local, edit_external,
  update_model_instance, delete_model_instance,
}
use lightai_platform.Server.Instances.Edit.Kept.{
  ConfigKept, SameConfig-refl, edit_local-Keeps, edit_external-Keeps,
}

-- what a request may set of the configuration
abbrev pub config_fields : ModelInstanceUpdateRequest → List (Option String)
config_fields r =
    r.name ∷ r.backend ∷ r.base_url ∷ r.endpoint_url ∷ r.health_url ∷ r.runtime_version
    ∷ r.model_name ∷ r.params_json ∷ []

live_view :
    (now : ℕ) (db : Db) (i : Instance) → (model_instance_from_row now db i).status ≡ i.status
unfolding model_instance_from_row
live_view now db i = refl

abbrev pub live_statuses : List String
live_statuses = "running" ∷ "starting" ∷ "stopping" ∷ []

listed_is_live : (status : String) → one_of live_statuses status ≡ true → is_live status ≡ true
unfolding one_of
listed_is_live status h = ground (arith, h)

config_fields_given :
    (r : ModelInstanceUpdateRequest) → any is_some (config_fields r) ≡ is_config_change r
unfolding any is_config_change
config_fields_given r = ground arith

module _ (now : ℕ) (id : String) (db : Db) (i : Instance)
    (stored : select_one (instance_is id) db.model_instances ≡ some i)
    (live : is_live i.status ≡ true) where
  update_refused :
      (js : Serde) (http : Http) (request : ModelInstanceUpdateRequest)
      → is_config_change request ≡ true
      → update_model_instance js http now id request db
        ≡ (err (conflict "Cannot modify a running instance. Stop it first."), db)
  unfolding update_model_instance
  update_refused js http request change =
      let found = model_instance_found now id db i stored in
      let view = live_view now db i in ground arith

  update_passed :
      (js : Serde) (http : Http) (request : ModelInstanceUpdateRequest)
      → is_config_change request ≡ false
      → let v = model_instance_from_row now db i in
        update_model_instance js http now id request db
        ≡ (if v.deploy_type == "local"
              then edit_local js now id request v
              else edit_external js http now id request v)
            db
  unfolding update_model_instance
  update_passed js http request unset =
      let found = model_instance_found now id db i stored in ground (arith, unset)

  update_kept :
      (js : Serde) (http : Http) (request : ModelInstanceUpdateRequest)
      → is_config_change request ≡ false
      → ConfigKept id i (after (update_model_instance js http now id request) db)
  update_kept js http request unset =
      let v = model_instance_from_row now db i in
      let start : ConfigKept id i db = record {
        row = i;
        found = stored;
        same = SameConfig-refl i;
      } in
      let edited =
        Keeps-if (ConfigKept id i) (v.deploy_type == "local") (edit_local js now id request v)
          (edit_external js http now id request v) (edit_local-Keeps now id request db i unset js)
          (edit_external-Keeps now id request db i unset js http) in
      subst (λ x. ConfigKept id i x.1) (sym (update_passed js http request unset))
        (edited.at db start)

  delete_refused :
      delete_model_instance now id db
      ≡ (err (conflict "Cannot delete a running instance. Stop it first."), db)
  unfolding delete_model_instance
  delete_refused =
      let found = model_instance_found now id db i stored in
      let view = live_view now db i in ground arith

-- An instance that is running, starting or stopping can be neither reconfigured nor deleted. A request
-- that sets its name, backend, URLs, version, name of the model or parameters is refused and changes
-- nothing; after any edit its row has the configuration that it had; a deletion is refused and changes
-- nothing.
pub live_is_protected :
    (js : Serde) (http : Http) (now : ℕ) (id : String) (request : ModelInstanceUpdateRequest)
    (db : Db) (i : Instance)
    → select_one (instance_is id) db.model_instances ≡ some i
    → one_of live_statuses i.status ≡ true
    → ((any is_some (config_fields request) ≡ false)
        ⊎ (update_model_instance js http now id request db
            ≡ (err (conflict "Cannot modify a running instance. Stop it first."), db)))
      × ConfigKept id i (after (update_model_instance js http now id request) db)
      × (delete_model_instance now id db
          ≡ (err (conflict "Cannot delete a running instance. Stop it first."), db))
live_is_protected js http now id request db i stored listed =
    let live = listed_is_live i.status listed in
    let given = config_fields_given request in
    let kept : ConfigKept id i db = record { row = i; found = stored; same = SameConfig-refl i } in
    elim (Bool-cases (is_config_change request)) [
      | inl change ↦
          let refused = update_refused now id db i stored live js http request change in
          (
            inr refused,
            subst (λ x. ConfigKept id i x.1) (sym refused) kept,
            delete_refused now id db i stored live,
          )
      | inr unset ↦ (
        inl (given ∙ unset),
        update_kept now id db i stored live js http request unset,
        delete_refused now id db i stored live,
      )
    ]

-- ===== src/Server/Instances/Edit/Kept.antt =====
-- The edits of an instance that leave its configuration as it was (`update_model_instance` of
-- server/src/domain/instances.rs).
use lightai_platform.Prelude.{
  ℕ, String, ◌≡◌, refl, false, Option, none, some, is_some, arith, unwrap_or, or_else, Bool-cases,
  inl, inr,
}
use lightai_platform.Prelude.Rows.{select_one}
use lightai_platform.Prelude.Rows.Laws.{select_one-update}
use lightai_platform.Server.Serde.{Serde}
use lightai_platform.Server.Tables.{Db, Instance, instance_is}
use lightai_platform.Server.Exec.{Exec, ◌>>◌, modify}
use lightai_platform.Server.Exec.Effects.{
  ReadOnly, Keeps, Keeps-modify, Keeps-bind, Keeps-read, reads,
}
use lightai_platform.Server.Support.Laws.{
  validate_non_empty-ReadOnly, validate_json_field-ReadOnly, validate_backend-ReadOnly,
}
use lightai_platform.Server.InstanceView.{model_instance, model_instance_from_row, update_instance}
use lightai_platform.Server.InstanceView.Laws.{model_instance-ReadOnly}
use lightai_platform.Server.Instances.Params.{
  Http, validate_http_url, validate_instance_status, validate_optional_non_empty,
  validate_base_url_required, validate_instance_urls,
}
use lightai_platform.Server.Instances.Edit.{
  ModelInstanceUpdateRequest, is_config_change, check_backend, edited_local, edited_external,
  edit_local, edit_external,
}

-- the second row has the configuration of the first
pub record SameConfig (i j : Instance) : Type 0 where
  pub name : j.name ≡ i.name
  pub backend : j.backend ≡ i.backend
  pub base_url : j.base_url ≡ i.base_url
  pub endpoint_url : j.endpoint_url ≡ i.endpoint_url
  pub health_url : j.health_url ≡ i.health_url
  pub runtime_version : j.runtime_version ≡ i.runtime_version
  pub model_name : j.model_name ≡ i.model_name
  pub params_json : j.params_json ≡ i.params_json

pub SameConfig-refl : (i : Instance) → SameConfig i i
SameConfig-refl i = record {
  name = refl;
  backend = refl;
  base_url = refl;
  endpoint_url = refl;
  health_url = refl;
  runtime_version = refl;
  model_name = refl;
  params_json = refl;
}

-- The row of an id has the configuration that it had.
pub record ConfigKept (id : String) (i : Instance) (db : Db) : Type 0 where
  pub row : Instance
  pub found : select_one (instance_is id) db.model_instances ≡ some row
  pub same : SameConfig i row

ConfigKept-update :
    (id : String) (i : Instance) (f : Instance → Instance)
    → ((j : Instance) → instance_is id (f j) ≡ instance_is id j)
    → ((j : Instance) → SameConfig i j → SameConfig i (f j))
    → (db : Db) → ConfigKept id i db
    → ConfigKept id i (update_instance id f db)
ConfigKept-update id i f same keep db h =
    let there =
      select_one-update (instance_is id) (instance_is id) f same db.model_instances h.row h.found in
    elim (Bool-cases (instance_is id h.row)) [
      | inl e ↦ record { row = f h.row; found = rw e at there; same = keep h.row h.same }
      | inr e ↦ record { row = h.row; found = rw e at there; same = h.same }
    ]

unset_keeps : {A : Type 0} (o : Option A) (x : A) → is_some o ≡ false → unwrap_or o x ≡ x
unset_keeps none x h = refl
unset_keeps (some y) x h = cc

unset_or_keeps : {A : Type 0} (o x : Option A) → is_some o ≡ false → or_else o x ≡ x
unset_or_keeps none x h = refl
unset_or_keeps (some y) x h = cc

kept_edit :
    (now : ℕ) (id : String) (i : Instance) (f : Instance → Instance)
    → ((j : Instance) → instance_is id (f j) ≡ instance_is id j)
    → ((j : Instance) → SameConfig i j → SameConfig i (f j))
    → Keeps (ConfigKept id i) (modify (update_instance id f) >> model_instance now id)
kept_edit now id i f same keep =
    Keeps-bind (ConfigKept id i) (modify _) (λ _. model_instance now id)
      (Keeps-modify (ConfigKept id i) _ (ConfigKept-update id i f same keep))
      (λ _. Keeps-read _ _ (model_instance-ReadOnly now id))

kept_after :
    (id : String) (i : Instance) (m : Exec Unit) {A : Type 0} (k : Exec A)
    → ReadOnly m
    → Keeps (ConfigKept id i) k
    → Keeps (ConfigKept id i) (m >> k)
kept_after id i m k reading h =
    Keeps-bind (ConfigKept id i) m (λ _. k) (Keeps-read _ m reading) (λ _. h)

check_backend-ReadOnly : (o : Option String) → ReadOnly (check_backend o)
check_backend-ReadOnly none = search reads
check_backend-ReadOnly (some backend) = search (reads, validate_backend-ReadOnly)

status-ReadOnly : (status : String) → ReadOnly (validate_instance_status status)
unfolding validate_instance_status
status-ReadOnly status = search reads

optional-ReadOnly :
    (field : String) (o : Option String) → ReadOnly (validate_optional_non_empty field o)
unfolding validate_optional_non_empty
optional-ReadOnly field o = search reads

base_url-ReadOnly : (o : Option String) → ReadOnly (validate_base_url_required o)
unfolding validate_base_url_required
base_url-ReadOnly o = search reads

url-ReadOnly :
    (http : Http) (field : String) (o : Option String) → ReadOnly (validate_http_url http field o)
unfolding validate_http_url
url-ReadOnly http field none = search reads
url-ReadOnly http field (some value) = search reads depth 20

urls-ReadOnly : (http : Http) (a b c : Option String) → ReadOnly (validate_instance_urls http a b c)
unfolding validate_instance_urls
urls-ReadOnly http a b c = search (reads, url-ReadOnly) depth 20

module _ (now : ℕ) (id : String) (r : ModelInstanceUpdateRequest) (db : Db) (i : Instance)
    (unset : is_config_change r ≡ false) where
  SameConfig-local :
      (j : Instance)
      → SameConfig i j
      → SameConfig i (edited_local now r (model_instance_from_row now db i) j)
  unfolding is_config_change model_instance_from_row
  SameConfig-local j h = record {
    name = unset_keeps r.name i.name (ground (arith, unset));
    backend = h.backend;
    base_url = h.base_url;
    endpoint_url = h.endpoint_url;
    health_url = h.health_url;
    runtime_version = h.runtime_version;
    model_name = h.model_name;
    params_json = unset_or_keeps r.params_json i.params_json (ground (arith, unset));
  }

  SameConfig-external :
      (j : Instance)
      → SameConfig i j
      → SameConfig i (edited_external now r (model_instance_from_row now db i) j)
  unfolding is_config_change model_instance_from_row
  SameConfig-external j h =
      let no_backend : r.backend ≡ none = ground (arith, unset) in
      record {
        name = unset_keeps r.name i.name (ground (arith, unset));
        backend = rw no_backend refl;
        base_url = unset_or_keeps r.base_url i.base_url (ground (arith, unset));
        endpoint_url = unset_or_keeps r.endpoint_url i.endpoint_url (ground (arith, unset));
        health_url = unset_or_keeps r.health_url i.health_url (ground (arith, unset));
        runtime_version =
            unset_or_keeps r.runtime_version i.runtime_version (ground (arith, unset));
        model_name = unset_or_keeps r.model_name i.model_name (ground (arith, unset));
        params_json = unset_or_keeps r.params_json i.params_json (ground (arith, unset));
      }

  pub edit_local-Keeps :
      (js : Serde)
      → Keeps (ConfigKept id i) (edit_local js now id r (model_instance_from_row now db i))
  unfolding edit_local
  edit_local-Keeps js =
      let v = model_instance_from_row now db i in
      let kept = kept_edit now id i (edited_local now r v) (λ j. refl) SameConfig-local in
      kept_after id i _ _ (validate_non_empty-ReadOnly _ _)
        (kept_after id i _ _ (validate_json_field-ReadOnly js _ _) kept)

  pub edit_external-Keeps :
      (js : Serde) (http : Http)
      → Keeps (ConfigKept id i) (edit_external js http now id r (model_instance_from_row now db i))
  unfolding edit_external
  edit_external-Keeps js http =
      let v = model_instance_from_row now db i in
      let kept = kept_edit now id i (edited_external now r v) (λ j. refl) SameConfig-external in
      let after_urls =
        kept_after id i _ _ (urls-ReadOnly http r.base_url r.endpoint_url r.health_url)
          (kept_after id i _ _ (validate_json_field-ReadOnly js _ _) kept) in
      let after_backend = kept_after id i _ _ (base_url-ReadOnly (or_else r.base_url v.base_url)) (
        kept_after id i _ _ (optional-ReadOnly "model_name" (or_else r.model_name v.model_name))
          after_urls) in
      kept_after id i _ _ (validate_non_empty-ReadOnly _ _) (
        kept_after id i _ _ (status-ReadOnly _)
          (kept_after id i _ _ (check_backend-ReadOnly r.backend) after_backend))

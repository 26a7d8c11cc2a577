-- ===== src/Agent/Tsv/Laws/Merge.antt =====
-- The GPUs that a merge reports.
use lightai_platform.Prelude.{
  String, ◌≡◌, refl, sym, subst, ap, ap₂, ◌∙◌, ◌&&◌, ◌||◌, not, Bool, true, false, Option, none,
  some, List, [], ◌∷◌, ◌++◌, ◌==◌, map, arith, Bool-cases, inl, inr, eq_iff,
}
use lightai_platform.Prelude.Text.{one_of, all_distinct}
use lightai_platform.Prelude.Text.Laws.{one_of-append, all_distinct-append}
use lightai_platform.Prelude.Rows.{select, select_one}
use lightai_platform.Prelude.Rows.Laws.{select_one_sound}
use lightai_platform.Agent.Tsv.Cells.{parsed, TsvResult}
use lightai_platform.Agent.Tsv.Number.{Floats}
use lightai_platform.Agent.Tsv.Discovery.{DiscoveryDevice, parse_discovery}
use lightai_platform.Agent.Tsv.Metrics.{MetricSample, parse_metrics}
use lightai_platform.Agent.Tsv.Merge.{
  GpuMetrics, metric_of, device_gpu, sample_gpu, add_key, matched_metric_keys, metrics_only,
  merge_into_gpu_metrics,
}
use lightai_platform.Agent.Tsv.Laws.Keys.{discovery_keys, metrics_keys}

module _ {A : Type 0} (key : A → String) where
  -- Of the rows whose key passes a test, the keys are those that pass it.
  select_keys :
      (p : String → Bool) (k : String) (rows : List A)
      → one_of (map key (select (λ r. p (key r)) rows)) k ≡ one_of (map key rows) k && p k
  unfolding select one_of
  select_keys p k [] = refl
  select_keys p k (r ∷ rows) = elim (Bool-cases (k == key r)) [
    | inl e ↦ ground (arith, e, select_keys p k rows, ap p ((eq_iff k (key r)).0 e))
    | inr e ↦ ground (arith, e, select_keys p k rows)
  ]

  select-all_distinct :
      (p : String → Bool) (rows : List A)
      → all_distinct (map key rows) ≡ true
      → all_distinct (map key (select (λ r. p (key r)) rows)) ≡ true
  unfolding select all_distinct
  select-all_distinct p [] h = h
  select-all_distinct p (r ∷ rows) h =
      ground (arith, h, select-all_distinct p rows (ground (arith, h)), select_keys p (key r) rows)

  map_keys : {B : Type 0} (f : B → A) (bs : List B) → map key (map f bs) ≡ map (λ b. key (f b)) bs
  map_keys f [] = refl
  map_keys f (b ∷ bs) = ap (λ ks. key (f b) ∷ ks) (map_keys f bs)

  map_append : (xs ys : List A) → map key (xs ++ ys) ≡ map key xs ++ map key ys
  map_append [] ys = refl
  map_append (x ∷ xs) ys = ap (λ ks. key x ∷ ks) (map_append xs ys)

  none_key :
      (x : String) (rows : List A)
      → select_one (λ r. key r == x) rows ≡ none
      → one_of (map key rows) x ≡ false
  unfolding select_one one_of
  none_key x [] h = refl
  none_key x (r ∷ rows) h = ground (arith, h, none_key x rows, eq_iff (key r) x, eq_iff x (key r))

module _ (fl : Floats) where
  abbrev pub device_keys : List DiscoveryDevice → List String
  device_keys ds = map (λ d. d.device_key) ds

  abbrev pub sample_keys : List (MetricSample fl.F64) → List String
  sample_keys ms = map (λ m. m.device_key) ms

  add_key_step :
      (o : Option (MetricSample fl.F64)) (ms : List (MetricSample fl.F64)) (x k : String)
      (keys : List String)
      → metric_of fl ms x ≡ o
      → one_of (sample_keys ms) k ≡ true
      → one_of (add_key fl o keys) k ≡ k == x || one_of keys k
  unfolding metric_of one_of
  add_key_step none ms x k keys e h =
      let missing = none_key (λ m. m.device_key) x ms e in
      elim (Bool-cases (k == x)) [
        | inl same ↦ ground (arith, missing, h, ap (one_of (sample_keys ms)) ((eq_iff k x).0 same))
        | inr other ↦ ground (arith, other)
      ]
  add_key_step (some m) ms x k keys e h =
      let found = select_one_sound (λ m. m.device_key == x) ms m e in
      ap (λ y. k == y || one_of keys k) ((eq_iff m.device_key x).0 found)

  matched_keys :
      (ds : List DiscoveryDevice) (ms : List (MetricSample fl.F64)) (k : String)
      → one_of (sample_keys ms) k ≡ true
      → one_of (matched_metric_keys fl ds ms) k ≡ one_of (device_keys ds) k
  unfolding matched_metric_keys one_of
  matched_keys [] ms k h = refl
  matched_keys (d ∷ ds) ms k h =
      add_key_step (metric_of fl ms d.device_key) ms d.device_key k (matched_metric_keys fl ds ms)
        refl h
      ∙ ap (λ b. k == d.device_key || b) (matched_keys ds ms k h)

  -- The keys of the measurements without a device.
  only_keys :
      (ds : List DiscoveryDevice) (ms : List (MetricSample fl.F64)) (k : String)
      → one_of (sample_keys (metrics_only fl ds ms)) k
        ≡ one_of (sample_keys ms) k && not (one_of (device_keys ds) k)
  unfolding metrics_only
  only_keys ds ms k =
      let kept =
        select_keys (λ m. m.device_key) (λ x. not (one_of (matched_metric_keys fl ds ms) x)) k ms in
      elim (Bool-cases (one_of (sample_keys ms) k)) [
        | inl e ↦ ground (arith, kept, e, matched_keys ds ms k e)
        | inr e ↦ ground (arith, kept, e)
      ]

  gpu_keys :
      (d : TsvResult DiscoveryDevice) (m : TsvResult (MetricSample fl.F64)) (name : String)
      (errors : List String)
      → map (λ g. g.gpu_key) (merge_into_gpu_metrics fl d m name errors).0
        ≡ device_keys d.items ++ sample_keys (metrics_only fl d.items m.items)
  unfolding merge_into_gpu_metrics
  gpu_keys d m name errors =
      let key : GpuMetrics fl.F64 → String = λ g. g.gpu_key in
      let devices = map (λ x. device_gpu fl name x (metric_of fl m.items x.device_key)) d.items in
      let only = map (sample_gpu fl name m.vendor) (metrics_only fl d.items m.items) in
      map_append key devices only
      ∙ ap₂ (λ xs ys. xs ++ ys) (map_keys key _ d.items)
          (map_keys key (sample_gpu fl name m.vendor) (metrics_only fl d.items m.items))

  -- A merge reports a GPU for every key of a device or of a sample, and for no other.
  pub merge_covers :
      (d : TsvResult DiscoveryDevice) (m : TsvResult (MetricSample fl.F64)) (name : String)
      (errors : List String) (k : String)
      → one_of (map (λ g. g.gpu_key) (merge_into_gpu_metrics fl d m name errors).0) k
        ≡ one_of (device_keys d.items) k || one_of (sample_keys m.items) k
  merge_covers d m name errors k =
      let keys = ap (λ ks. one_of ks k) (gpu_keys d m name errors) in
      ground (
        arith,
        keys,
        only_keys d.items m.items k,
        one_of-append (device_keys d.items) (sample_keys (metrics_only fl d.items m.items)) k,
      )

  -- What a collector's two scripts print is merged into GPUs of which no two have the same key, so that
  -- no device is reported twice.
  pub merge_distinct :
      (found measured : String) (d : TsvResult DiscoveryDevice)
      (m : TsvResult (MetricSample fl.F64)) (name : String) (errors : List String)
      → parse_discovery found ≡ parsed d
      → parse_metrics fl measured ≡ parsed m
      → all_distinct (map (λ g. g.gpu_key) (merge_into_gpu_metrics fl d m name errors).0) ≡ true
  unfolding metrics_only
  merge_distinct found measured d m name errors hd hm =
      let (_, devices) = discovery_keys found d hd in
      let (_, samples) = metrics_keys fl measured m hm in
      let only = metrics_only fl d.items m.items in
      subst (λ ks. all_distinct ks ≡ true) (sym (gpu_keys d m name errors))
        (all_distinct-append (device_keys d.items) (sample_keys only) devices
          (select-all_distinct (λ s. s.device_key)
            (λ x. not (one_of (matched_metric_keys fl d.items m.items) x)) m.items samples)
          (λ s e. ground (arith, e, only_keys d.items m.items s)))

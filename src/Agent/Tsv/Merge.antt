-- ===== src/Agent/Tsv/Merge.antt =====
-- `merge_into_gpu_metrics`. The list of errors that the caller passes grows.
use lightai_platform.Prelude.{
  String, ◌<>◌, not, Option, none, some, List, [], ◌∷◌, ◌++◌, ◌==◌, map, map_option, and_then,
  unwrap_or,
}
use lightai_platform.Prelude.Int.{ℤ}
use lightai_platform.Prelude.Rows.{select, select_one}
use lightai_platform.Prelude.Text.{one_of}
use lightai_platform.Agent.Tsv.Cells.{TsvResult}
use lightai_platform.Agent.Tsv.Number.{Floats}
use lightai_platform.Agent.Tsv.Discovery.{DiscoveryDevice}
use lightai_platform.Agent.Tsv.Metrics.{MetricSample}

pub record GpuMetrics (F64 : Type 0) : Type 0 where
  pub gpu_key : String
  pub gpu_index : Option ℤ
  pub vendor : String
  pub name : String
  pub uuid : Option String
  pub driver_version : Option String
  pub memory_total_bytes : Option ℤ
  pub memory_used_bytes : Option ℤ
  pub utilization_percent : Option F64
  pub temperature_celsius : Option F64
  pub power_watts : Option F64
  pub collector : String
  pub raw_json : Option String

module _ (fl : Floats) where
  -- the measurement of a device, the first with its key
  unfoldable pub metric_of : List (MetricSample fl.F64) → String → Option (MetricSample fl.F64)
  unfolding select_one
  metric_of samples key = select_one (λ m. m.device_key == key) samples

  abbrev pub device_gpu :
      String → DiscoveryDevice → Option (MetricSample fl.F64) → GpuMetrics fl.F64
  device_gpu collector_name device metric = record {
    gpu_key = device.device_key;
    gpu_index = device.index;
    vendor = device.vendor;
    name = device.name;
    uuid = device.uuid;
    driver_version = device.driver_version;
    memory_total_bytes = map_option fl.mb_to_bytes (and_then metric (λ m. m.memory_total_mb));
    memory_used_bytes = map_option fl.mb_to_bytes (and_then metric (λ m. m.memory_used_mb));
    utilization_percent = and_then metric (λ m. m.utilization_percent);
    temperature_celsius = and_then metric (λ m. m.temperature_c);
    power_watts = and_then metric (λ m. m.power_w);
    collector = collector_name;
    raw_json = none;
  }

  abbrev pub sample_gpu : String → Option String → MetricSample fl.F64 → GpuMetrics fl.F64
  sample_gpu collector_name vendor m = record {
    gpu_key = m.device_key;
    gpu_index = none;
    vendor = unwrap_or vendor "unknown";
    name = m.device_key;
    uuid = none;
    driver_version = none;
    memory_total_bytes = map_option fl.mb_to_bytes m.memory_total_mb;
    memory_used_bytes = map_option fl.mb_to_bytes m.memory_used_mb;
    utilization_percent = m.utilization_percent;
    temperature_celsius = m.temperature_c;
    power_watts = m.power_w;
    collector = collector_name;
    raw_json = none;
  }

  abbrev pub add_key : Option (MetricSample fl.F64) → List String → List String
  add_key none keys = keys
  add_key (some m) keys = m.device_key ∷ keys

  -- the keys of the measurements that the first loop matches
  unfoldable pub matched_metric_keys :
      List DiscoveryDevice → List (MetricSample fl.F64) → List String
  unfolding metric_of
  matched_metric_keys [] samples = []
  matched_metric_keys (d ∷ ds) samples =
      add_key (metric_of samples d.device_key) (matched_metric_keys ds samples)

  abbrev pub metrics_only_error : String → MetricSample fl.F64 → String
  metrics_only_error collector_name m =
      "device_key '" <> m.device_key <> "' found in metrics but not in discovery for collector '"
      <> collector_name <> "'"

  -- the measurements of the second loop
  unfoldable pub metrics_only :
      List DiscoveryDevice → List (MetricSample fl.F64) → List (MetricSample fl.F64)
  unfolding matched_metric_keys select one_of
  metrics_only devices samples =
      select (λ m. not (one_of (matched_metric_keys devices samples) m.device_key)) samples

  unfoldable pub merge_into_gpu_metrics :
      TsvResult DiscoveryDevice
      → TsvResult (MetricSample fl.F64)
      → String
      → List String
      → List (GpuMetrics fl.F64) × List String
  unfolding metrics_only
  merge_into_gpu_metrics discovery metrics collector_name errors =
      let only = metrics_only discovery.items metrics.items in
      (
        map (λ d. device_gpu collector_name d (metric_of metrics.items d.device_key))
              discovery.items
            ++ map (sample_gpu collector_name metrics.vendor) only,
        errors ++ map (metrics_only_error collector_name) only,
      )

-- ===== src/Agent/Tests.antt =====
-- A collector with a registered entry.
mod Tsv
mod Launch
mod Processes
mod Gateway
mod Logs
use lightai_platform.Prelude.{◌≡◌, ◌↔◌, true, false, [], ◌∷◌}
use lightai_platform.Agent.Collectors.{
  CollectorManifest, CollectorDir, CollectorConfig, RegistryEntry, explicit, names, is_listed,
  check_enabled, allowed,
}
use lightai_platform.Agent.Collectors.Laws.{IsAdmitted, check_enabled_lem}

abbrev nvidia_manifest : CollectorManifest
nvidia_manifest = record {
  id = "nvidia";
  vendor = "nvidia";
  name = "NVIDIA";
  version = "1.0";
  description = "";
  discover = "discover.sh";
  metrics = "metrics.sh";
  discover_sha256 = "";
  metrics_sha256 = "";
  enabled = true;
  priority = 100;
}

abbrev nvidia_dir : CollectorDir
nvidia_dir = record {
  dir_path = "/opt/lightai/collectors/gpu/nvidia";
  manifest = nvidia_manifest;
  discover_sha256 = "d1";
  metrics_sha256 = "m1";
}

abbrev nvidia_entry : RegistryEntry
nvidia_entry = record {
  id = "nvidia";
  vendor = "nvidia";
  name = "NVIDIA";
  version = "1.0";
  description = "";
  discover_sha256 = "d1";
  metrics_sha256 = "m1";
  enabled = true;
  created_at = 1;
  updated_at = 1;
}

abbrev explicit_config : CollectorConfig
explicit_config = record {
  root = "/opt/lightai/collectors/gpu";
  mode = explicit;
  enabled = "nvidia" ∷ [];
  disabled = [];
  timeout_secs = 5;
  max_output_bytes = 1048576;
}

check_enabled_example : (check_enabled nvidia_dir explicit_config (nvidia_entry ∷ []) ≡ allowed) ↔ (
    (names [] "nvidia" ≡ false)
    × (is_listed explicit_config "nvidia" ≡ true)
    × ((entry : RegistryEntry) × IsAdmitted nvidia_dir (nvidia_entry ∷ []) entry))
check_enabled_example = check_enabled_lem nvidia_dir explicit_config (nvidia_entry ∷ [])

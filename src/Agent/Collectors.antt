-- ===== src/Agent/Collectors.antt =====
-- Which GPU collectors an agent may run: `CollectorDir::check_enabled` of
-- agent/src/collector/mod.rs, and the records that it reads.
pub mod Laws
use lightai_platform.Prelude.{
  ℕ, String, Bool, true, not, ◌&&◌, Option, none, some, List, ◌==◌, any, if◌then◌else◌,
}
use lightai_platform.Prelude.Int.{ℤ}
use lightai_platform.Prelude.Rows.{select_one}

pub record CollectorManifest : Type 0 where
  pub id : String
  pub vendor : String
  pub name : String
  pub version : String
  pub description : String
  pub discover : String
  pub metrics : String
  pub discover_sha256 : String
  pub metrics_sha256 : String
  pub enabled : Bool
  pub priority : ℕ

-- a local directory; the hashes are those of the scripts in it
pub record CollectorDir : Type 0 where
  pub dir_path : String
  pub manifest : CollectorManifest
  pub discover_sha256 : String
  pub metrics_sha256 : String

pub data CollectorMode : Type 0 where
  explicit auto : CollectorMode

pub record CollectorConfig : Type 0 where
  pub root : String
  pub mode : CollectorMode
  pub enabled : List String
  pub disabled : List String
  pub timeout_secs : ℕ
  pub max_output_bytes : ℕ

-- what the server has registered
pub record RegistryEntry : Type 0 where
  pub id : String
  pub vendor : String
  pub name : String
  pub version : String
  pub description : String
  pub discover_sha256 : String
  pub metrics_sha256 : String
  pub enabled : Bool
  pub created_at : ℕ
  pub updated_at : ℕ

pub data EnableStatus : Type 0 where
  allowed disabled not_listed not_registered registry_disabled : EnableStatus
  discover_hash_mismatch metrics_hash_mismatch : EnableStatus

-- `list.iter().any(|d| d == id)`
abbrev pub names : List String → String → Bool
names list id = any (λ d. d == id) list

-- in explicit mode the id is in the list of the enabled ones
abbrev pub is_listed : CollectorConfig → String → Bool
is_listed config id = listed config.mode
  where
    listed : CollectorMode → Bool
    listed explicit = names config.enabled id
    listed auto = true

abbrev pub entry_is : String → String → RegistryEntry → Bool
entry_is id version r = r.id == id && r.version == version

-- from the registered entry on
abbrev pub check_entry : CollectorDir → Option RegistryEntry → EnableStatus
check_entry dir none = not_registered
check_entry dir (some entry) =
    if not entry.enabled
    then registry_disabled
    else if not (entry.discover_sha256 == dir.discover_sha256)
    then discover_hash_mismatch
    else if not (entry.metrics_sha256 == dir.metrics_sha256)
    then metrics_hash_mismatch
    else allowed

unfoldable pub check_enabled : CollectorDir → CollectorConfig → List RegistryEntry → EnableStatus
check_enabled dir config registry =
    let id = dir.manifest.id in
    if names config.disabled id
    then disabled
    else if not (is_listed config id)
    then not_listed
    else check_entry dir (select_one (entry_is id dir.manifest.version) registry)

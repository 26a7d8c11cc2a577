-- ===== src/Server/ModelFiles/Summary.antt =====
-- `model_file_summary`: how many of the files of a model are verified, and on how many nodes.
use lightai_platform.Prelude.{
  ℕ, max, String, Bool, not, ◌&&◌, ◌||◌, Option, none, some, List, [], ◌∷◌, ◌==◌, length, ltb,
  nat_eq, any, is_some, if◌then◌else◌,
}
use lightai_platform.Prelude.Rows.{select}
use lightai_platform.Prelude.Text.{one_of}
use lightai_platform.Server.Serde.{Serde}
use lightai_platform.Server.Tables.{ModelFile}
use lightai_platform.Server.Exec.{Exec, gets, ◌>>◌}
use lightai_platform.Server.AgentTasks.Sweep.{mark_timed_out_tasks}

pub record ModelFileSummary : Type 0 where
  pub file_status : String
  pub total_file_count : ℕ
  pub verified_file_count : ℕ
  pub available_node_count : ℕ
  pub last_file_verified_at : Option ℕ

abbrev pub is_verified : ModelFile → Bool
is_verified f = f.status == "verified"

abbrev pub is_pending : ModelFile → Bool
is_pending f = f.status == "unverified" || f.status == "verify_pending" || f.status == "verifying"

-- the set of the nodes with a verified file
unfoldable pub verified_nodes : List ModelFile → List String
unfolding one_of
verified_nodes [] = []
verified_nodes (f ∷ fs) =
    let nodes = verified_nodes fs in
    if is_verified f && not (one_of nodes f.node_id) then f.node_id ∷ nodes else nodes

-- the later of two times
abbrev pub latest : Option ℕ → Option ℕ → Option ℕ
latest none o = o
latest (some v) none = some v
latest (some v) (some w) = some (max v w)

unfoldable pub last_verified : List ModelFile → Option ℕ
last_verified [] = none
last_verified (f ∷ fs) = latest f.last_verified_at (last_verified fs)

abbrev pub status_of : ℕ → ℕ → Bool → Bool → String
status_of total verified has_pending has_failed =
    if nat_eq total 0
    then "no_files"
    else if nat_eq verified total
    then "all_files_verified"
    else if ltb 0 verified
    then "partially_verified"
    else if has_pending && not has_failed
    then "pending_verification"
    else "verification_failed"

unfoldable pub summarise : List ModelFile → ModelFileSummary
summarise rows =
    let total = length rows in
    let verified = length (select is_verified rows) in
    record {
      file_status =
          status_of total verified (any is_pending rows)
            (any (λ f. not (is_verified f || is_pending f)) rows);
      total_file_count = total;
      verified_file_count = verified;
      available_node_count = length (verified_nodes rows);
      last_file_verified_at = last_verified rows;
    }

unfoldable pub model_file_summary : Serde → ℕ → String → Exec ModelFileSummary
model_file_summary js now model_id = do
  mark_timed_out_tasks js now
  gets (λ db.
      summarise (select (λ f. f.model_id == model_id && not (is_some f.deleted_at)) db.model_files))

-- ===== src/Server/ModelFiles/Laws/Summary.antt =====
-- What the summary of the files of a model counts.
use lightai_platform.Prelude.{
  String, ◌≡◌, refl, ap, ◌≤◌, ◌&&◌, ◌||◌, not, Bool, true, false, List, [], ◌∷◌, ◌==◌, any, length,
  nat_eq, arith, eq_iff, if◌then◌else◌, ◌∙◌, Bool-cases, inl, inr,
}
use lightai_platform.Prelude.Rows.{select}
use lightai_platform.Prelude.Text.{one_of, all_distinct}
use lightai_platform.Prelude.Text.Laws.{eq_comm, one_of-if}
use lightai_platform.Server.Tables.{ModelFile}
use lightai_platform.Server.ModelFiles.Summary.{is_verified, verified_nodes, summarise}

length-select_bound :
    (p : ModelFile → Bool) (fs : List ModelFile) → length (select p fs) ≤ length fs
unfolding select
length-select_bound p [] = ground arith
length-select_bound p (f ∷ fs) = ground (arith, length-select_bound p fs)

nodes_bound : (fs : List ModelFile) → length (verified_nodes fs) ≤ length (select is_verified fs)
unfolding verified_nodes select
nodes_bound [] = ground arith
nodes_bound (f ∷ fs) = ground (arith, nodes_bound fs)

-- The counts of a summary are ordered: no more nodes than verified files, and no more of those than
-- files.
pub summary_bounds :
    (fs : List ModelFile)
    → ((summarise fs).available_node_count ≤ (summarise fs).verified_file_count)
      × ((summarise fs).verified_file_count ≤ (summarise fs).total_file_count)
unfolding summarise
summary_bounds fs = (nodes_bound fs, length-select_bound is_verified fs)

nodes-all_distinct : (fs : List ModelFile) → all_distinct (verified_nodes fs) ≡ true
unfolding verified_nodes all_distinct
nodes-all_distinct [] = refl
nodes-all_distinct (f ∷ fs) = ground (arith, nodes-all_distinct fs)

member_step :
    (v : Bool) (x : String) (xs : List String) (n : String) (rest : Bool)
    → one_of xs n ≡ rest
    → one_of (if v && not (one_of xs x) then x ∷ xs else xs) n ≡ v && x == n || rest
member_step v x xs n rest h =
    let split = one_of-if (v && not (one_of xs x)) x xs n in
    let turned = eq_comm n x in
    elim (Bool-cases (x == n)) [
      | inl e ↦ ground (arith, split, turned, h, e, ap (one_of xs) ((eq_iff x n).0 e))
      | inr e ↦ ground (arith, split, turned, h, e)
    ]

nodes_members :
    (n : String) (fs : List ModelFile)
    → one_of (verified_nodes fs) n ≡ any (λ f. is_verified f && f.node_id == n) fs
unfolding verified_nodes any
nodes_members n [] = refl
nodes_members n (f ∷ fs) =
    member_step (is_verified f) f.node_id (verified_nodes fs) n _ (nodes_members n fs)

-- The nodes that a summary counts are those with a verified file, and each is counted once.
pub available_nodes :
    (fs : List ModelFile)
    → ((summarise fs).available_node_count ≡ length (verified_nodes fs))
      × (all_distinct (verified_nodes fs) ≡ true)
      × ((n : String)
          → one_of (verified_nodes fs) n ≡ any (λ f. is_verified f && f.node_id == n) fs)
unfolding summarise
available_nodes fs = (refl, nodes-all_distinct fs, λ n. nodes_members n fs)

all_verified :
    (fs : List ModelFile)
    → nat_eq (length (select is_verified fs)) (length fs) ≡ not (any (λ f. not (is_verified f)) fs)
unfolding select any
all_verified [] = refl
all_verified (f ∷ fs) = ground (arith, all_verified fs, length-select_bound is_verified fs)

status_all :
    (a b c d : Bool)
    → ((if a
          then "no_files"
          else if b
          then "all_files_verified"
          else if c
          then "partially_verified"
          else if d
          then "pending_verification"
          else "verification_failed")
        == "all_files_verified")
      ≡ not a && b
status_all true b c d = refl
status_all false true c d = refl
status_all false false true d = refl
status_all false false false true = refl
status_all false false false false = refl

-- A model is reported as "all_files_verified" exactly if it has files and none of them is unverified.
pub all_files_verified :
    (fs : List ModelFile)
    → ((summarise fs).file_status == "all_files_verified")
      ≡ not (nat_eq (length fs) 0) && not (any (λ f. not (is_verified f)) fs)
unfolding summarise
all_files_verified fs =
    status_all (nat_eq (length fs) 0) (nat_eq (length (select is_verified fs)) (length fs)) _ _
    ∙ ap (λ b. not (nat_eq (length fs) 0) && b) (all_verified fs)

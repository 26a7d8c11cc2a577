-- ===== src/Agent/Tests/Tsv.antt =====
-- What two scripts of a collector print.
use lightai_platform.Prelude.Rows.{select}
use lightai_platform.Prelude.{String, ◌≡◌, refl, true, none, some, List, [], ◌∷◌, map, All}
use lightai_platform.Prelude.Int.{pos}
use lightai_platform.Prelude.Text.{all_distinct, all_char}
use lightai_platform.Agent.Tsv.Cells.{parsed, TsvResult, ok, rows_of, status_row, empty_to_opt}
use lightai_platform.Agent.Tsv.Cells.Laws.{print_rows, IsRow, rows_of-print_rows}
use lightai_platform.Agent.Tsv.Number.{Floats, parse_opt_i64, parse_opt_f64}
use lightai_platform.Agent.Tsv.Discovery.{DiscoveryDevice, parse_discovery, device_row}
use lightai_platform.Agent.Tsv.Metrics.{MetricSample, parse_metrics, metric_row}
use lightai_platform.Agent.Tsv.Merge.{merge_into_gpu_metrics}
use lightai_platform.Agent.Tsv.Laws.Merge.{merge_distinct}

-- a number is its text
abbrev texts : Floats
texts = record { F64 = String; parse = λ s. some s; mb_to_bytes = λ s. pos 0 }

abbrev found_text : String
found_text =
    "STATUS\t1\tok\tnvidia\tr535\t\nDEVICE\t1\tg0\tnvidia\t0\tA10\t\t\t\t\nDEVICE\t1\tg0\tnvidia\t1\tA10\t\t\t\t\n"

abbrev measured_text : String
measured_text = "STATUS\t1\tok\tnvidia\tr535\t\nMETRIC\t1\tg7\t1\t2\t3\t4\t5\t6\t7\tok\t\n"

abbrev found : TsvResult DiscoveryDevice
found = record {
  status = ok;
  status_message = none;
  vendor = some "nvidia";
  collector = some "r535";
  items =
      record {
        device_key = "g0";
        vendor = "nvidia";
        index = some (pos 0);
        name = "A10";
        uuid = none;
        pci_bus_id = none;
        driver_version = none;
        message = none;
      }
      ∷ [];
}

abbrev measured : TsvResult (MetricSample String)
measured = record {
  status = ok;
  status_message = none;
  vendor = some "nvidia";
  collector = some "r535";
  items =
      record {
        device_key = "g7";
        memory_total_mb = some "1";
        memory_used_mb = some "2";
        memory_free_mb = some "3";
        utilization_percent = some "4";
        memory_utilization_percent = some "5";
        temperature_c = some "6";
        power_w = some "7";
        health_status = "ok";
        message = none;
      }
      ∷ [];
}

found_is_parsed : parse_discovery found_text ≡ parsed found
unfolding parse_discovery select status_row device_row empty_to_opt parse_opt_i64
found_is_parsed = refl

measured_is_parsed : parse_metrics texts measured_text ≡ parsed measured
unfolding parse_metrics select status_row metric_row empty_to_opt parse_opt_f64
measured_is_parsed = refl

merge_distinct_example :
    all_distinct (map (λ g. g.gpu_key) (merge_into_gpu_metrics texts found measured "c" []).0)
    ≡ true
merge_distinct_example =
    merge_distinct texts found_text measured_text found measured "c" [] found_is_parsed
      measured_is_parsed

abbrev two_rows : List (List String)
two_rows = ("STATUS" ∷ "1" ∷ "ok" ∷ "" ∷ "" ∷ "" ∷ []) ∷ ("DEVICE" ∷ []) ∷ []

two_rows-IsRow : All IsRow two_rows
unfolding all_char
two_rows-IsRow =
    ((refl, (refl, (refl, (refl, (refl, (refl, (refl, tt))))))), ((refl, (refl, tt)), tt))

rows_example : rows_of (print_rows two_rows) ≡ two_rows
rows_example = rows_of-print_rows two_rows two_rows-IsRow

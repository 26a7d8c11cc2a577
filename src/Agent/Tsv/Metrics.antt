-- ===== src/Agent/Tsv/Metrics.antt =====
-- `parse_metrics`.
use lightai_platform.Prelude.{
  String, not, Option, List, [], ◌∷◌, ◌++◌, ◌==◌, nat_eq, length, if◌then◌else◌,
}
use lightai_platform.Prelude.Text.{trim, one_of}
use lightai_platform.Agent.Tsv.Cells.{
  Parsed, Reading, TsvResult, nothing_read, rows_of, read_rows, finish, column, empty_to_opt,
}
use lightai_platform.Agent.Tsv.Number.{Floats, parse_opt_f64}

pub record MetricSample (F64 : Type 0) : Type 0 where
  pub device_key : String
  pub memory_total_mb : Option F64
  pub memory_used_mb : Option F64
  pub memory_free_mb : Option F64
  pub utilization_percent : Option F64
  pub memory_utilization_percent : Option F64
  pub temperature_c : Option F64
  pub power_w : Option F64
  pub health_status : String
  pub message : Option String

module _ (fl : Floats) where
  abbrev pub sample_of : String → String → List String → MetricSample fl.F64
  sample_of key health cols = record {
    device_key = key;
    memory_total_mb = parse_opt_f64 fl (column 3 cols);
    memory_used_mb = parse_opt_f64 fl (column 4 cols);
    memory_free_mb = parse_opt_f64 fl (column 5 cols);
    utilization_percent = parse_opt_f64 fl (column 6 cols);
    memory_utilization_percent = parse_opt_f64 fl (column 7 cols);
    temperature_c = parse_opt_f64 fl (column 8 cols);
    power_w = parse_opt_f64 fl (column 9 cols);
    health_status = health;
    message = empty_to_opt (column 11 cols);
  }

  -- the arm for a METRIC row; a row without a health status still marks its key as seen
  unfoldable pub metric_row :
      List String → Reading (MetricSample fl.F64) → Reading (MetricSample fl.F64)
  unfolding column trim one_of
  metric_row cols r =
      let key = trim (column 2 cols) in
      let health = trim (column 10 cols) in
      if not (nat_eq (length cols) 12)
      then r
      else if not (column 1 cols == "1")
      then r
      else if key == ""
      then r
      else if one_of r.seen_keys key
      then r
      else if health == ""
      then record r { seen_keys = key ∷ r.seen_keys }
      else record r {
        items = r.items ++ sample_of key health cols ∷ [];
        seen_keys = key ∷ r.seen_keys;
      }

  unfoldable pub parse_metrics : String → Parsed (TsvResult (MetricSample fl.F64))
  unfolding rows_of read_rows finish
  parse_metrics tsv = finish (read_rows "METRIC" metric_row (rows_of tsv) nothing_read)

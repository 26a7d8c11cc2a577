-- ===== src/Agent/Tsv/Discovery.antt =====
-- `parse_discovery`.
use lightai_platform.Prelude.{
  String, not, Option, List, [], ◌∷◌, ◌++◌, ◌==◌, nat_eq, length, if◌then◌else◌,
}
use lightai_platform.Prelude.Int.{ℤ}
use lightai_platform.Prelude.Text.{trim, one_of}
use lightai_platform.Agent.Tsv.Cells.{
  Parsed, Reading, TsvResult, nothing_read, rows_of, read_rows, finish, column, empty_to_opt,
}
use lightai_platform.Agent.Tsv.Number.{parse_opt_i64}

pub record DiscoveryDevice : Type 0 where
  pub device_key : String
  pub vendor : String
  pub index : Option ℤ
  pub name : String
  pub uuid : Option String
  pub pci_bus_id : Option String
  pub driver_version : Option String
  pub message : Option String

abbrev pub device_of : String → List String → DiscoveryDevice
device_of key cols = record {
  device_key = key;
  vendor = trim (column 3 cols);
  index = parse_opt_i64 (column 4 cols);
  name = trim (column 5 cols);
  uuid = empty_to_opt (column 6 cols);
  pci_bus_id = empty_to_opt (column 7 cols);
  driver_version = empty_to_opt (column 8 cols);
  message = empty_to_opt (column 9 cols);
}

-- the arm for a DEVICE row; a row that is not as it should be is passed over
unfoldable pub device_row : List String → Reading DiscoveryDevice → Reading DiscoveryDevice
unfolding column trim one_of
device_row cols r =
    let key = trim (column 2 cols) in
    if not (nat_eq (length cols) 10)
    then r
    else if not (column 1 cols == "1")
    then r
    else if key == ""
    then r
    else if one_of r.seen_keys key
    then r
    else record r { items = r.items ++ device_of key cols ∷ []; seen_keys = key ∷ r.seen_keys }

unfoldable pub parse_discovery : String → Parsed (TsvResult DiscoveryDevice)
unfolding rows_of read_rows finish
parse_discovery tsv = finish (read_rows "DEVICE" device_row (rows_of tsv) nothing_read)

-- ===== src/Agent/Tsv/Cells.antt =====
-- The rows and columns of a collector's output, and the part of the two parsers that they share: the
-- STATUS row and the loop over the rows. An error message of `anyhow` is a constructor.
pub mod Laws
use Prim.Native.Char.{Char, code}
use lightai_platform.Prelude.{
  ℕ, String, Bool, not, ◌&&◌, ◌||◌, Option, none, some, List, [], ◌∷◌, ◌==◌, nat_eq, map, length,
  if◌then◌else◌, suc,
}
use lightai_platform.Prelude.Rows.{select}
use lightai_platform.Prelude.Text.{trim, split_on}

pub data CollectorStatus : Type 0 where
  ok not_available partial error : CollectorStatus

pub data TsvError : Type 0 where
  status_columns : ℕ → TsvError
  schema_version unknown_status : String → TsvError
  missing_status : TsvError

-- anyhow::Result
pub data Parsed (A : Type 0) : Type 0 where
  parsed : A → Parsed A
  bailed : TsvError → Parsed A

unfoldable pub parse_status : String → Option CollectorStatus
parse_status value =
    if value == "ok"
    then some ok
    else if value == "not_available"
    then some not_available
    else if value == "partial"
    then some partial
    else if value == "error"
    then some error
    else none

abbrev pub tab : ℕ
tab = 9

abbrev pub newline : ℕ
newline = 10

-- `line.trim_end_matches(['\r', '\n'])`
unfoldable pub cut_line_end : String → String
cut_line_end String.[] = ""
cut_line_end (String.◌∷◌ c s) =
    let rest = cut_line_end s in
    if (nat_eq (code c) 13 || nat_eq (code c) newline) && rest == "" then "" else String.◌∷◌ c rest

-- The columns of the lines that are not empty. `lines` also cuts a `\r` before a `\n` and leaves out
-- an empty last line; `cut_line_end` and the test for an empty line do the same again.
unfoldable pub rows_of : String → List (List String)
unfolding split_on cut_line_end
rows_of tsv =
    map (split_on tab) (select (λ line. not (line == "")) (map cut_line_end (split_on newline tsv)))

-- `cols[n]`, which is read only where there are more than `n` columns
unfoldable pub column : ℕ → List String → String
column n [] = ""
column Prim.Native.Nat.zero (c ∷ cs) = c
column (Prim.Native.Nat.suc n) (c ∷ cs) = column n cs

unfoldable pub empty_to_opt : String → Option String
unfolding trim
empty_to_opt s = let trimmed = trim s in if trimmed == "" then none else some trimmed

-- the local variables of a parser; `Item` is a device or a sample
pub record Reading (Item : Type 0) : Type 0 where
  pub status : Option CollectorStatus
  pub status_message : Option String
  pub vendor : Option String
  pub collector : Option String
  pub items : List Item
  pub seen_keys : List String

-- DiscoveryResult and MetricsResult
pub record TsvResult (Item : Type 0) : Type 0 where
  pub status : CollectorStatus
  pub status_message : Option String
  pub vendor : Option String
  pub collector : Option String
  pub items : List Item

module _ {Item : Type 0} where
  abbrev pub nothing_read : Reading Item
  nothing_read = record {
    status = none;
    status_message = none;
    vendor = none;
    collector = none;
    items = [];
    seen_keys = [];
  }

  abbrev pub set_status :
      List String → Option CollectorStatus → Reading Item → Parsed (Reading Item)
  set_status cols none r = bailed (unknown_status (column 2 cols))
  set_status cols (some s) r = parsed (record r {
    status = some s;
    vendor = empty_to_opt (column 3 cols);
    collector = empty_to_opt (column 4 cols);
    status_message = empty_to_opt (column 5 cols);
  })

  -- the arm for a STATUS row
  unfoldable pub status_row : List String → Reading Item → Parsed (Reading Item)
  unfolding column parse_status
  status_row cols r =
      if not (nat_eq (length cols) 6)
      then bailed (status_columns (length cols))
      else if not (column 1 cols == "1")
      then bailed (schema_version (column 1 cols))
      else set_status cols (parse_status (column 2 cols)) r

  -- a row: a STATUS row, a row of the kind that the parser collects, or one that it passes over
  unfoldable pub read_row :
      String
      → (List String → Reading Item → Reading Item)
      → List String
      → Reading Item
      → Parsed (Reading Item)
  unfolding column
  read_row kind item_row cols r =
      if column 0 cols == "STATUS"
      then status_row cols r
      else if column 0 cols == kind
      then parsed (item_row cols r)
      else parsed r

  -- the loop, which an error ends
  unfoldable pub read_rows :
      String
      → (List String → Reading Item → Reading Item)
      → List (List String)
      → Reading Item
      → Parsed (Reading Item)
  unfolding read_row
  read_rows kind item_row [] r = parsed r
  read_rows kind item_row (cols ∷ rows) r = elim (read_row kind item_row cols r) [
    | bailed e ↦ bailed e
    | parsed s ↦ read_rows kind item_row rows s
  ]

  abbrev pub has_status : Reading Item → Option CollectorStatus → Parsed (TsvResult Item)
  has_status r none = bailed missing_status
  has_status r (some s) = parsed (record {
    status = s;
    status_message = r.status_message;
    vendor = r.vendor;
    collector = r.collector;
    items = r.items;
  })

  -- what the parsers make of the variables after the loop
  unfoldable pub finish : Parsed (Reading Item) → Parsed (TsvResult Item)
  finish (bailed e) = bailed e
  finish (parsed r) = has_status r r.status

-- ===== src/Agent/Tsv.antt =====
-- The output of a collector's scripts, agent/src/collector/tsv.rs: a text of rows of columns, read as
-- devices or as measurements, and the merge of the two.
pub mod Cells
pub mod Number
pub mod Discovery
pub mod Metrics
pub mod Merge
pub mod Laws

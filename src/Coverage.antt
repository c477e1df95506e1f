-- ===== src/Coverage.antt =====
-- analysis/plot-data/src: the coverage that the trials of the fuzzers have written, and the
-- configuration of the figures that are made of it.
pub mod Names
pub mod Tags
pub mod Chunks
pub mod Columns
pub mod Paths
pub mod Filter
pub mod Layout
pub mod Metadata

-- ===== src/Plot.antt =====
-- analysis/plot/src/utils.rs: the step curves, the legend and the cells of a figure; the drawing
-- itself is plotters'.
pub mod Steps
pub mod Legend
pub mod Cells

-- ===== src/Gfx.antt =====
-- The graphics state of the console: crates/kuula-core/src/resources.rs, with the part of
-- crates/kuula-core/src/buf.rs that it allocates, crates/kuula-core/src/pen.rs and palette.rs.
pub mod Resources
pub mod Pen
pub mod Palette

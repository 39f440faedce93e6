-- ===== src/Wire.antt =====
-- The byte formats of crates/kuula-net: the play protocol in Wire/Play, the deploy protocol in
-- Wire/Deploy.
pub mod Play
pub mod Deploy

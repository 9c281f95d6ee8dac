-- ===== src/Atmos.antt =====
-- The atmosphere simulation, sources/core/atmos.
pub mod Gas
pub mod Holder
pub mod Cell
pub mod Grid

-- ===== src/HumanInterface.antt =====
-- HumanInterface of sources/core/objects/mobs/HumanInterface.h and HumanInterface.cpp.
pub mod Indicators
pub mod Slots
pub mod Masks
pub mod Clicks

-- ===== src/Creator.antt =====
-- Boss/Mod/ChannelCreator/ and what sets its limits: which nodes get a channel, and of what size.
pub mod Settings
pub mod Planner
pub mod Rearranger
pub mod Reprioritizer
pub mod Manager
pub mod Eviction

-- ===== src/Locks.antt =====
-- page_grouping/lock_manager.{h,cc}: the logical locks on segments and pages.
pub mod Modes
pub mod Table
pub mod Segments
pub mod Pages
pub mod Holders
pub mod Tracks
pub mod History
pub mod Exclusion
pub mod Upgrade

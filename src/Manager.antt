-- ===== src/Manager.antt =====
-- page_grouping/manager.cc: reading one record, and writing a batch of records to the pages of their
-- segments and to overflow pages.
pub mod Store
pub mod Write
pub mod Allocate
pub mod Chains
pub mod Changes
pub mod Link
pub mod Sound
pub mod Steps
pub mod Record
pub mod Batch
pub mod Split
pub mod Puts
pub mod Stale
pub mod PutBatch

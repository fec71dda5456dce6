-- ===== src/Builder.antt =====
-- page_grouping/segment_builder.{h,cc}: a sorted stream of records cut into segments.
pub mod Model
pub mod Records
pub mod Conserve
pub mod Finish
pub mod Dataset

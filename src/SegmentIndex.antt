-- ===== src/SegmentIndex.antt =====
-- page_grouping/segment_index.{h,cc}: from keys to segments.
pub mod OrderedMap
pub mod Lookup
pub mod Locking
pub mod Rewrite
pub mod Current
pub mod Tiling

-- ===== src/Clustering/Partition.antt =====
-- The clusters of a run share no item, and those of the research have all items.
pub mod Counting
pub mod Adding
pub mod Forming
pub mod Storing
pub mod Running
pub mod Groups
pub mod Grouping

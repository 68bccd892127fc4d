-- ===== src/Pipelines.antt =====
-- v2/src/ds4_infer/pipelines.py: a model split over nodes by layers.
pub mod Partition
pub mod Service
pub mod Load
pub mod Samples
pub mod Tests

-- ===== src/Params.antt =====
-- osbenchmark/workload/params.py: the parameter source of bulk indexing.
pub mod Bounds
pub mod Slice
pub mod Partition

-- ===== src/Gate1.antt =====
-- The Gate-1 validator of src/xdna-gate1.cpp.
pub mod Json
pub mod Image
pub mod Metadata
pub mod Arguments
pub mod Parse
pub mod Report
pub mod Print
pub mod Harness

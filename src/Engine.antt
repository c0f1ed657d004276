-- ===== src/Engine.antt =====
-- The CPU engine of src/cpu-q4-gemv-engine.cpp and include/xdna/cpu_q4_gemv_engine.h.
pub mod Simd
pub mod Dot
pub mod Nibbles
pub mod Blocks
pub mod Reference
pub mod Run
pub mod Metrics

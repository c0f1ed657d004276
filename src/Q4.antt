-- ===== src/Q4.antt =====
-- The Q4_0 reference of src/xdna-q4-0-reference.cpp.
pub mod Float
pub mod Shape
pub mod Row

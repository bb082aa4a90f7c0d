-- ===== src/Builder.antt =====
-- include/velocypack/Builder.h and src/Builder.cpp: building values.
pub mod Integers
pub mod Output
pub mod State
pub mod Outcome
pub mod Values
pub mod Pairs
pub mod Add
pub mod Close
pub mod Levels
pub mod Signed

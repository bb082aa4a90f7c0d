-- ===== src/Common.antt =====
-- include/velocypack/velocypack-common.h: integers in memory, and lengths of variable width.
pub mod Integers
pub mod VarLength
unfoldable pub use Integers.*
unfoldable pub use VarLength.*

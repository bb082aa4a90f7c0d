-- ===== src/Slice.antt =====
-- include/velocypack/SliceBase.h and SliceBase.tpp: a Slice is the address `s` of a head byte in a
-- memory `m`. A function for each method, with `m` and `s` for the object.
pub mod Head
pub mod Numbers
pub mod Tags
pub mod Size
pub mod Text
pub mod Compound
unfoldable pub use Head.*
unfoldable pub use Numbers.*
unfoldable pub use Tags.*
unfoldable pub use Size.*
unfoldable pub use Text.*
unfoldable pub use Compound.*

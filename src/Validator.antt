-- ===== src/Validator.antt =====
-- src/Validator.cpp: the check that bytes from outside are a well-formed value. The nesting level, the
-- only state of a Validator, is passed to each method and returned by it. A method that recurs takes
-- `validatePart` as its argument `recur`; `Part` ties the knot.
pub mod Lengths
pub mod Simple
pub mod Arrays
pub mod Objects
pub mod Part
unfoldable pub use Lengths.*
unfoldable pub use Simple.*
unfoldable pub use Arrays.*
unfoldable pub use Objects.*
unfoldable pub use Part.*

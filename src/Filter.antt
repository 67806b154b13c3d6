-- ===== src/Filter.antt =====
-- src/ffilter: the record filter.
pub mod Types
pub mod Attr
pub mod Validate
pub mod Labels
pub mod OperEval
pub mod Node
pub mod Literal
pub mod Address
pub mod Leaf

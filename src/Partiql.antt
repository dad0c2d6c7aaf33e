-- ===== src/Partiql.antt =====
-- aws/partiql: the builder of PartiQL text, and the encoder of Go values that writes with it.
pub mod Builder
pub mod Value
pub mod Encoder
pub mod Parts
pub mod Quoting
pub mod Refines
pub mod Tests

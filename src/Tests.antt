-- ===== src/Tests.antt =====
-- Tests: an instance of the library functions, and runs of the modelled code on concrete input.
pub mod Varint
pub mod Groups
pub mod Instance
pub mod Data
pub mod RoundTrip
pub mod Codec
pub mod Names
pub mod Lookup
pub mod Defaults
pub mod FieldValue
pub mod Render
pub mod Builder
pub mod Enums
pub mod Matching
pub mod Metadata

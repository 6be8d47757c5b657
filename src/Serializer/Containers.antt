-- ===== src/Serializer/Containers.antt =====
-- The generic instances of serializer/defaults.rs: `Option`, `Vec`, `IndexSet`, pairs and triples.
pub mod Optional
pub mod Items
pub mod Sequence
pub mod Unique
pub mod Tuples

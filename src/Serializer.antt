-- ===== src/Serializer.antt =====
-- xelis_common/src/serializer: the reader, the trait and its generic instances.
pub mod Reader
pub mod Words
pub mod Trait
pub mod Numbers
pub mod Arrays
pub mod Containers

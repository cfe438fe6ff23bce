-- ===== src/Relation.antt =====
-- The description of the tables (lib/relation): the paths of messages and fields, what is read of the
-- descriptors of protobuf, and the relation manager.
pub mod Path
pub mod Descriptor
pub mod Field
pub mod Manager

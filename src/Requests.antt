-- ===== src/Requests.antt =====
-- The queries that clients build and send (lib/requests): clauses, their protobuf image and back.
pub mod Attribute
pub mod Clause
pub mod ExpressionType
pub mod Factories
pub mod Strings
pub mod Statements
pub mod Message
pub mod Proto

-- ===== src/QueryBuilder/Postgres.antt =====
-- The texts that TPostgresBuilder (lib/query_builder/builders/postgres.cpp) puts together. What
-- Format makes of a template with `{}` is written as the pieces of the template around the texts.
pub mod Text
pub mod Expression
pub mod Definition
pub mod Build
pub mod Literals
pub mod Names
pub mod Success
pub mod Balance

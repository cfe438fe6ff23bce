-- ===== src/QueryBuilder.antt =====
-- lib/query_builder: the clauses of SQL statements, the organizer that makes them from requests, and
-- the builder that prints them for PostgreSQL.
pub mod Clause
pub mod Postgres
pub mod Organizer

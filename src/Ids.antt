-- ===== src/Ids.antt =====
-- id/id.go: the ULID, Snowflake and UUIDv7 generators.
pub mod Ulid
pub mod Snowflake
pub mod UuidV7

-- ===== src/Db.antt =====
-- The database: the WHERE clauses that commands give, and the insertion of entities.
pub mod Filter
pub mod Insert
pub mod Links
pub mod Kinds
pub mod Names
pub mod Ttl
pub mod Activity
pub mod Generic
pub mod BreachEmail
mod Tests

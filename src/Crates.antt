-- ===== src/Crates.antt =====
-- What the program takes from other crates, as parameters of the model: a record for each crate,
-- with its operations and, in a record of laws, the documented behaviour that is relied on.
pub mod Chrono
pub mod Network
pub mod Nom
pub mod Sqlite
pub mod Table
pub mod LinkTable

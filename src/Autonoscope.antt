-- ===== src/Autonoscope.antt =====
-- src/autonoscope: the rules that decide whether a new entity is in scope.
pub mod Rule
pub mod Segments
pub mod Domain
pub mod Ip
pub mod Url
pub mod RuleSet
pub mod Sort
mod Tests

-- ===== src/Repl.antt =====
-- The interactive shell's completion.
pub mod Tokenize
mod Tests

-- ===== src/Cli.antt =====
-- src/cli: what the command line is read into.
pub mod Tokenize

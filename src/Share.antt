-- ===== src/Share.antt =====
-- session.go and match.go: the paths and patterns that a share is asked for.
pub mod Paths
pub mod Match
pub mod Globs

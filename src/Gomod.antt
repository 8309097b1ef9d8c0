-- ===== src/Gomod.antt =====
-- internal/format/gomod: the Go module proxy.
pub mod Route
pub mod Handler

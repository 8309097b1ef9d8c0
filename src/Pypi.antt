-- ===== src/Pypi.antt =====
-- internal/format/pypi: the simple index of Python packages.
pub mod Name
pub mod Page
pub mod Handler

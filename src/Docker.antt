-- ===== src/Docker.antt =====
-- internal/format/docker: the Docker Registry V2 surface.
pub mod Route
pub mod World
pub mod Upload
pub mod Proxy
pub mod Handler
pub mod Serve

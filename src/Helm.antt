-- ===== src/Helm.antt =====
-- internal/format/helm: the repository of Helm charts.
pub mod Chart
pub mod Handler

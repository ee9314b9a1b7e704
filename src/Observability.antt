-- ===== src/Observability.antt =====
-- apps/api/src/observability: how healthy the dependencies are (health.ts), the alerts that follow
-- from it (alerts.ts), and what is counted (metrics.ts).
pub mod Health
pub mod Alerts
pub mod Alerting
pub mod Metrics

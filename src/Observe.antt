-- ===== src/Observe.antt =====
-- The observability of the operator: pkg/metrics/metrics.go, pkg/telemetry/tracing.go and
-- pkg/monitoring/monitoring.go. Prometheus and OpenTelemetry are libraries: the model keeps the
-- calls that the program makes of them, in order.
pub mod Metrics
pub mod Run
pub mod Tracing
pub mod Spans
pub mod Monitor
pub mod Track
pub mod Middleware

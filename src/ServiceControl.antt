-- ===== src/ServiceControl.antt =====
-- src/envoy/http/service_control: the filter that checks, meters and reports requests.
pub mod HttpCall
pub mod Info
pub mod HandlerUtils
pub mod RequestBuilder
pub mod ApiKey
pub mod Handler
pub mod Report
pub mod Filter
pub mod Refused
pub mod LogsMetrics
pub mod ClientCache
pub mod Call
pub mod Config

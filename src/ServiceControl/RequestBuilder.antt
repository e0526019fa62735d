-- ===== src/ServiceControl/RequestBuilder.antt =====
-- src/api_proxy/service_control/request_builder.cc: the requests to the service control server and
-- its responses.
pub mod Proto
pub mod Metrics
pub mod Table
pub mod Labels
pub mod LabelTable
pub mod Logs
pub mod Builder
pub mod Fill
pub mod Convert
pub mod Metered
pub mod Names
pub mod Labelled
pub mod Operations
pub mod Unkeyed
pub mod Shape
pub mod Checked
pub mod Requests
pub mod Tests

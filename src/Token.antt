-- ===== src/Token.antt =====
-- src/envoy/token: fetching and refreshing access and identity tokens.
pub mod Subscriber
pub mod Json
pub mod Info
pub mod Auth

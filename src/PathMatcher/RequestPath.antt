-- ===== src/PathMatcher/RequestPath.antt =====
-- src/api_proxy/path_matcher/path_matcher.cc: request paths, their parts and variable bindings.
pub mod Split
pub mod Bindings
pub mod Laws
mod Tests

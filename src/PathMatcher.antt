-- ===== src/PathMatcher.antt =====
-- src/api_proxy/path_matcher: HTTP templates, the trie of templates, and request paths.
pub mod Node
pub mod TemplateParser
pub mod HttpTemplate
pub mod RequestPath
pub mod Matcher
pub mod Filter

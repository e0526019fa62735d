-- ===== src/PathMatcher/Filter/Routes.antt =====
-- Which requests src/envoy/http/path_matcher/filter.cc lets pass, by the rules it is configured with.
use mathlib.Core.Option.{some-injective}
use esp_v.Base.{
  ℕ, Str, Bool, false, is_some, Option, none, some, Bool-cases, Option-cases, List, [], ◌∷◌, map,
  ◌≡◌, inl, inr, refl, sym, ap, ◌∙◌, arith,
}
use esp_v.PathMatcher.Node.Matching.{Matches, is_parameter_key}
use esp_v.PathMatcher.Node.Complete.{IsAnswering}
use esp_v.PathMatcher.TemplateParser.{HttpTemplate}
use esp_v.PathMatcher.RequestPath.Split.{StrSplit}
use esp_v.PathMatcher.Matcher.{
  MethodData, PathMatcherBuilder, transform_http_template, new_builder, register, build, lookup,
}
use esp_v.PathMatcher.Matcher.Registered.{Registration, register_all, IsRegistered}
use esp_v.PathMatcher.Matcher.Lookup.{IsSource, parts, lookup_sound, lookup_complete}
use esp_v.PathMatcher.Filter.{
  Rule, Config, FilterConfig, register_rules, config_of, new_filter_config, goes_on, rejected,
  Stats, reject_request, query_params, decode_operation, decode_headers,
}

-- What the constructor registers for a rule.
abbrev pub registration_of : Rule → Registration Str
registration_of rule = record {
  http_method = rule.http_method;
  http_template = rule.uri_template;
  body_field_path = [];
  method = rule.operation;
}

abbrev pub registrations : Config → List (Registration Str)
registrations config = map registration_of config.rules

register_rules-register_all :
    (rules : List Rule) (b b' : PathMatcherBuilder Str)
    → register_rules rules b ≡ some b'
    → register_all b (map registration_of rules) ≡ b'
unfolding register_rules register_all
register_rules-register_all [] b b' e = some-injective b b' e
register_rules-register_all (rule ∷ rules) b b' e =
    let done = register b rule.http_method rule.uri_template [] rule.operation in
    elim (Bool-cases done.1) [
      | inl t ↦ register_rules-register_all rules done.0 b' (sym (rw t refl) ∙ e)
      | inr f ↦ ground (arith, e, f)
    ]

-- The matcher of a configuration that is accepted.
new_filter_config-matcher :
    (config : Config) (made : FilterConfig)
    → new_filter_config config ≡ some made
    → made.path_matcher ≡ build (register_all new_builder (registrations config))
unfolding new_filter_config
new_filter_config-matcher config made e =
    elim (Option-cases (register_rules config.rules new_builder)) [
      | inl bad ↦ cc (sym (ap (config_of config) bad) ∙ e)
      | inr (b, good) ↦
          let same = some-injective _ made (sym (ap (config_of config) good) ∙ e) in
          ap (λ c. c.path_matcher) (sym same)
          ∙ ap build (sym (register_rules-register_all config.rules new_builder b good))
    ]

module _ (absl : StrSplit) (has_underscore : Str → Bool) (made : FilterConfig) where
  decode_operation-goes_on :
      (method path : Str) (stats : Stats) (found : Option Str) {operation query : Str}
      {stats' : Stats}
      → decode_operation absl has_underscore made method path stats found
        ≡ some (goes_on operation query, stats')
      → found ≡ some operation
  unfolding decode_operation reject_request
  decode_operation-goes_on method path stats none e = cc
  decode_operation-goes_on method path stats (some operation) e =
      elim (Option-cases (query_params absl has_underscore made method path operation)) [
        | inl outside ↦ ground (arith, e, outside)
        | inr (query, inside) ↦ ground (arith, e, inside)
      ]

  decode_operation-rejected :
      (method path : Str) (stats : Stats) (found : Option Str) {code : ℕ} {message : Str}
      {stats' : Stats}
      → decode_operation absl has_underscore made method path stats found
        ≡ some (rejected code message, stats')
      → found ≡ none
  unfolding decode_operation
  decode_operation-rejected method path stats none e = refl
  decode_operation-rejected method path stats (some operation) e =
      elim (Option-cases (query_params absl has_underscore made method path operation)) [
        | inl outside ↦ ground (arith, e, outside)
        | inr (query, inside) ↦ ground (arith, e, inside)
      ]

-- A request that goes on has the operation of one of the configured rules, whose parsed template
-- matches the parts of its path, and whose method is that of the request or `*`.
pub decode_headers-goes_on :
    (absl : StrSplit) (has_underscore : Str → Bool) (config : Config) (made : FilterConfig)
    (method path : Str) (stats : Stats) {operation query : Str} {stats' : Stats}
    → new_filter_config config ≡ some made
    → decode_headers absl has_underscore made method path stats
      ≡ some (goes_on operation query, stats')
    → (t : HttpTemplate) × (k : Str) × (d : MethodData Str) × IsSource t k d (registrations config)
      × (d.method ≡ operation)
      × IsAnswering method k
      × Matches (transform_http_template t) (parts absl (registrations config) method path)
unfolding decode_headers
decode_headers-goes_on absl has_underscore config made method path stats {operation} accepted e =
    let found = decode_operation-goes_on absl has_underscore made method path stats _ e in
    lookup_sound absl (registrations config) method path operation (
      ap (λ m. lookup absl m method path) (sym (new_filter_config-matcher config made accepted))
      ∙ found)

-- A request is rejected only if no configured template, whose verb is no wildcard, matches the parts
-- of its path for its method or for `*`.
pub decode_headers-rejected :
    (absl : StrSplit) (has_underscore : Str → Bool) (config : Config) (made : FilterConfig)
    (method path : Str) (stats : Stats) (t : HttpTemplate) (k : Str) {code : ℕ} {message : Str}
    {stats' : Stats}
    → new_filter_config config ≡ some made
    → decode_headers absl has_underscore made method path stats
      ≡ some (rejected code message, stats')
    → IsRegistered (registrations config) t k
    → is_parameter_key t.verb ≡ false
    → IsAnswering method k
    → ¬ Matches (transform_http_template t) (parts absl (registrations config) method path)
unfolding decode_headers
decode_headers-rejected absl has_underscore config made method path stats t k accepted e registered
      plain answering matches =
    let missing = decode_operation-rejected absl has_underscore made method path stats _ e in
    let none_found =
      ap (λ m. lookup absl m method path) (sym (new_filter_config-matcher config made accepted))
      ∙ missing in
    cc (
      sym (ap is_some none_found)
      ∙ lookup_complete absl (registrations config) method path t k registered plain answering
          matches)

-- ===== src/PathMatcher/Filter.antt =====
-- src/envoy/http/path_matcher/filter.cc and filter_config.{h,cc}: the filter that leaves the
-- operation of a request in the filter state. An operation is its name: the matcher of the source
-- holds pointers to names.
pub mod Routes
mod Tests
use esp_v.Base.{
  ℕ, ◌+◌, Str, codes, if◌then◌else◌, insert_new, Bool, not, Option, none, some, List, [], ◌∷◌,
}
use esp_v.PathMatcher.RequestPath.Split.{StrSplit, contains}
use esp_v.PathMatcher.RequestPath.Bindings.{VariableBinding, variable_bindings_to_query_parameters}
use esp_v.PathMatcher.Matcher.{
  PathMatcherBuilder, PathMatcher, new_builder, register, build, lookup, lookup_with_bindings,
}

-- `PathMatcherRule` with its pattern
pub record Rule : Type 0 where
  pub http_method : Str
  pub uri_template : Str
  pub operation : Str
  pub extract_path_parameters : Bool

-- The messages of `FilterConfig`: its rules, and the segment names (snake and JSON).
pub record Config : Type 0 where
  pub rules : List Rule
  pub segment_names : List (Str × Str)

pub record FilterConfig : Type 0 where
  pub path_matcher : PathMatcher Str
  pub path_params_operations : List Str
  pub snake_to_json_map : List (Str × Str)

-- The registrations of the constructor; `none` is its exception.
unfoldable pub register_rules : List Rule → PathMatcherBuilder Str → Option (PathMatcherBuilder Str)
register_rules [] b = some b
register_rules (rule ∷ rules) b =
    let done = register b rule.http_method rule.uri_template [] rule.operation in
    let rest = register_rules rules done.0 in if done.1 then rest else none

-- `path_params_operations_`
unfoldable pub params_operations : List Rule → List Str
params_operations [] = []
params_operations (rule ∷ rules) =
    let rest = params_operations rules in
    if rule.extract_path_parameters then rule.operation ∷ rest else rest

unfoldable pub emplace_names : List (Str × Str) → List (Str × Str) → List (Str × Str)
emplace_names [] names = names
emplace_names ((snake, json) ∷ others) names = emplace_names others (insert_new snake json names)

abbrev pub config_of : Config → Option (PathMatcherBuilder Str) → Option FilterConfig
config_of config none = none
config_of config (some b) = some (record {
  path_matcher = build b;
  path_params_operations = params_operations config.rules;
  snake_to_json_map = emplace_names config.segment_names [];
})

-- The constructor of `FilterConfig`.
unfoldable pub new_filter_config : Config → Option FilterConfig
new_filter_config config = config_of config (register_rules config.rules new_builder)

-- `needParameterExtraction`
unfoldable pub need_parameter_extraction : FilterConfig → Str → Bool
need_parameter_extraction config operation = contains config.path_params_operations operation

-- What the filter does to a request: it goes on with its filter state, or gets a local reply.
pub data Answer : Type 0 where
  goes_on : (operation query_params : Str) → Answer
  rejected : ℕ → Str → Answer

pub record Stats : Type 0 where
  pub allowed : ℕ
  pub denied : ℕ

-- `rejectRequest`
unfoldable pub reject_request : ℕ → Str → Stats → Answer × Stats
reject_request code message stats =
    (rejected code message, record stats { denied = stats.denied + 1 })

-- The query parameters of bindings; without bindings they are not set.
abbrev pub params_of : (Str → Bool) → FilterConfig → List VariableBinding → Str
params_of has_underscore config [] = []
params_of has_underscore config (b ∷ bs) =
    variable_bindings_to_query_parameters has_underscore (b ∷ bs) config.snake_to_json_map

abbrev pub query_of_answer :
    (Str → Bool) → FilterConfig → Option (Option Str × List VariableBinding) → Option Str
query_of_answer has_underscore config none = none
query_of_answer has_underscore config (some (operation, bindings)) =
    some (params_of has_underscore config bindings)

module _ (absl : StrSplit) (has_underscore : Str → Bool) (config : FilterConfig) where
  -- The query parameters of `decodeHeaders` for an operation; a read out of range is `none`.
  unfoldable pub query_params : Str → Str → Str → Option Str
  query_params method path operation =
      let answer = lookup_with_bindings absl config.path_matcher method path [] in
      if need_parameter_extraction config operation
      then query_of_answer has_underscore config answer
      else some []

  abbrev pub let_pass : Stats → Str → Option Str → Option (Answer × Stats)
  let_pass stats operation none = none
  let_pass stats operation (some query) =
      some (goes_on operation query, record stats { allowed = stats.allowed + 1 })

  -- `decodeHeaders` behind `findOperation`.
  unfoldable pub decode_operation : Str → Str → Stats → Option Str → Option (Answer × Stats)
  decode_operation method path stats none =
      some (reject_request 404 (codes "Path does not match any requirement URI template.") stats)
  decode_operation method path stats (some operation) =
      let_pass stats operation (query_params method path operation)

  -- `decodeHeaders`, of the request's method (with its override) and path.
  unfoldable pub decode_headers : Str → Str → Stats → Option (Answer × Stats)
  decode_headers method path stats =
      decode_operation method path stats (lookup absl config.path_matcher method path)

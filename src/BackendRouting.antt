-- ===== src/BackendRouting.antt =====
-- src/envoy/http/backend_routing/filter.cc: the path that a backend gets. The filter state of Envoy
-- and the path header are the record Request; the filter always lets the request go on.
pub mod Paths
mod Tests
use esp_v.Base.{
  ℕ, ◌+◌, Str, is_empty, ◌==◌, if◌then◌else◌, Bool, Option, none, some, List, [], lookup, insert,
  ◌∷◌, ◌++◌,
}

-- `BackendRoutingRule`
pub record Rule : Type 0 where
  pub operation : Str
  pub path_prefix : Str
  pub is_const_address : Bool

pub record Stats : Type 0 where
  pub constant_address_request : ℕ
  pub append_path_to_address_request : ℕ

-- The loop of the constructor of `FilterConfig`.
unfoldable pub index_rules : List Rule → List (Str × Rule) → List (Str × Rule)
index_rules [] rules_map = rules_map
index_rules (rule ∷ rules) rules_map = index_rules rules (insert rule.operation rule rules_map)

-- `findRule`
unfoldable pub find_rule : List Rule → Str → Option Rule
find_rule rules operation = lookup operation (index_rules rules [])

-- `headers.Path()`, and the strings `kOperation` and `kQueryParams` of the filter state.
pub record Request : Type 0 where
  pub path : Option Str
  pub operation : Str
  pub query_params : Str

-- `path.substr(path.find(c))`, where there is one.
unfoldable pub from_first : ℕ → Str → Option Str
from_first c [] = none
from_first c (d ∷ s) = let rest = from_first c s in if d == c then some (d ∷ s) else rest

-- The new path of a constant address, by the query of the original path.
unfoldable pub with_query : Str → Str → Option Str → Str
with_query prefix params (some query) =
    if is_empty params then prefix ++ query else (prefix ++ query) ++ b'&' ∷ params
with_query prefix params none = if is_empty params then prefix else prefix ++ b'?' ∷ params

-- The new path by a rule.
unfoldable pub new_path : Rule → Str → Str → Str
new_path rule params original =
    if rule.is_const_address
    then with_query rule.path_prefix params (from_first b'?' original)
    else rule.path_prefix ++ original

unfoldable pub count : Rule → Stats → Stats
count rule stats =
    if rule.is_const_address
    then record stats { constant_address_request = stats.constant_address_request + 1 }
    else record stats { append_path_to_address_request = stats.append_path_to_address_request + 1 }

-- The end of `decodeHeaders`, by the path header.
unfoldable pub reroute : Rule → Option Str → Request → Stats → Request × Stats
reroute rule none request stats = (request, stats)
reroute rule (some original) request stats =
    (record request { path = some (new_path rule request.query_params original) }, count rule stats)

-- The middle of `decodeHeaders`, by the rule of the operation.
unfoldable pub route : Option Rule → Request → Stats → Request × Stats
route none request stats = (request, stats)
route (some rule) request stats = reroute rule request.path request stats

-- `decodeHeaders`
unfoldable pub decode_headers : List Rule → Request → Stats → Request × Stats
decode_headers rules request stats =
    if is_empty request.operation
    then (request, stats)
    else route (find_rule rules request.operation) request stats

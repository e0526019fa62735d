-- ===== src/BackendAuth.antt =====
-- src/envoy/http/backend_auth: the filter that gives the backend a token for its audience, and the
-- tokens, which subscribers deliver to all threads. Subscribers are of the token library and headers
-- of Envoy: both are parameters.
pub mod Rules
pub mod Delivered
pub mod Authorized
mod Tests
use esp_v.Base.{
  ℕ, ◌+◌, Str, codes, is_empty, str_eq, is_some, if◌then◌else◌, Option, none, some, List, [], ◌∷◌,
  ◌++◌, map, lookup, insert, ◌≡◌,
}

-- `BackendAuthRule`
pub record Rule : Type 0 where
  pub operation : Str
  pub jwt_audience : Str

-- The address of a server of tokens.
pub record HttpUri : Type 0 where
  pub uri : Str
  pub cluster : Str

-- `id_token_info_case()`. `iam_token` has the remote access token, if it is one, and its delegates.
pub data IdTokenInfo : Type 0 where
  iam_token : HttpUri → Option HttpUri → List Str → IdTokenInfo
  imds_token : HttpUri → IdTokenInfo
  id_token_not_set : IdTokenInfo

pub record Config : Type 0 where
  pub rules : List Rule
  pub id_token_info : IdTokenInfo

-- What a subscriber is made with: its kind, its cluster and address, and the delegates.
pub data Subscription : Type 0 where
  iam_subscription imds_subscription : (cluster uri : Str) → List Str → Subscription

-- `AudienceContext`: its subscriber, and the token that each thread holds; a null pointer is `none`.
pub record AudienceContext : Type 0 where
  pub subscription : Option Subscription
  pub tokens : List (Str × Option Str)

-- The subscriber of an audience.
unfoldable pub subscription_of : IdTokenInfo → Str → Option Subscription
subscription_of (iam_token server access delegates) audience =
    some
      (iam_subscription server.cluster (server.uri ++ (codes "?audience=" ++ audience)) delegates)
subscription_of (imds_token server) audience = some (
    imds_subscription server.cluster
      (server.uri ++ (codes "?format=standard&audience=" ++ audience)) [])
subscription_of id_token_not_set audience = none

abbrev pub new_tokens : List Str → List (Str × Option Str)
new_tokens threads = map (λ thread. (thread, none)) threads

-- The constructor of `AudienceContext`, on named threads.
unfoldable pub new_context : IdTokenInfo → List Str → Str → AudienceContext
new_context info threads audience = record {
  subscription = subscription_of info audience;
  tokens = new_tokens threads;
}

pub record Parser : Type 0 where
  pub access_token : Str
  pub access_token_sub : Option Subscription
  pub operation_map : List (Str × Str)
  pub audience_map : List (Str × AudienceContext)

-- One round of the loop of the constructor.
unfoldable pub add_rule : IdTokenInfo → List Str → Rule → Parser → Parser
add_rule info threads rule p = record p {
  operation_map = insert rule.operation rule.jwt_audience p.operation_map;
  audience_map =
      if is_some (lookup rule.jwt_audience p.audience_map)
      then p.audience_map
      else insert rule.jwt_audience (new_context info threads rule.jwt_audience) p.audience_map;
}

unfoldable pub add_rules : IdTokenInfo → List Str → List Rule → Parser → Parser
add_rules info threads [] p = p
add_rules info threads (rule ∷ rules) p =
    add_rules info threads rules (add_rule info threads rule p)

abbrev pub empty_parser : Option Subscription → Parser
empty_parser sub = record {
  access_token = [];
  access_token_sub = sub;
  operation_map = [];
  audience_map = [];
}

-- The constructor of `FilterConfigParserImpl`, which ends at once for an access token of another kind.
unfoldable pub parser_by : Config → List Str → IdTokenInfo → Parser
parser_by config threads (iam_token server (some access) delegates) =
    add_rules config.id_token_info threads config.rules
      (empty_parser (some (imds_subscription access.cluster access.uri [])))
parser_by config threads (iam_token server none delegates) = empty_parser none
parser_by config threads (imds_token server) =
    add_rules config.id_token_info threads config.rules (empty_parser none)
parser_by config threads id_token_not_set =
    add_rules config.id_token_info threads config.rules (empty_parser none)

abbrev pub new_parser : Config → List Str → Parser
new_parser config threads = parser_by config threads config.id_token_info

-- What a subscriber delivers: the access token, or the token of an audience.
pub data TokenEvent : Type 0 where
  access_token_delivered : Str → TokenEvent
  id_token_delivered : (audience token : Str) → TokenEvent

-- `UpdateTokenCallback`
unfoldable pub set_token : Str → AudienceContext → AudienceContext
set_token token context = record context {
  tokens = map (λ held. (held.0, some token)) context.tokens;
}

-- The tokens of an audience's context.
unfoldable pub deliver_to : Str → Str → List (Str × AudienceContext) → List (Str × AudienceContext)
deliver_to audience token [] = []
deliver_to audience token ((named, context) ∷ contexts) =
    if str_eq named audience
    then (named, set_token token context) ∷ contexts
    else (named, context) ∷ deliver_to audience token contexts

unfoldable pub on_token : TokenEvent → Parser → Parser
on_token (access_token_delivered token) p = record p { access_token = token }
on_token (id_token_delivered audience token) p = record p {
  audience_map = deliver_to audience token p.audience_map;
}

abbrev pub audience_or_empty : Option Str → Str
audience_or_empty none = []
audience_or_empty (some audience) = audience

-- `getAudience`
unfoldable pub get_audience : Parser → Str → Str
get_audience p operation = audience_or_empty (lookup operation p.operation_map)

abbrev pub held_token : Option (Option Str) → Option Str
held_token none = none
held_token (some token) = token

-- `AudienceContext::token`, on a thread, of a context that is there.
abbrev pub token_on : Str → Option AudienceContext → Option Str
token_on thread none = none
token_on thread (some context) = held_token (lookup thread context.tokens)

-- `getJwtToken`, on a thread.
unfoldable pub get_jwt_token : Str → Parser → Str → Option Str
get_jwt_token thread p audience = token_on thread (lookup audience p.audience_map)

-- The header map of Envoy: all values under a name; `remove` takes them all away, `addCopy` gives a
-- name without values its value, and other names keep theirs.
pub record HeaderMap (H : Type 0) : Type 0 where
  pub values : Str → H → List Str
  pub remove : Str → H → H
  pub add_copy : Str → Str → H → H
  pub values-remove :
      (name asked : Str) (h : H)
      → values asked (remove name h) ≡ (if str_eq asked name then [] else values asked h)
  pub values-add_copy :
      (name asked value : Str) (h : H)
      → values name h ≡ []
      → values asked (add_copy name value h)
        ≡ (if str_eq asked name then value ∷ [] else values asked h)

-- What the filter does: it goes on with the headers, or sends a local reply.
pub data Answer (H : Type 0) : Type 0 where
  goes_on : H → Answer H
  refused : ℕ → Str → Answer H

-- `token_added` counts.
pub record Stats : Type 0 where
  pub token_added : ℕ

abbrev pub authorization : Str
authorization = codes "authorization"

module _ {H : Type 0} (map : HeaderMap H) where
  unfoldable pub authorize : Str → H → H
  authorize token h =
      map.add_copy authorization (codes "Bearer " ++ token) (map.remove authorization h)

  -- The end of `decodeHeaders`, behind `getJwtToken`.
  unfoldable pub with_token : Option Str → H → Stats → Answer H × Stats
  with_token none h stats = (refused 500 (codes "missing tokens"), stats)
  with_token (some token) h stats =
      (goes_on (authorize token h), record stats { token_added = stats.token_added + 1 })

  -- `decodeHeaders` of a thread, for the operation of the filter state.
  unfoldable pub decode_headers : Parser → Str → Str → H → Stats → Answer H × Stats
  decode_headers p thread operation h stats =
      let audience = get_audience p operation in
      if is_empty operation
      then (goes_on h, stats)
      else if is_empty audience
      then (goes_on h, stats)
      else with_token (get_jwt_token thread p audience) h stats

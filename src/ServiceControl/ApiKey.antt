-- ===== src/ServiceControl/ApiKey.antt =====
-- src/envoy/http/service_control/handler_utils.cc: `extractAPIKey`.
-- The header map and its parsers are Envoy's: a record of what they answer for one request.
pub mod Laws
mod Tests
use esp_v.Base.{Str, is_empty, lookup, if◌then◌else◌, Option, none, some, List, [], ◌∷◌}

pub record RequestHeaders : Type 0 where
  -- `headers.Path()`, null as `none`
  pub path : Option Str
  -- `headers.get(LowerCaseString(name))`
  pub get : Str → Option Str
  -- `Http::Utility::parseCookieValue`
  pub cookie : Str → Str
  -- `Http::Utility::parseQueryString`
  pub parse_query : Str → List (Str × Str)

pub data ApiKeyLocation : Type 0 where
  query header cookie : Str → ApiKeyLocation
  key_not_set : ApiKeyLocation

-- `were_params_parsed` and `parsed_params`: the parameters once they are parsed.
abbrev pub Params : Type 0
Params = Option (List (Str × Str))

module _ (headers : RequestHeaders) where
  -- `extractAPIKeyFromQuery`, after the parameters are there.
  unfoldable pub key_in_params : Str → List (Str × Str) → Option Str
  key_in_params name params = lookup name params

  -- The cache of the parameters after `extractAPIKeyFromQuery`.
  unfoldable pub parse_params : Params → Params
  parse_params (some params) = some params
  parse_params none = elim (headers.path) [ none ↦ none | some p ↦ some (headers.parse_query p) ]

  -- `extractAPIKeyFromQuery`: the key, if it answers true.
  unfoldable pub extract_api_key_from_query : Str → Params → Option Str
  extract_api_key_from_query name params = elim (parse_params params) [
    | none ↦ none
    | some ps ↦ key_in_params name ps
  ]

  unfoldable pub extract_api_key_from_header : Str → Option Str
  extract_api_key_from_header name = headers.get name

  unfoldable pub extract_api_key_from_cookie : Str → Option Str
  extract_api_key_from_cookie name =
      if is_empty (headers.cookie name) then none else some (headers.cookie name)

  -- The `switch` of `extractAPIKey` at a location.
  unfoldable pub extract_at : ApiKeyLocation → Params → Option Str
  extract_at (query name) params = extract_api_key_from_query name params
  extract_at (header name) params = extract_api_key_from_header name
  extract_at (cookie name) params = extract_api_key_from_cookie name
  extract_at key_not_set params = none

  unfoldable pub params_after : ApiKeyLocation → Params → Params
  params_after (query name) params = parse_params params
  params_after (header name) params = params
  params_after (cookie name) params = params
  params_after key_not_set params = params

  -- The loop of `extractAPIKey`; `none` is the answer false, which leaves the key as it is.
  unfoldable pub extract_api_key_from : List ApiKeyLocation → Params → Option Str
  extract_api_key_from [] params = none
  extract_api_key_from (location ∷ locations) params =
      let rest = extract_api_key_from locations (params_after location params) in
      elim (extract_at location params) [ none ↦ rest | some key ↦ some key ]

  unfoldable pub extract_api_key : List ApiKeyLocation → Option Str
  extract_api_key locations = extract_api_key_from locations none

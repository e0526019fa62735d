-- ===== src/ServiceControl/ApiKey/Laws.antt =====
-- `extractAPIKey` against its description without the cache of the query parameters.
use esp_v.Base.{
  Str, is_empty, lookup, if◌then◌else◌, Option, none, some, List, [], ◌∷◌, ◌≡◌, ◌⊎◌, inl, inr, refl,
  arith, Option-cases,
}
use esp_v.ServiceControl.ApiKey.{
  RequestHeaders, ApiKeyLocation, query, header, cookie, key_not_set, Params, key_in_params,
  parse_params, extract_api_key_from_query, extract_api_key_from_header,
  extract_api_key_from_cookie, extract_at, params_after, extract_api_key_from, extract_api_key,
}

module _ (headers : RequestHeaders) where
  -- The key at a location: the query parameter, the header, or the cookie that is not empty.
  unfoldable pub key_at : ApiKeyLocation → Option Str
  key_at (query name) = elim (headers.path) [
    | none ↦ none
    | some p ↦ lookup name (headers.parse_query p)
  ]
  key_at (header name) = headers.get name
  key_at (cookie name) = if is_empty (headers.cookie name) then none else some (headers.cookie name)
  key_at key_not_set = none

  -- The first location that has a key.
  unfoldable pub first_key : List ApiKeyLocation → Option Str
  first_key [] = none
  first_key (location ∷ locations) = elim (key_at location) [
    | none ↦ first_key locations
    | some key ↦ some key
  ]

  -- The cache holds the parameters of the path.
  abbrev IsCache : Params → Type 0
  IsCache params =
      (params ≡ none)
      ⊎ ((p : Str) × (headers.path ≡ some p) × (params ≡ some (headers.parse_query p)))

  extract_at-eq-key_at :
      (location : ApiKeyLocation) (params : Params)
      → IsCache params
      → extract_at headers location params ≡ key_at location
  unfolding extract_at key_at extract_api_key_from_query extract_api_key_from_header
      extract_api_key_from_cookie parse_params key_in_params
  extract_at-eq-key_at (query name) params (inl e) = ground (arith, e)
  extract_at-eq-key_at (query name) params (inr (p, path, e)) = ground (arith, path, e)
  extract_at-eq-key_at (header name) params h = refl
  extract_at-eq-key_at (cookie name) params h = refl
  extract_at-eq-key_at key_not_set params h = refl

  parse_params-IsCache : (params : Params) → IsCache params → IsCache (parse_params headers params)
  unfolding parse_params
  parse_params-IsCache (some ps) h = h
  parse_params-IsCache none h = elim (Option-cases (headers.path)) [
    | inl e ↦ inl (ground (arith, e))
    | inr (p, e) ↦ inr (p, e, ground (arith, e))
  ]

  params_after-IsCache :
      (location : ApiKeyLocation) (params : Params)
      → IsCache params
      → IsCache (params_after headers location params)
  unfolding params_after
  params_after-IsCache (query name) params h = parse_params-IsCache params h
  params_after-IsCache (header name) params h = h
  params_after-IsCache (cookie name) params h = h
  params_after-IsCache key_not_set params h = h

  extract_api_key_from-first_key :
      (locations : List ApiKeyLocation) (params : Params)
      → IsCache params
      → extract_api_key_from headers locations params ≡ first_key locations
  unfolding extract_api_key_from first_key
  extract_api_key_from-first_key [] params h = refl
  extract_api_key_from-first_key (location ∷ locations) params h =
      let ih =
        extract_api_key_from-first_key locations (params_after headers location params)
          (params_after-IsCache location params h) in
      ground (arith, ih, extract_at-eq-key_at location params h)

  -- The key is that of the first location that has one, in the order of the configuration: parsing
  -- the query once for all locations changes nothing.
  pub extract_api_key-first_key :
      (locations : List ApiKeyLocation) → extract_api_key headers locations ≡ first_key locations
  unfolding extract_api_key
  extract_api_key-first_key locations = extract_api_key_from-first_key locations none (inl refl)

-- ===== src/ServiceControl/Call.antt =====
-- src/envoy/http/service_control/service_control_call_impl.{h,cc}: the tokens of the calls, one pair
-- on each thread, and the requests that are built for the client cache. The subscribers and
-- generators of tokens are of the token library: what they deliver is an event.
pub mod Tokens
pub mod Reported
mod Tests
use esp_v.Base.{
  Str, codes, if◌then◌else◌, Bool, true, false, Option, none, some, List, [], ◌∷◌, map,
}
use esp_v.ServiceControl.Info.{CheckRequestInfo, QuotaRequestInfo, ReportRequestInfo}
use esp_v.ServiceControl.RequestBuilder.Proto.{
  new_operation, CheckRequest, AllocateQuotaRequest, ReportRequest,
}
use esp_v.ServiceControl.RequestBuilder.Metrics.{DistributionHelper}
use esp_v.ServiceControl.RequestBuilder.Labels.{Externals}
use esp_v.ServiceControl.RequestBuilder.Builder.{
  RequestBuilder, new_request_builder, new_request_builder_with,
}
use esp_v.ServiceControl.RequestBuilder.Fill.{
  fill_check_request, fill_allocate_quota_request, fill_report_request,
}
use esp_v.ServiceControl.LogsMetrics.{Service, load}

-- `filter_config.access_token_case()`; `iam_token` says whether its access token is a remote one.
pub data AccessToken : Type 0 where
  imds_token service_account_secret token_not_set : AccessToken
  iam_token : Bool → AccessToken

-- The tokens of a `ThreadLocalCache`; a null pointer is `none`.
pub record ThreadLocalCache : Type 0 where
  pub sc_token_ptr : Option Str
  pub quota_token_ptr : Option Str

abbrev pub token_or_empty : Option Str → Str
token_or_empty none = []
token_or_empty (some token) = token

-- `sc_token` and `quota_token`, what the calls send.
unfoldable pub sc_token : ThreadLocalCache → Str
sc_token cache = token_or_empty cache.sc_token_ptr

unfoldable pub quota_token : ThreadLocalCache → Str
quota_token cache = token_or_empty cache.quota_token_ptr

unfoldable pub set_sc_token : Str → ThreadLocalCache → ThreadLocalCache
set_sc_token token cache = record cache { sc_token_ptr = some token }

unfoldable pub set_quota_token : Str → ThreadLocalCache → ThreadLocalCache
set_quota_token token cache = record cache { quota_token_ptr = some token }

abbrev pub set_both : Str → ThreadLocalCache → ThreadLocalCache
set_both token cache = set_quota_token token (set_sc_token token cache)

-- The threads' caches, and the access token with which the IAM server is asked.
pub record CallState : Type 0 where
  pub threads : List ThreadLocalCache
  pub access_token_for_iam : Str

-- What a subscriber or generator delivers.
pub data TokenEvent : Type 0 where
  imds_delivers sc_generator_delivers quota_generator_delivers : Str → TokenEvent
  iam_access_delivers iam_delivers : Str → TokenEvent

-- `runOnAllThreads`
unfoldable pub run_on_all_threads : (ThreadLocalCache → ThreadLocalCache) → CallState → CallState
run_on_all_threads update s = record s { threads = map update s.threads }

-- The callbacks of `createImdsTokenSub`, `createTokenGen` and `createIamTokenSub`.
unfoldable pub on_token : TokenEvent → CallState → CallState
on_token (imds_delivers token) s = run_on_all_threads (set_both token) s
on_token (sc_generator_delivers token) s = run_on_all_threads (set_sc_token token) s
on_token (quota_generator_delivers token) s = run_on_all_threads (set_quota_token token) s
on_token (iam_access_delivers token) s = record s { access_token_for_iam = token }
on_token (iam_delivers token) s = run_on_all_threads (set_both token) s

-- Whether the subscriber of an event has been created, by the access token that is configured.
unfoldable pub is_subscribed : AccessToken → TokenEvent → Bool
is_subscribed imds_token (imds_delivers token) = true
is_subscribed imds_token (sc_generator_delivers token) = false
is_subscribed imds_token (quota_generator_delivers token) = false
is_subscribed imds_token (iam_access_delivers token) = false
is_subscribed imds_token (iam_delivers token) = false
is_subscribed service_account_secret (imds_delivers token) = false
is_subscribed service_account_secret (sc_generator_delivers token) = true
is_subscribed service_account_secret (quota_generator_delivers token) = true
is_subscribed service_account_secret (iam_access_delivers token) = false
is_subscribed service_account_secret (iam_delivers token) = false
is_subscribed (iam_token remote) (imds_delivers token) = false
is_subscribed (iam_token remote) (sc_generator_delivers token) = false
is_subscribed (iam_token remote) (quota_generator_delivers token) = false
is_subscribed (iam_token remote) (iam_access_delivers token) = true
is_subscribed (iam_token remote) (iam_delivers token) = true
is_subscribed token_not_set event = false

-- The service configuration in the filter's configuration: absent, or what `UnpackTo` gives.
pub data ServiceConfig : Type 0 where
  no_service_config bad_service_config : ServiceConfig
  service_config : Service → ServiceConfig

-- `request_builder_` that the constructor makes; `none` is its exception.
unfoldable pub request_builder_for : ServiceConfig → Str → Str → Option RequestBuilder
request_builder_for no_service_config name id =
    some (new_request_builder (codes "endpoints_log" ∷ []) name id)
request_builder_for bad_service_config name id = none
request_builder_for (service_config service) name id =
    let loaded = load service in some (new_request_builder_with loaded.0 loaded.1 loaded.2 name id)

-- Whether the constructor gets its tokens: `createIamTokenSub` throws without a remote token.
unfoldable pub has_token_source : AccessToken → Bool
has_token_source imds_token = true
has_token_source service_account_secret = true
has_token_source (iam_token remote) = remote
has_token_source token_not_set = true

abbrev pub new_cache : ThreadLocalCache
new_cache = record { sc_token_ptr = none; quota_token_ptr = none }

abbrev pub caches : List Str → List ThreadLocalCache
caches threads = map (λ thread. new_cache) threads

-- The constructor, for named threads: the state and the builder, or `none` for an exception.
unfoldable pub new_call :
    AccessToken → ServiceConfig → Str → Str → List Str → Option (CallState × RequestBuilder)
new_call access config name id threads = elim (request_builder_for config name id) [
  | none ↦ none
  | some b ↦
      if has_token_source access
      then some (record { threads = caches threads; access_token_for_iam = [] }, b)
      else none
]

module _ {D : Type 0} (helper : DistributionHelper D) (ext : Externals) (b : RequestBuilder) where
  abbrev pub check_or_empty : Option (CheckRequest D) → CheckRequest D
  check_or_empty none = record {
    service_name = [];
    service_config_id = [];
    operation = new_operation;
  }
  check_or_empty (some request) = request

  -- What `callCheck`, `callQuota` and `callReport` give to the client cache; the status of the
  -- builder is dropped.
  unfoldable pub check_request : CheckRequestInfo → CheckRequest D
  check_request info = check_or_empty (fill_check_request helper ext b info).1

  unfoldable pub quota_request : QuotaRequestInfo → AllocateQuotaRequest D
  quota_request info = fill_allocate_quota_request helper ext b info

  unfoldable pub report_request : ReportRequestInfo → ReportRequest D
  report_request info = (fill_report_request helper ext b info).1

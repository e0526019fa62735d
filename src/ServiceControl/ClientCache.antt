-- ===== src/ServiceControl/ClientCache.antt =====
-- src/envoy/http/service_control/client_cache.cc: the calls to the service control server behind the
-- cache of the client library. The library is a parameter: what it hands to the callbacks. `R` is
-- the type of a parsed response.
pub mod Policy
mod Tests
use esp_v.Base.{ℕ, suc, Str, codes, if◌then◌else◌, ◌≡◌, Bool, true, Option, none, some, ◌++◌}
use esp_v.ServiceControl.Info.{Status, ok_status, is_ok, CheckResponseInfo, no_response_info}
use esp_v.ServiceControl.RequestBuilder.Convert.{
  CheckResponse, convert_check_response, AllocateQuotaResponse, convert_allocate_quota_response,
}

-- `sc_calling_config`: its optional fields.
pub record ScCallingConfig : Type 0 where
  pub network_fail_open : Option Bool
  pub check_timeout_ms : Option ℕ
  pub quota_timeout_ms : Option ℕ
  pub report_timeout_ms : Option ℕ
  pub check_retries : Option ℕ
  pub quota_retries : Option ℕ
  pub report_retries : Option ℕ

-- What `InitHttpRequestSetting` sets.
pub record HttpRequestSetting : Type 0 where
  pub network_fail_open : Bool
  pub check_timeout_ms : ℕ
  pub quota_timeout_ms : ℕ
  pub report_timeout_ms : ℕ
  pub check_retries : ℕ
  pub quota_retries : ℕ
  pub report_retries : ℕ

abbrev pub default_setting : HttpRequestSetting
default_setting = record {
  network_fail_open = true;
  check_timeout_ms = 1000;
  quota_timeout_ms = 1000;
  report_timeout_ms = 2000;
  check_retries = 3;
  quota_retries = 1;
  report_retries = 5;
}

abbrev pub value_or {ℓ} : {A : Type ℓ} → A → Option A → A
value_or default none = default
value_or default (some value) = value

-- `InitHttpRequestSetting`
unfoldable pub init_http_request_setting : Option ScCallingConfig → HttpRequestSetting
init_http_request_setting none = default_setting
init_http_request_setting (some config) = record {
  network_fail_open = value_or true config.network_fail_open;
  check_timeout_ms = value_or 1000 config.check_timeout_ms;
  quota_timeout_ms = value_or 1000 config.quota_timeout_ms;
  report_timeout_ms = value_or 2000 config.report_timeout_ms;
  check_retries = value_or 3 config.check_retries;
  quota_retries = value_or 1 config.quota_retries;
  report_retries = value_or 5 config.report_retries;
}

-- An `HttpCallFactory` by what it is made with.
pub record CallFactory : Type 0 where
  pub suffix : Str
  pub timeout_ms : ℕ
  pub retries : ℕ

-- The factories that the constructor makes: for checks, quota and reports.
unfoldable pub call_factories : Str → HttpRequestSetting → CallFactory × CallFactory × CallFactory
call_factories service_name setting = (
  record {
    suffix = service_name ++ codes ":check";
    timeout_ms = setting.check_timeout_ms;
    retries = setting.check_retries;
  },
  record {
    suffix = service_name ++ codes ":allocateQuota";
    timeout_ms = setting.quota_timeout_ms;
    retries = setting.quota_retries;
  },
  record {
    suffix = service_name ++ codes ":report";
    timeout_ms = setting.report_timeout_ms;
    retries = setting.report_retries;
  },
)

-- The options of the client's caches: entries, flush interval and expiration in milliseconds.
pub record AggregationOptions : Type 0 where
  pub num_entries : ℕ
  pub flush_interval_ms : ℕ
  pub expiration_ms : Option ℕ

abbrev pub get_check_aggregation_options : AggregationOptions
get_check_aggregation_options = record {
  num_entries = 10000;
  flush_interval_ms = 60000;
  expiration_ms = some 300000;
}

abbrev pub get_quota_aggregation_options : AggregationOptions
get_quota_aggregation_options = record {
  num_entries = 10000;
  flush_interval_ms = 1000;
  expiration_ms = none;
}

abbrev pub get_report_aggregation_options : AggregationOptions
get_report_aggregation_options = record {
  num_entries = 10000;
  flush_interval_ms = 1000;
  expiration_ms = none;
}

-- `EnvoyPeriodicTimer`: the timer while it is there and armed, and how often it has called back.
pub record EnvoyPeriodicTimer : Type 0 where
  pub interval_ms : ℕ
  pub armed : Option Bool
  pub calls : ℕ

unfoldable pub new_timer : ℕ → EnvoyPeriodicTimer
new_timer interval_ms = record { interval_ms = interval_ms; armed = some true; calls = 0 }

-- The timer fires: `call`.
unfoldable pub fire : EnvoyPeriodicTimer → EnvoyPeriodicTimer
fire timer = elim (timer.armed) [
  | none ↦ timer
  | some armed ↦ record timer { armed = some true; calls = suc timer.calls }
]

-- `Stop`
unfoldable pub stop : EnvoyPeriodicTimer → EnvoyPeriodicTimer
stop timer = record timer { armed = none }

abbrev pub invalid_response : Status
invalid_response = record { code = 3; message = codes "Invalid response" }

abbrev pub parsed {ℓ} : {R : Type ℓ} → Option R → Status × Option R
parsed none = (invalid_response, none)
parsed (some response) = (ok_status, some response)

-- The callback of a transport: what it hands to `on_done`, with the response it has parsed.
-- `parse` is `ParseFromString`.
unfoldable pub transport_done {ℓ} :
    {R : Type ℓ} → (Str → Option R) → Status → Str → Status × Option R
transport_done parse status body = if is_ok status then parsed (parse body) else (status, none)

-- A `ClientCache` by what its calls read.
pub record ClientCache : Type 0 where
  pub service_name : Str
  pub setting : HttpRequestSetting

-- The callback that `callCheck` gives to `client_->Check`: what it hands to `on_done`.
unfoldable pub check_done : ClientCache → Status → CheckResponse → Status × CheckResponseInfo
check_done cache status response =
    if is_ok status
    then convert_check_response response cache.service_name no_response_info
    else if cache.setting.network_fail_open
    then (ok_status, no_response_info)
    else (status, no_response_info)

-- The callback that `callQuota` gives to `client_->Quota`.
unfoldable pub quota_done : Status → AllocateQuotaResponse → Status
quota_done status response =
    if is_ok status then convert_allocate_quota_response response else status

-- What the code relies on of the client library for a check that is not in its cache: the status of
-- the transport, and the response that it has parsed, reach the callback.
pub record CheckClient : Type 0 where
  pub hand_over : Status × Option CheckResponse → Status × CheckResponse
  pub hands_status :
      (status : Status) (response : Option CheckResponse)
      → (hand_over (status, response)).0 ≡ status
  pub hands_response :
      (status : Status) (response : CheckResponse)
      → (hand_over (status, some response)).1 ≡ response

-- A check by the transport of `callCheck`: what reaches `on_done`.
unfoldable pub check_by_transport :
    CheckClient
    → ClientCache
    → (Str → Option CheckResponse)
    → Status
    → Str
    → Status × CheckResponseInfo
check_by_transport client cache parse status body =
    let handed = client.hand_over (transport_done parse status body) in
    check_done cache handed.0 handed.1

-- ===== src/ServiceControl/Report.antt =====
-- src/envoy/http/service_control/handler_impl.cc: the final and the intermediate reports, and what the
-- check and the quota calls are given. Sizes are
-- `uint64_t`; times are nanoseconds.
pub mod Times
pub mod Tests
use esp_v.Base.{
  ℕ, ◌+◌, ◌-◌, ◌/◌, ◌%◌, ◌^◌, Str, codes, ltb, leb, if◌then◌else◌, true, false, not, ◌&&◌, ◌||◌,
  Option, none, some, [], ◌++◌, ℤ, pos, negsuc, neg_ℕ, to_int64,
}
use esp_v.PathMatcher.RequestPath.Split.{StrSplit}
use esp_v.ServiceControl.Info.{
  unknown_protocol, no_latency, OperationInfo, CheckRequestInfo, QuotaRequestInfo,
  ReportRequestInfo,
}
use esp_v.ServiceControl.HandlerUtils.{
  HeaderMap, StreamInfo, extract_header, fill_gcp_info, fill_logged_header, fill_latency,
  get_frontend_protocol, get_backend_protocol, fill_jwt_payloads, fill_jwt_payload,
}
use esp_v.ServiceControl.Handler.{
  Requirement, ConfigParser, Handler, is_report_required, fill_operation_info,
}

-- The operation of a report: without the api key if it is invalid or the service is not enabled.
unfoldable pub report_operation : Handler → OperationInfo → OperationInfo
report_operation h operation =
    if not h.check_response_info.is_api_key_valid || not h.check_response_info.service_is_activated
    then record operation { api_key = [] }
    else operation

-- `prepareReportRequest`, with the defaults of `ReportRequestInfo`.
unfoldable pub prepare_report_request :
    ConfigParser → Handler → Requirement → Str → ℕ → ReportRequestInfo
prepare_report_request cfg h r client_ip now = fill_gcp_info cfg.gcp_attributes (record {
  operation = report_operation h (fill_operation_info h r client_ip now);
  response_code = 200;
  status = h.check_status;
  url = h.path;
  location = [];
  api_name = r.api_name;
  api_version = r.api_version;
  api_method = r.operation_name;
  request_size = negsuc 0;
  response_size = negsuc 0;
  latency = no_latency;
  log_message = r.operation_name ++ codes " is called";
  auth_issuer = [];
  auth_audience = [];
  frontend_protocol = unknown_protocol;
  backend_protocol = unknown_protocol;
  method = h.http_method;
  compute_platform = codes "UNKNOWN(ESPv2)";
  check_response_info = h.check_response_info;
  request_bytes = pos 0;
  request_headers = [];
  response_bytes = pos 0;
  response_headers = [];
  jwt_payloads = [];
  streaming_request_message_counts = pos 0;
  streaming_response_message_counts = pos 0;
  streaming_durations = pos 0;
  is_first_report = true;
  is_final_report = true;
})

abbrev pub add64 : ℕ → ℕ → ℕ
add64 a b = (a + b) % 2 ^ 64

abbrev pub code_or_500 : Option ℕ → ℕ
code_or_500 none = 500
code_or_500 (some code) = code

abbrev pub size_or_zero : Option HeaderMap → ℕ
size_or_zero none = 0
size_or_zero (some headers) = headers.byte_size

-- `extractHeader(*request_headers, kRefererHeader)`, where there are headers.
abbrev pub referer_of : Option HeaderMap → Str
referer_of none = []
referer_of (some headers) = extract_header headers (codes "referer")

-- `duration_cast<microseconds>`, towards zero
abbrev pub micros_between : ℕ → ℕ → ℤ
micros_between start now =
    if leb start now then pos ((now - start) / 1000) else neg_ℕ ((start - now) / 1000)

abbrev pub requests_of : Option (ℕ × ℕ) → ℤ
requests_of none = pos 0
requests_of (some (requests, responses)) = to_int64 requests

abbrev pub responses_of : Option (ℕ × ℕ) → ℤ
responses_of none = pos 0
responses_of (some (requests, responses)) = to_int64 responses

-- The trailers and the request's headers that `callReport` is given.
pub record Messages : Type 0 where
  pub request_headers : Option HeaderMap
  pub response_headers : Option HeaderMap
  pub response_trailers : Option HeaderMap

abbrev pub ctx_or : Requirement → Option Requirement → Requirement
ctx_or d none = d
ctx_or d (some r) = r

-- The report that `callReport` sends.
unfoldable pub final_info :
    StrSplit → ConfigParser → StreamInfo → Messages → ℕ → Requirement → Handler → ReportRequestInfo
final_info absl cfg stream messages now r h =
    let info = prepare_report_request cfg h r stream.client_ip now in
    let request_size = add64 stream.bytes_received h.request_header_size in
    let response_size =
      add64 stream.bytes_sent (
        add64 (size_or_zero messages.response_headers) (size_or_zero messages.response_trailers)) in
    let metadata = stream.dynamic_metadata in
    let jwt = r.jwt_payload_metadata_name in
    record info {
      operation = record (info.operation) { referer = referer_of messages.request_headers };
      request_headers = fill_logged_header messages.request_headers r.log_request_headers [];
      response_headers = fill_logged_header messages.response_headers r.log_response_headers [];
      jwt_payloads = fill_jwt_payloads absl metadata jwt r.log_jwt_payloads [];
      auth_issuer = fill_jwt_payload metadata jwt (codes "iss") [];
      auth_audience = fill_jwt_payload metadata jwt (codes "aud") [];
      frontend_protocol = get_frontend_protocol messages.response_headers stream;
      backend_protocol = get_backend_protocol r.backend_protocol;
      latency = fill_latency stream info.latency;
      response_code = code_or_500 stream.response_code;
      request_size = to_int64 request_size;
      request_bytes = to_int64 request_size;
      response_size = to_int64 response_size;
      response_bytes = to_int64 response_size;
      streaming_request_message_counts = requests_of stream.grpc_stats;
      streaming_response_message_counts = responses_of stream.grpc_stats;
      streaming_durations = micros_between stream.start_time now;
      is_first_report = h.is_first_report;
    }

-- `callReport`: the handler, and the report that is sent, if one is.
unfoldable pub call_report :
    StrSplit
    → ConfigParser
    → StreamInfo
    → Messages
    → ℕ
    → Handler
    → Handler × Option ReportRequestInfo
call_report absl cfg stream messages now h =
    let r = ctx_or cfg.non_match h.require_ctx in
    let h' = record h { require_ctx = some r } in
    if is_report_required r
    then (h', some (final_info absl cfg stream messages now r h'))
    else (h', none)

-- `duration_cast<milliseconds>(now - last_reported_).count()`; a clock that goes back counts as no
-- time, which is below the positive interval of a service as well.
abbrev pub elapsed_ms : ℕ → ℕ → ℕ
elapsed_ms now last = (now - last) / 1000000

-- The report that `tryIntermediateReport` sends.
unfoldable pub intermediate_info :
    ConfigParser → StreamInfo → ℕ → Requirement → Handler → ReportRequestInfo
intermediate_info cfg stream now r h =
    let info = prepare_report_request cfg h r stream.client_ip now in
    record info {
      request_bytes = to_int64 (add64 stream.bytes_received h.request_header_size);
      response_bytes = to_int64 (add64 stream.bytes_sent h.response_header_size);
      frontend_protocol = h.frontend_protocol;
      is_first_report = h.is_first_report;
      is_final_report = false;
    }

-- The body of `tryIntermediateReport` behind its tests.
unfoldable pub intermediate_report :
    ConfigParser → StreamInfo → ℕ → Requirement → Handler → Handler × Option ReportRequestInfo
intermediate_report cfg stream now r h = (
  record h { last_reported = now; is_first_report = false },
  some (intermediate_info cfg stream now r h),
)

-- `tryIntermediateReport`, by `require_ctx_`; reading through a null one is `none`.
unfoldable pub try_intermediate_report_of :
    ConfigParser
    → StreamInfo
    → ℕ
    → Option Requirement
    → Handler
    → Option (Handler × Option ReportRequestInfo)
try_intermediate_report_of cfg stream now none h = if h.is_grpc then none else some (h, none)
try_intermediate_report_of cfg stream now (some r) h = some (
    if h.is_grpc && not (ltb (elapsed_ms now h.last_reported) r.min_stream_report_interval_ms)
    then intermediate_report cfg stream now r h
    else (h, none))

unfoldable pub try_intermediate_report :
    ConfigParser → StreamInfo → ℕ → Handler → Option (Handler × Option ReportRequestInfo)
try_intermediate_report cfg stream now h = try_intermediate_report_of cfg stream now h.require_ctx h

-- `processResponseHeaders`
unfoldable pub process_response_headers : HeaderMap → StreamInfo → Handler → Handler
process_response_headers headers stream h = record h {
  frontend_protocol = get_frontend_protocol (some headers) stream;
  response_header_size = headers.byte_size;
}

-- What `callCheck` sends.
unfoldable pub check_request_info : HeaderMap → Str → ℕ → Handler → Requirement → CheckRequestInfo
check_request_info headers client_ip now h r = record {
  operation = record (fill_operation_info h r client_ip now) {
    referer = extract_header headers (codes "referer");
  };
  android_package_name = extract_header headers (codes "x-android-package");
  android_cert_fingerprint = extract_header headers (codes "x-android-cert");
  ios_bundle_id = extract_header headers (codes "x-ios-bundle-identifier");
}

-- What `callQuota` sends.
unfoldable pub quota_request_info : Str → ℕ → Handler → Requirement → QuotaRequestInfo
quota_request_info client_ip now h r = record {
  operation = fill_operation_info h r client_ip now;
  method_name = r.operation_name;
  metric_cost_vector = some r.metric_costs;
}

-- ===== src/ServiceControl/Info.antt =====
-- src/api_proxy/service_control/request_info.h: what the filter tells the request builder. Times are
-- nanoseconds. A struct that inherits from `OperationInfo` has it as a field.
use esp_v.Base.{ℕ, Str, codes, ltb, if◌then◌else◌, Bool, true, false, Option, List, [], ℤ, negsuc}

-- `google::protobuf::util::Status`
pub record Status : Type 0 where
  pub code : ℕ
  pub message : Str

abbrev pub ok_status : Status
ok_status = record { code = 0; message = [] }

unfoldable pub is_ok : Status → Bool
is_ok (s) = if ltb 0 s.code then false else true

pub data Protocol : Type 0 where
  unknown_protocol http_protocol https_protocol grpc_protocol : Protocol

-- `protocol::ToString`
unfoldable pub protocol-to_string : Protocol → Str
protocol-to_string http_protocol = codes "http"
protocol-to_string https_protocol = codes "https"
protocol-to_string grpc_protocol = codes "grpc"
protocol-to_string unknown_protocol = codes "unknown"

pub record LatencyInfo : Type 0 where
  pub request_time_ms : ℤ
  pub backend_time_ms : ℤ
  pub overhead_time_ms : ℤ

abbrev pub no_latency : LatencyInfo
no_latency = record {
  request_time_ms = negsuc 0;
  backend_time_ms = negsuc 0;
  overhead_time_ms = negsuc 0;
}

-- `OperationInfo`
pub record OperationInfo : Type 0 where
  pub operation_id : Str
  pub operation_name : Str
  pub producer_project_id : Str
  pub api_key : Str
  pub referer : Str
  pub current_time : ℕ
  pub client_ip : Str
  pub client_host : Str

pub record CheckRequestInfo : Type 0 where
  pub operation : OperationInfo
  pub android_package_name : Str
  pub android_cert_fingerprint : Str
  pub ios_bundle_id : Str

-- `CheckResponseInfo`
pub record CheckResponseInfo : Type 0 where
  pub is_api_key_valid : Bool
  pub service_is_activated : Bool
  pub consumer_project_id : Str

abbrev pub no_response_info : CheckResponseInfo
no_response_info = record {
  is_api_key_valid = true;
  service_is_activated = true;
  consumer_project_id = [];
}

pub record QuotaRequestInfo : Type 0 where
  pub operation : OperationInfo
  pub method_name : Str
  -- a pointer: null is `none`
  pub metric_cost_vector : Option (List (Str × ℤ))

pub record ReportRequestInfo : Type 0 where
  pub operation : OperationInfo
  pub response_code : ℕ
  pub status : Status
  pub url : Str
  pub location : Str
  pub api_name : Str
  pub api_version : Str
  pub api_method : Str
  pub request_size : ℤ
  pub response_size : ℤ
  pub latency : LatencyInfo
  pub log_message : Str
  pub auth_issuer : Str
  pub auth_audience : Str
  pub frontend_protocol : Protocol
  pub backend_protocol : Protocol
  pub method : Str
  pub compute_platform : Str
  pub check_response_info : CheckResponseInfo
  pub request_bytes : ℤ
  pub request_headers : Str
  pub response_bytes : ℤ
  pub response_headers : Str
  pub jwt_payloads : Str
  pub streaming_request_message_counts : ℤ
  pub streaming_response_message_counts : ℤ
  pub streaming_durations : ℤ
  pub is_first_report : Bool
  pub is_final_report : Bool

-- ===== src/ServiceControl/Handler.antt =====
-- src/envoy/http/service_control/handler_impl.{h,cc}: the state of a `ServiceControlHandlerImpl`,
-- its constructor, and what it asks of its requirement. Filter.antt has the calls that answer the
-- filter, Report.antt the reports. Times are nanoseconds.
use esp_v.Base.{
  ℕ, Str, ℤ, codes, is_empty, if◌then◌else◌, Bool, true, false, not, ◌&&◌, Option, none, some, List,
  [], ◌∷◌,
}
use esp_v.ServiceControl.Info.{
  Status, ok_status, CheckResponseInfo, no_response_info, OperationInfo, Protocol,
}
use esp_v.ServiceControl.HandlerUtils.{GcpAttributes, get_request_http_method_with_override}
use esp_v.ServiceControl.ApiKey.{RequestHeaders, ApiKeyLocation, query, header, extract_api_key}

abbrev pub not_found : ℕ
not_found = 5

abbrev pub unauthenticated : ℕ
unauthenticated = 16

-- What a `RequirementContext` says: its requirement and its service.
pub record Requirement : Type 0 where
  pub operation_name : Str
  pub api_name : Str
  pub api_version : Str
  pub producer_project_id : Str
  pub allow_without_api_key : Bool
  pub skip_service_control : Bool
  pub metric_costs : List (Str × ℤ)
  pub api_key_locations : List ApiKeyLocation
  pub min_stream_report_interval_ms : ℕ
  pub log_request_headers : List Str
  pub log_response_headers : List Str
  pub log_jwt_payloads : List Str
  pub jwt_payload_metadata_name : Str
  pub backend_protocol : Str

-- What the handler asks of a `FilterConfigParser`.
pub record ConfigParser : Type 0 where
  pub find_requirement : Str → Option Requirement
  pub non_match : Requirement
  pub gcp_attributes : Option GcpAttributes

-- The default places of an api key, set by the constructor of `FilterConfigParser`.
abbrev pub default_api_keys : List ApiKeyLocation
default_api_keys = query (codes "key") ∷ query (codes "api_key") ∷ header (codes "x-api-key") ∷ []

pub record Handler : Type 0 where
  pub require_ctx : Option Requirement
  pub path : Str
  pub http_method : Str
  pub uuid : Str
  pub api_key : Str
  pub check_response_info : CheckResponseInfo
  pub check_status : Status
  pub has_cancel_fn : Bool
  pub on_check_done_called : Bool
  pub request_header_size : ℕ
  pub response_header_size : ℕ
  pub frontend_protocol : Protocol
  pub is_grpc : Bool
  pub is_first_report : Bool
  pub last_reported : ℕ

-- What the constructor reads from the request.
pub record RequestInfo : Type 0 where
  pub headers : RequestHeaders
  pub http_method : Str
  pub path : Str
  pub header_size : ℕ
  pub is_grpc : Bool
  -- the operation that the path matcher filter has left in the filter state
  pub operation : Str
  -- what is in `frontend_protocol_`, which the constructor does not set
  pub indeterminate : Protocol

abbrev pub key_or_empty : Option Str → Str
key_or_empty none = []
key_or_empty (some key) = key

-- Where the constructor looks for the api key.
unfoldable pub key_locations : Option Requirement → List ApiKeyLocation
key_locations none = default_api_keys
key_locations (some r) =
    if is_empty r.api_key_locations then default_api_keys else r.api_key_locations

-- `require_ctx_` after the constructor.
unfoldable pub required_by : ConfigParser → Str → Option Requirement
required_by cfg operation = if is_empty operation then none else cfg.find_requirement operation

-- The constructor.
unfoldable pub new_handler : ConfigParser → Str → ℕ → RequestInfo → Handler
new_handler cfg uuid now r =
    let ctx = required_by cfg r.operation in
    record {
      require_ctx = ctx;
      path = r.path;
      http_method = get_request_http_method_with_override r.http_method r.headers.get;
      uuid = uuid;
      api_key = key_or_empty (extract_api_key r.headers (key_locations ctx));
      check_response_info = no_response_info;
      check_status = ok_status;
      has_cancel_fn = false;
      on_check_done_called = false;
      request_header_size = r.header_size;
      response_header_size = 0;
      frontend_protocol = r.indeterminate;
      is_grpc = r.is_grpc;
      is_first_report = true;
      last_reported = now;
    }

-- `isQuotaRequired`
unfoldable pub is_quota_required : Requirement → Bool
is_quota_required r = not r.skip_service_control && not (is_empty r.metric_costs)

-- `isCheckRequired`
unfoldable pub is_check_required : Requirement → Bool
is_check_required r = not r.allow_without_api_key && not r.skip_service_control

-- `isReportRequired`
unfoldable pub is_report_required : Requirement → Bool
is_report_required r = not r.skip_service_control

-- `hasApiKey`
unfoldable pub has_api_key : Handler → Bool
has_api_key h = not (is_empty h.api_key)

-- `fillOperationInfo`
unfoldable pub fill_operation_info : Handler → Requirement → Str → ℕ → OperationInfo
fill_operation_info h r client_ip now = record {
  operation_id = h.uuid;
  operation_name = r.operation_name;
  producer_project_id = r.producer_project_id;
  api_key = h.api_key;
  referer = [];
  current_time = now;
  client_ip = client_ip;
  client_host = [];
}

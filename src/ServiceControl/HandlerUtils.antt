-- ===== src/ServiceControl/HandlerUtils.antt =====
-- src/envoy/http/service_control/handler_utils.cc, less the api key (ApiKey.antt), and
-- src/envoy/utils/http_header_utils.cc: what the reports read from the headers, the stream and the
-- configuration. Header maps, stream information and metadata are Envoy's: records of what they
-- answer for one request.
use esp_v.Base.{
  ℕ, ◌-◌, ◌/◌, Str, codes, str_eq, leb, ◌==◌, if◌then◌else◌, Bool, true, false, not, ◌&&◌, ◌||◌,
  Option, none, some, List, [], ◌∷◌, ◌++◌, ℤ, pos, leb_ℤ, ◌-ℤ◌,
}
use esp_v.PathMatcher.RequestPath.Split.{StrSplit}
use esp_v.ServiceControl.Info.{
  Protocol, unknown_protocol, http_protocol, grpc_protocol, LatencyInfo, ReportRequestInfo,
}

pub record HeaderMap : Type 0 where
  -- `get(LowerCaseString(name))`
  pub get : Str → Option Str
  pub byte_size : ℕ

-- `readHeaderEntry`
unfoldable pub read_header_entry : Option Str → Str
read_header_entry none = []
read_header_entry (some value) = value

-- `extractHeader`
unfoldable pub extract_header : HeaderMap → Str → Str
extract_header headers name = read_header_entry (headers.get name)

-- `getRequestHTTPMethodWithOverride`
unfoldable pub get_request_http_method_with_override : Str → (Str → Option Str) → Str
get_request_http_method_with_override original get = elim (get (codes "x-http-method-override")) [
  | none ↦ original
  | some value ↦ value
]

-- `google::protobuf::Value`. A number is what `std::to_string` makes of it, cast to `long`.
pub data Value : Type 0 where
  null_value : Value
  number_value : Str → Value
  string_value : Str → Value
  bool_value : Bool → Value
  struct_value list_value kind_not_set : Value

-- The metadata of the JWT filter at a path; `none` is the default instance.
abbrev pub Metadata : Type 0
Metadata = List Str → Option Value

-- What the reports read from `StreamInfo`, in nanoseconds.
pub record StreamInfo : Type 0 where
  pub client_ip : Str
  pub bytes_received : ℕ
  pub bytes_sent : ℕ
  pub response_code : Option ℕ
  pub has_protocol : Bool
  pub request_complete : Option ℕ
  pub first_upstream_tx_byte_sent : Option ℕ
  pub last_upstream_rx_byte_received : Option ℕ
  -- the counts of `GrpcStatsObject`: requests and responses
  pub grpc_stats : Option (ℕ × ℕ)
  pub start_time : ℕ
  pub dynamic_metadata : Metadata

-- The zone and the platform.
pub record GcpAttributes : Type 0 where
  pub zone : Str
  pub platform : Str

-- `=value;` behind a name
abbrev pub pair_text : Str → Str → Str
pair_text name value = name ++ codes "=" ++ value ++ codes ";"

-- `extractJwtPayload`
unfoldable pub extract_jwt_payload : Value → Str → Str → Str
extract_jwt_payload null_value path text = text ++ pair_text path []
extract_jwt_payload (number_value n) path text = text ++ pair_text path n
extract_jwt_payload (bool_value b) path text =
    text ++ pair_text path (if b then codes "true" else codes "false")
extract_jwt_payload (string_value s) path text = text ++ pair_text path s
extract_jwt_payload struct_value path text = text
extract_jwt_payload list_value path text = text
extract_jwt_payload kind_not_set path text = text

-- `absl::StartsWith`
unfoldable pub starts_with : Str → Str → Bool
starts_with text [] = true
starts_with [] (c ∷ prefix) = false
starts_with (d ∷ text) (c ∷ prefix) = d == c && starts_with text prefix

-- `isGrpcRequest`
unfoldable pub is_grpc_request : Str → Bool
is_grpc_request content_type = starts_with content_type (codes "application/grpc")

abbrev pub or_else : Str → Str → Str
or_else [] default = default
or_else (c ∷ s) default = c ∷ s

-- `fillGCPInfo`
unfoldable pub fill_gcp_info : Option GcpAttributes → ReportRequestInfo → ReportRequestInfo
fill_gcp_info none info = info
fill_gcp_info (some gcp) info = record info {
  location = or_else gcp.zone info.location;
  compute_platform = or_else gcp.platform info.compute_platform;
}

-- The loop of `fillLoggedHeader`.
unfoldable pub log_headers_of : HeaderMap → List Str → Str → Str
log_headers_of headers [] text = text
log_headers_of headers (name ∷ names) text = elim (headers.get name) [
  | none ↦ log_headers_of headers names text
  | some value ↦ log_headers_of headers names (text ++ pair_text name value)
]

-- `fillLoggedHeader`
unfoldable pub fill_logged_header : Option HeaderMap → List Str → Str → Str
fill_logged_header none names text = text
fill_logged_header (some headers) names text = log_headers_of headers names text

-- `convertNsToMs`
unfoldable pub convert_ns_to_ms : ℕ → ℤ
convert_ns_to_ms ns = pos (ns / 1000000)

-- The backend's time in `fillLatency`.
unfoldable pub backend_time : Option ℕ → Option ℕ → ℤ
backend_time (some start) (some end) =
    if leb start end then convert_ns_to_ms (end - start) else pos 0
backend_time none end = pos 0
backend_time (some start) none = pos 0

-- `fillLatency`
unfoldable pub fill_latency : StreamInfo → LatencyInfo → LatencyInfo
fill_latency stream latency =
    let request : ℤ = elim (stream.request_complete) [
      | none ↦ latency.request_time_ms
      | some ns ↦ convert_ns_to_ms ns
    ] in
    let backend =
      backend_time stream.first_upstream_tx_byte_sent stream.last_upstream_rx_byte_received in
    record {
      request_time_ms = request;
      backend_time_ms = backend;
      overhead_time_ms =
          if leb_ℤ backend request then request -ℤ backend else latency.overhead_time_ms;
    }

-- `getFrontendProtocol`
unfoldable pub get_frontend_protocol : Option HeaderMap → StreamInfo → Protocol
get_frontend_protocol headers stream =
    let is_grpc : Bool = elim headers [
      | none ↦ false
      | some map ↦ is_grpc_request (extract_header map (codes "content-type"))
    ] in
    if is_grpc
    then grpc_protocol
    else if not stream.has_protocol
    then unknown_protocol
    else http_protocol

-- `getBackendProtocol`
unfoldable pub get_backend_protocol : Str → Protocol
get_backend_protocol protocol =
    if str_eq protocol (codes "http1") || str_eq protocol (codes "http2")
    then http_protocol
    else if str_eq protocol (codes "grpc")
    then grpc_protocol
    else unknown_protocol

-- `fillJwtPayloads`
unfoldable pub fill_jwt_payloads : StrSplit → Metadata → Str → List Str → Str → Str
fill_jwt_payloads absl metadata name [] text = text
fill_jwt_payloads absl metadata name (path ∷ paths) text =
    elim (metadata (name ∷ absl.split path b'.')) [
      | none ↦ fill_jwt_payloads absl metadata name paths text
      | some value ↦
          fill_jwt_payloads absl metadata name paths (extract_jwt_payload value path text)
    ]

-- `string_value()`, which is empty for other kinds.
abbrev pub string_of : Value → Str
string_of (string_value s) = s
string_of null_value = []
string_of (number_value n) = []
string_of (bool_value b) = []
string_of struct_value = []
string_of list_value = []
string_of kind_not_set = []

-- `fillJwtPayload`
unfoldable pub fill_jwt_payload : Metadata → Str → Str → Str → Str
fill_jwt_payload metadata name path text = elim (metadata (name ∷ path ∷ [])) [
  | none ↦ text
  | some value ↦ text ++ string_of value
]

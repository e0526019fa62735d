-- ===== src/ServiceControl/Config.antt =====
-- src/envoy/http/service_control/config_parser.{h,cc}: the filter's configuration, checked and
-- indexed. The messages have the fields that are read; report intervals are below 2^63.
pub mod Found
mod Tests
use esp_v.Base.{
  ℕ, ◌==◌, Str, codes, if◌then◌else◌, lookup, insert_new, length, ltb, Bool, Option, none, some,
  List, [], ◌∷◌, map, ℤ, to_int32, false,
}
use esp_v.ServiceControl.HandlerUtils.{GcpAttributes}
use esp_v.ServiceControl.ApiKey.{ApiKeyLocation}
use esp_v.ServiceControl.Handler.{Requirement, ConfigParser}

pub record ServiceMessage : Type 0 where
  pub service_name : Str
  pub producer_project_id : Str
  pub min_stream_report_interval_ms : ℕ
  pub log_request_headers : List Str
  pub log_response_headers : List Str
  pub log_jwt_payloads : List Str
  pub jwt_payload_metadata_name : Str
  pub backend_protocol : Str

pub record RequirementMessage : Type 0 where
  pub service_name : Str
  pub operation_name : Str
  pub api_name : Str
  pub api_version : Str
  pub allow_without_api_key : Bool
  pub skip_service_control : Bool
  pub metric_costs : List (Str × ℤ)
  pub api_key_locations : List ApiKeyLocation

pub record FilterConfig : Type 0 where
  pub services : List ServiceMessage
  pub requirements : List RequirementMessage
  pub gcp_attributes : Option GcpAttributes

-- `ServiceContext`, for the interval: 0 stands for the default.
unfoldable pub report_interval : ServiceMessage → ℕ
report_interval service =
    if service.min_stream_report_interval_ms == 0
    then 10000
    else service.min_stream_report_interval_ms

-- `RequirementContext` with its service; a cost is narrowed to an `int`.
unfoldable pub requirement_context : RequirementMessage → ServiceMessage → Requirement
requirement_context r service = record {
  operation_name = r.operation_name;
  api_name = r.api_name;
  api_version = r.api_version;
  producer_project_id = service.producer_project_id;
  allow_without_api_key = r.allow_without_api_key;
  skip_service_control = r.skip_service_control;
  metric_costs = map (λ cost. (cost.0, to_int32 cost.1)) r.metric_costs;
  api_key_locations = r.api_key_locations;
  min_stream_report_interval_ms = report_interval service;
  log_request_headers = service.log_request_headers;
  log_response_headers = service.log_response_headers;
  log_jwt_payloads = service.log_jwt_payloads;
  jwt_payload_metadata_name = service.jwt_payload_metadata_name;
  backend_protocol = service.backend_protocol;
}

-- The exceptions of the constructor.
pub data ConfigError : Type 0 where
  empty_services duplicated_service_names duplicated_operation_names : ConfigError
  invalid_service_name : RequirementMessage → ConfigError

pub data Parsed {ℓ} (A : Type ℓ) : Type ℓ where
  refused : ConfigError → Parsed A
  accepted : A → Parsed A

abbrev pub ServiceMap : Type 0
ServiceMap = List (Str × ServiceMessage)

abbrev pub RequirementMap : Type 0
RequirementMap = List (Str × Requirement)

-- The loop over the services.
unfoldable pub service_map : List ServiceMessage → ServiceMap → ServiceMap
service_map [] services = services
service_map (service ∷ others) services =
    service_map others (insert_new service.service_name service services)

-- The loop over the requirements.
unfoldable pub requirements_map :
    ServiceMap → List RequirementMessage → RequirementMap → Parsed RequirementMap
requirements_map services [] requirements = accepted requirements
requirements_map services (r ∷ others) requirements = elim (lookup r.service_name services) [
  | none ↦ refused (invalid_service_name r)
  | some service ↦
      requirements_map services others
        (insert_new r.operation_name (requirement_context r service) requirements)
]

-- The requirement for requests that match none.
unfoldable pub non_match_requirement : ServiceMessage → RequirementMessage
non_match_requirement first = record {
  service_name = first.service_name;
  operation_name = codes "<Unknown Operation Name>";
  api_name = [];
  api_version = [];
  allow_without_api_key = false;
  skip_service_control = false;
  metric_costs = [];
  api_key_locations = [];
}

-- The parser of a configuration whose requirements have been indexed.
unfoldable pub parser_of :
    FilterConfig → ServiceMessage → Parsed RequirementMap → Parsed ConfigParser
parser_of config first (refused error) = refused error
parser_of config first (accepted requirements) =
    if ltb (length requirements) (length config.requirements)
    then refused duplicated_operation_names
    else accepted (record {
      find_requirement = λ operation. lookup operation requirements;
      non_match = requirement_context (non_match_requirement first) first;
      gcp_attributes = config.gcp_attributes;
    })

-- The constructor of `FilterConfigParser`, by its services.
unfoldable pub parse_services : FilterConfig → List ServiceMessage → Parsed ConfigParser
parse_services config [] = refused empty_services
parse_services config (first ∷ others) =
    let services = service_map (first ∷ others) [] in
    let parsed = parser_of config first (requirements_map services config.requirements []) in
    if ltb (length services) (length (first ∷ others))
    then refused duplicated_service_names
    else parsed

unfoldable pub new_config_parser : FilterConfig → Parsed ConfigParser
new_config_parser config = parse_services config config.services

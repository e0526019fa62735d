-- ===== src/ServiceControl/Config/Tests.antt =====
-- A configuration of one service and two operations.
use esp_v.Base.{codes, str_eq, false, none, [], ◌∷◌, All, ◌≡◌, refl, lookup, insert_new}
use esp_v.ServiceControl.Handler.{ConfigParser}
use esp_v.ServiceControl.Config.{
  ServiceMessage, RequirementMessage, FilterConfig, accepted, new_config_parser, parse_services,
  parser_of, service_map, requirements_map, requirement_context, non_match_requirement,
}
use esp_v.ServiceControl.Config.Found.{IsFound, new_config_parser-IsFound}

abbrev echo_message : ServiceMessage
echo_message = record {
  service_name = codes "echo";
  producer_project_id = codes "project";
  min_stream_report_interval_ms = 0;
  log_request_headers = [];
  log_response_headers = [];
  log_jwt_payloads = [];
  jwt_payload_metadata_name = [];
  backend_protocol = codes "grpc";
}

abbrev echo_operation : RequirementMessage
echo_operation = record {
  service_name = codes "echo";
  operation_name = codes "Echo";
  api_name = codes "echo";
  api_version = codes "v1";
  allow_without_api_key = false;
  skip_service_control = false;
  metric_costs = [];
  api_key_locations = [];
}

abbrev list_operation : RequirementMessage
list_operation = record echo_operation { operation_name = codes "List" }

abbrev two_operations : FilterConfig
two_operations = record {
  services = echo_message ∷ [];
  requirements = echo_operation ∷ list_operation ∷ [];
  gcp_attributes = none;
}

abbrev two_parser : ConfigParser
two_parser = record {
  find_requirement = λ operation. lookup operation (
      (codes "Echo", requirement_context echo_operation echo_message)
      ∷ (codes "List", requirement_context list_operation echo_message)
      ∷ []);
  non_match = requirement_context (non_match_requirement echo_message) echo_message;
  gcp_attributes = none;
}

two_parser-new_config_parser : new_config_parser two_operations ≡ accepted two_parser
unfolding new_config_parser parse_services parser_of service_map requirements_map insert_new lookup
    str_eq
two_parser-new_config_parser = refl

new_config_parser-IsFound_example :
    All
      (IsFound (service_map two_operations.services []) two_parser.find_requirement)
      two_operations.requirements
new_config_parser-IsFound_example =
    new_config_parser-IsFound two_operations two_parser two_parser-new_config_parser

-- ===== src/ServiceControl/Report/Tests.antt =====
-- Runs of the handler of a gRPC stream.
use esp_v.Base.{ℕ, codes, true, false, none, some, pos, List, [], ◌∷◌, refl, arith}
use esp_v.ServiceControl.Info.{unknown_protocol, no_response_info, ok_status}
use esp_v.ServiceControl.Handler.{Handler, Requirement, ConfigParser}
use esp_v.ServiceControl.HandlerUtils.{StreamInfo}
use esp_v.ServiceControl.Report.{Messages}
use esp_v.ServiceControl.Report.Times.{AreApart, report_times, report_times-AreApart}

abbrev pub echo_requirement : Requirement
echo_requirement = record {
  operation_name = codes "Echo";
  api_name = codes "echo";
  api_version = codes "v1";
  producer_project_id = codes "project";
  allow_without_api_key = false;
  skip_service_control = false;
  metric_costs = (codes "calls", pos 1) ∷ [];
  api_key_locations = [];
  min_stream_report_interval_ms = 10;
  log_request_headers = [];
  log_response_headers = [];
  log_jwt_payloads = [];
  jwt_payload_metadata_name = [];
  backend_protocol = codes "grpc";
}

abbrev pub echo_handler : Handler
echo_handler = record {
  require_ctx = some echo_requirement;
  path = codes "/echo";
  http_method = codes "POST";
  uuid = codes "1";
  api_key = codes "k1";
  check_response_info = no_response_info;
  check_status = ok_status;
  has_cancel_fn = false;
  on_check_done_called = false;
  request_header_size = 10;
  response_header_size = 0;
  frontend_protocol = unknown_protocol;
  is_grpc = true;
  is_first_report = true;
  last_reported = 1000;
}

abbrev pub echo_stream : StreamInfo
echo_stream = record {
  client_ip = codes "10.0.0.1";
  bytes_received = 100;
  bytes_sent = 200;
  response_code = some 200;
  has_protocol = true;
  request_complete = none;
  first_upstream_tx_byte_sent = none;
  last_upstream_rx_byte_received = none;
  grpc_stats = some (1, 1);
  start_time = 1000;
  dynamic_metadata = λ path. none;
}

abbrev moments : List ℕ
moments = 5000 ∷ 20000000 ∷ 20000001 ∷ 50000000 ∷ []

abbrev pub echo_config : ConfigParser
echo_config = record {
  find_requirement = λ name. some echo_requirement;
  non_match = echo_requirement;
  gcp_attributes = none;
}

report_times-AreApart_example :
    AreApart 10 1000 (report_times echo_config echo_stream moments echo_handler)
report_times-AreApart_example =
    report_times-AreApart echo_config echo_stream moments echo_handler echo_requirement refl
      (omega arith)

abbrev pub no_messages : Messages
no_messages = record { request_headers = none; response_headers = none; response_trailers = none }

-- ===== src/ServiceControl/RequestBuilder/Tests.antt =====
-- Runs of the request builder on a report whose key is hidden and whose consumer is known.
use esp_v.Base.{
  ℕ, ◌+◌, Str, codes, str_eq, is_empty, true, false, some, List, [], ◌∷◌, map, All, ◌≡◌, refl, pos,
  negsuc, not,
}
use esp_v.PathMatcher.RequestPath.Split.{contains}
use esp_v.ServiceControl.Info.{
  ok_status, is_ok, http_protocol, grpc_protocol, no_latency, no_response_info, OperationInfo,
  QuotaRequestInfo, ReportRequestInfo,
}
use esp_v.ServiceControl.RequestBuilder.Metrics.{
  DistributionHelper, call_metric_setter, set_int64_metric_to_constant_1,
}
use esp_v.ServiceControl.RequestBuilder.Labels.{Externals}
use esp_v.ServiceControl.RequestBuilder.Builder.{
  RequestBuilder, new_request_builder, new_request_builder_with, filter_pointers, in_report, is_due,
  in_by_consumer, verify_required_report_fields,
}
use esp_v.ServiceControl.RequestBuilder.Convert.{
  CheckResponse, api_key_expired, convert_check_response,
}
use esp_v.ServiceControl.RequestBuilder.Fill.{
  set_metrics, set_metric, set_metric_by, populate, report_operation_of, by_consumer_operation,
  append_by_consumer_operations, fill_report_request, fill_allocate_quota_request, costs_of,
}
use esp_v.ServiceControl.RequestBuilder.Names.{all_metrics, given_metrics}
use esp_v.ServiceControl.RequestBuilder.Unkeyed.{AreUnkeyed, fill_report_request-IsUnkeyed}
use esp_v.ServiceControl.RequestBuilder.Shape.{IsReport, fill_report_request-IsReport}
use esp_v.ServiceControl.RequestBuilder.Checked.{passes, blames_key, convert_check_response_lem}
use esp_v.ServiceControl.RequestBuilder.Requests.{Costs1, fill_allocate_quota_request-costs}

-- A distribution as the number of its samples.
abbrev pub counting : DistributionHelper ℕ
counting = record {
  init_exponential = λ options. (ok_status, 0);
  add_sample = λ sample count. (ok_status, count + 1);
}

abbrev pub plain : Externals
plain = record { base64_url_encode = λ text. text; version = codes "2.9.0" }

abbrev pub echo_builder : RequestBuilder
echo_builder = new_request_builder (codes "endpoints_log" ∷ []) (codes "echo") (codes "c1")

abbrev pub echo_operation : OperationInfo
echo_operation = record {
  operation_id = codes "1";
  operation_name = codes "Echo";
  producer_project_id = codes "project";
  api_key = [];
  referer = [];
  current_time = 1500000000000000000;
  client_ip = codes "10.0.0.1";
  client_host = [];
}

abbrev pub echo_report : ReportRequestInfo
echo_report = record {
  operation = echo_operation;
  response_code = 404;
  status = ok_status;
  url = codes "/echo";
  location = [];
  api_name = codes "echo";
  api_version = codes "v1";
  api_method = codes "Echo";
  request_size = pos 100;
  response_size = pos 200;
  latency = no_latency;
  log_message = codes "Echo is called";
  auth_issuer = [];
  auth_audience = [];
  frontend_protocol = http_protocol;
  backend_protocol = grpc_protocol;
  method = codes "POST";
  compute_platform = codes "UNKNOWN(ESPv2)";
  check_response_info = record no_response_info { consumer_project_id = codes "12" };
  request_bytes = pos 100;
  request_headers = [];
  response_bytes = pos 200;
  response_headers = [];
  jwt_payloads = [];
  streaming_request_message_counts = pos 1;
  streaming_response_message_counts = pos 0;
  streaming_durations = pos 30;
  is_first_report = true;
  is_final_report = true;
}

fill_report_request-IsUnkeyed_example :
    AreUnkeyed (fill_report_request counting plain echo_builder echo_report).1.operations
fill_report_request-IsUnkeyed_example =
    fill_report_request-IsUnkeyed counting plain echo_builder echo_report
      (all_metrics (codes "endpoints_log" ∷ []) (codes "echo") (codes "c1")) refl

abbrev counted : List Str
counted = codes "serviceruntime.googleapis.com/api/producer/request_count" ∷ []

-- A builder of one metric.
abbrev counting_builder : RequestBuilder
counting_builder =
    new_request_builder_with (codes "endpoints_log" ∷ []) counted [] (codes "echo") (codes "c1")

echo_report-is_ok : is_ok (fill_report_request counting plain counting_builder echo_report).0 ≡ true
unfolding fill_report_request is_ok verify_required_report_fields report_operation_of populate
    is_empty set_metrics new_request_builder_with filter_pointers set_metric set_metric_by in_report
    is_due call_metric_setter set_int64_metric_to_constant_1 append_by_consumer_operations
    by_consumer_operation in_by_consumer contains str_eq
echo_report-is_ok = refl

fill_report_request-IsReport_example :
    IsReport counting_builder echo_report
      (fill_report_request counting plain counting_builder echo_report).1.operations
fill_report_request-IsReport_example =
    fill_report_request-IsReport counting plain counting_builder echo_report
      (given_metrics (codes "endpoints_log" ∷ []) counted [] (codes "echo") (codes "c1"))
      echo_report-is_ok

abbrev pub expired : CheckResponse
expired = record { project_number = pos 12; check_errors = api_key_expired ∷ [] }

convert_check_response_lem_example :
    let converted = convert_check_response expired (codes "echo") no_response_info in
    (is_ok converted.0 ≡ passes expired.check_errors)
    × (converted.1.is_api_key_valid ≡ not (blames_key expired.check_errors))
    × (converted.1.is_api_key_valid ≡ false → is_ok converted.0 ≡ false)
convert_check_response_lem_example = convert_check_response_lem expired (codes "echo")

abbrev echo_quota : QuotaRequestInfo
echo_quota = record {
  operation = echo_operation;
  method_name = codes "Echo";
  metric_cost_vector = some ((codes "calls", pos 3) ∷ (codes "bytes", negsuc 4) ∷ []);
}

fill_allocate_quota_request-costs_example :
    let metrics =
      (fill_allocate_quota_request counting plain echo_builder
        echo_quota).allocate_operation.quota_metrics in
    (map (λ v. v.0) metrics ≡ map (λ c. c.0) (costs_of echo_quota.metric_cost_vector))
    × All Costs1 metrics
fill_allocate_quota_request-costs_example =
    fill_allocate_quota_request-costs counting plain echo_builder echo_quota

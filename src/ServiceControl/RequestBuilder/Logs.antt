-- ===== src/ServiceControl/RequestBuilder/Logs.antt =====
-- src/api_proxy/service_control/request_builder.cc: `FillLogEntry`.
use esp_v.Base.{Str, codes, leb, if◌then◌else◌, insert, List, [], ◌∷◌, ℤ, pos}
use esp_v.ServiceControl.Info.{ReportRequestInfo}
use esp_v.ServiceControl.RequestBuilder.Proto.{
  Timestamp, info_severity, error_severity, LogValue, string_field, number_field, time_field,
  LogEntry,
}
use esp_v.ServiceControl.RequestBuilder.Metrics.{is_available}

abbrev pub Fields : Type 0
Fields = List (Str × LogValue)

-- A text that is not empty.
unfoldable pub put_string : Str → Str → Fields → Fields
put_string name [] fields = fields
put_string name (c ∷ value) fields = insert name (string_field (c ∷ value)) fields

-- A number that is not negative.
unfoldable pub put_number : Str → ℤ → Fields → Fields
put_number name n fields = if is_available n then insert name (number_field n) fields else fields

module _ (info : ReportRequestInfo) (current_time : Timestamp) where
  -- The fields up to the log message.
  unfoldable pub api_fields : Fields → Fields
  api_fields fields =
      let timed = insert (codes "timestamp") (time_field current_time) fields in
      let project =
        put_string (codes "producer_project_id") info.operation.producer_project_id timed in
      let key = put_string (codes "api_key") info.operation.api_key project in
      let referer = put_string (codes "referer") info.operation.referer key in
      let name = put_string (codes "api_name") info.api_name referer in
      let version = put_string (codes "api_version") info.api_version name in
      let url = put_string (codes "url") info.url version in
      let method = put_string (codes "api_method") info.api_method url in
      let location = put_string (codes "location") info.location method in
      put_string (codes "log_message") info.log_message location

  -- The fields from the response code on.
  unfoldable pub http_fields : Fields → Fields
  http_fields fields =
      let code =
        insert (codes "http_response_code") (number_field (pos info.response_code)) fields in
      let size = put_number (codes "request_size_in_bytes") info.request_size code in
      let headers = put_string (codes "request_headers") info.request_headers size in
      let response = put_number (codes "response_size_in_bytes") info.response_size headers in
      let response_headers = put_string (codes "response_headers") info.response_headers response in
      let latency =
        put_number (codes "request_latency_in_ms") info.latency.request_time_ms response_headers in
      let method = put_string (codes "http_method") info.method latency in
      let ip = put_string (codes "client_ip") info.operation.client_ip method in
      put_string (codes "jwt_payloads") info.jwt_payloads ip

  -- `FillLogEntry`, of a new entry.
  unfoldable pub fill_log_entry : Str → LogEntry
  fill_log_entry name = record {
    name = name;
    timestamp = current_time;
    severity = if leb 400 info.response_code then error_severity else info_severity;
    fields = http_fields (api_fields []);
  }

-- ===== src/ServiceControl/RequestBuilder/Fill.antt =====
-- src/api_proxy/service_control/request_builder.cc: the requests that `RequestBuilder` fills, each
-- a new message.
use esp_v.Base.{
  Str, codes, is_empty, if◌then◌else◌, insert, leb_ℤ, Bool, true, not, ◌&&◌, Option, none, some,
  List, [], ◌∷◌, ◌++◌, map, ℤ, pos,
}
use esp_v.ServiceControl.Info.{
  Status, ok_status, is_ok, OperationInfo, CheckRequestInfo, QuotaRequestInfo, ReportRequestInfo,
}
use esp_v.ServiceControl.RequestBuilder.Proto.{
  Timestamp, create_timestamp, int64_value, Operation, new_operation, CheckRequest, ReportRequest,
  AllocateQuotaRequest,
}
use esp_v.ServiceControl.RequestBuilder.Metrics.{
  SupportedMetric, MetricSetter, DistributionHelper, call_metric_setter,
}
use esp_v.ServiceControl.RequestBuilder.Labels.{
  SupportedLabel, Externals, Labels, put_text, get_service_agent, call_label_setter, espv2,
  service_control_caller_ip, service_control_referer, service_control_user_agent,
  service_control_service_agent, service_control_android_package_name,
  service_control_android_cert_fingerprint, service_control_ios_bundle_id,
}
use esp_v.ServiceControl.RequestBuilder.Builder.{
  RequestBuilder, verify_required_check_fields, verify_required_report_fields, in_report,
  in_by_consumer,
}
use esp_v.ServiceControl.RequestBuilder.Logs.{fill_log_entry}

abbrev pub text_or : Str → Str → Str
text_or [] old = old
text_or (c ∷ s) old = c ∷ s

-- The cost of a metric in a quota request.
abbrev pub at_least_1 : ℤ → ℤ
at_least_1 cost = if leb_ℤ cost (pos 0) then pos 1 else cost

abbrev pub costs_of : Option (List (Str × ℤ)) → List (Str × ℤ)
costs_of none = []
costs_of (some costs) = costs

-- The labels that the check and the quota requests share.
unfoldable pub caller_labels : Externals → OperationInfo → Labels
caller_labels ext info =
    let ip = put_text service_control_caller_ip info.client_ip [] in
    let referer = put_text service_control_referer info.referer ip in
    insert service_control_service_agent (get_service_agent ext)
      (insert service_control_user_agent espv2 referer)

-- `consumer_id` of a quota request.
unfoldable pub quota_consumer : OperationInfo → Str
quota_consumer info =
    if not (is_empty info.api_key)
    then codes "api_key:" ++ info.api_key
    else if not (is_empty info.producer_project_id)
    then codes "project:" ++ info.producer_project_id
    else []

module _ {D : Type 0} (helper : DistributionHelper D) (ext : Externals) where
  -- `SetOperationCommonFields`
  unfoldable pub set_operation_common_fields : OperationInfo → Timestamp → Operation D → Operation D
  set_operation_common_fields info current_time op = record op {
    operation_id = text_or info.operation_id op.operation_id;
    operation_name = text_or info.operation_name op.operation_name;
    consumer_id =
        if is_empty info.api_key then op.consumer_id else codes "api_key:" ++ info.api_key;
    start_time = some current_time;
    end_time = some current_time;
  }

  -- `FillAllocateQuotaRequest`, which answers OK.
  unfoldable pub fill_allocate_quota_request :
      RequestBuilder → QuotaRequestInfo → AllocateQuotaRequest D
  fill_allocate_quota_request b info = record {
    service_name = b.service_name;
    service_config_id = b.service_config_id;
    allocate_operation = record {
      operation_id = info.operation.operation_id;
      method_name = info.method_name;
      consumer_id = quota_consumer info.operation;
      is_best_effort = true;
      labels = caller_labels ext info.operation;
      quota_metrics =
          map (λ metric. (metric.0, int64_value (at_least_1 metric.1)))
            (costs_of info.metric_cost_vector);
    };
  }

  -- The labels of a check request.
  unfoldable pub check_labels : CheckRequestInfo → Labels
  check_labels info =
      let caller = caller_labels ext info.operation in
      let with_package =
        put_text service_control_android_package_name info.android_package_name caller in
      let cert =
        put_text service_control_android_cert_fingerprint info.android_cert_fingerprint
          with_package in
      put_text service_control_ios_bundle_id info.ios_bundle_id cert

  -- `FillCheckRequest`: the request, or the status of the error.
  unfoldable pub fill_check_request :
      RequestBuilder → CheckRequestInfo → Status × Option (CheckRequest D)
  fill_check_request b info =
      let status = verify_required_check_fields info.operation in
      let op =
        set_operation_common_fields info.operation (create_timestamp info.operation.current_time)
          new_operation in
      if not (is_ok status) then (status, none) else (
        ok_status,
        some (record {
          service_name = b.service_name;
          service_config_id = b.service_config_id;
          operation = record op { labels = check_labels info };
        }),
      )

  -- One turn of the loops over the metrics, by the metric's function; null is passed over.
  unfoldable pub set_metric_by :
      Option MetricSetter
      → Bool
      → SupportedMetric
      → ReportRequestInfo
      → Operation D
      → Status × Operation D
  set_metric_by none chosen m info op = (ok_status, op)
  set_metric_by (some setter) chosen m info op =
      if chosen then call_metric_setter helper m info setter op else (ok_status, op)

  unfoldable pub set_metric :
      (SupportedMetric → Bool)
      → SupportedMetric
      → ReportRequestInfo
      → Operation D
      → Status × Operation D
  set_metric chosen m info op = set_metric_by m.set (chosen m) m info op

  -- The loops over the metrics, which stop at the first error.
  unfoldable pub set_metrics :
      (SupportedMetric → Bool)
      → List SupportedMetric
      → ReportRequestInfo
      → Operation D
      → Status × Operation D
  set_metrics chosen [] info op = (ok_status, op)
  set_metrics chosen (m ∷ ms) info op =
      let done = set_metric chosen m info op in
      let rest = set_metrics chosen ms info done.1 in if is_ok done.0 then rest else done

  -- One turn of the loops over the labels.
  unfoldable pub set_label :
      (SupportedLabel → Bool) → SupportedLabel → ReportRequestInfo → Labels → Labels
  set_label chosen l info labels = elim (l.set) [
    | none ↦ labels
    | some setter ↦ if chosen l then call_label_setter l info setter ext labels else labels
  ]

  unfoldable pub set_labels :
      (SupportedLabel → Bool) → List SupportedLabel → ReportRequestInfo → Labels → Labels
  set_labels chosen [] info labels = labels
  set_labels chosen (l ∷ ls) info labels =
      set_labels chosen ls info (set_label chosen l info labels)

  -- The labels and the metrics of an operation, where it has an id and a name.
  unfoldable pub populate :
      RequestBuilder
      → (SupportedLabel → Bool)
      → (SupportedMetric → Bool)
      → ReportRequestInfo
      → Operation D
      → Status × Operation D
  populate b labels metrics info op =
      let labelled = record op { labels = set_labels labels b.labels info op.labels } in
      if not (is_empty info.operation.operation_id) && not (is_empty info.operation.operation_name)
      then set_metrics metrics b.metrics info labelled
      else (ok_status, op)

  -- The operation of `AppendByConsumerOperations`.
  unfoldable pub by_consumer_operation :
      RequestBuilder → ReportRequestInfo → Timestamp → Status × Operation D
  by_consumer_operation b info current_time =
      let op = set_operation_common_fields info.operation current_time new_operation in
      populate b (λ l. true) (in_by_consumer info) info
        (record op { operation_id = op.operation_id ++ codes "1" })

  -- `AppendByConsumerOperations`
  unfoldable pub append_by_consumer_operations :
      RequestBuilder → ReportRequestInfo → Timestamp → ReportRequest D → Status × ReportRequest D
  append_by_consumer_operations b info current_time request =
      let made = by_consumer_operation b info current_time in
      (made.0, record request { operations = request.operations ++ made.1 ∷ [] })

  -- The first operation of `FillReportRequest`, without its log entries.
  unfoldable pub report_operation_of :
      RequestBuilder → ReportRequestInfo → Timestamp → Status × Operation D
  report_operation_of b info current_time =
      populate b (λ l. not l.by_consumer_only) (in_report info) info
        (set_operation_common_fields info.operation current_time new_operation)

  abbrev pub with_logs : RequestBuilder → ReportRequestInfo → Timestamp → Operation D → Operation D
  with_logs b info current_time op =
      if info.is_final_report
      then record op { log_entries = map (fill_log_entry info current_time) b.logs }
      else op

  abbrev pub report_of : RequestBuilder → Operation D → ReportRequest D
  report_of b op = record {
    service_name = b.service_name;
    service_config_id = b.service_config_id;
    operations = op ∷ [];
  }

  abbrev pub empty_report : ReportRequest D
  empty_report = record { service_name = []; service_config_id = []; operations = [] }

  -- `FillReportRequest`
  unfoldable pub fill_report_request : RequestBuilder → ReportRequestInfo → Status × ReportRequest D
  fill_report_request b info =
      let status = verify_required_report_fields info.operation in
      let current_time = create_timestamp info.operation.current_time in
      let made = report_operation_of b info current_time in
      let logged = report_of b (with_logs b info current_time made.1) in
      if not (is_ok status)
      then (status, empty_report)
      else if not (is_ok made.0)
      then (made.0, report_of b made.1)
      else if is_empty info.check_response_info.consumer_project_id
      then (ok_status, logged)
      else append_by_consumer_operations b info current_time logged

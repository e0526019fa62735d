-- ===== src/ServiceControl/RequestBuilder/Builder.antt =====
-- src/api_proxy/service_control/request_builder.cc: `RequestBuilder` and the requests it fills, each
-- a new message.
use esp_v.Base.{
  ℕ, Str, codes, is_empty, if◌then◌else◌, Bool, true, false, not, ◌&&◌, ◌||◌, is_some, List, [],
  ◌∷◌,
}
use esp_v.PathMatcher.RequestPath.Split.{contains}
use esp_v.ServiceControl.Info.{Status, ok_status, OperationInfo, ReportRequestInfo}
use esp_v.ServiceControl.RequestBuilder.Metrics.{
  Mark, producer, consumer, producer_by_consumer, Tag, start, intermediate, final, SupportedMetric,
}
use esp_v.ServiceControl.RequestBuilder.Table.{supported_metrics}
use esp_v.ServiceControl.RequestBuilder.Labels.{Kind, user_label, system_label, SupportedLabel}
use esp_v.ServiceControl.RequestBuilder.LabelTable.{supported_labels}

pub record RequestBuilder : Type 0 where
  pub logs : List Str
  pub metrics : List SupportedMetric
  pub labels : List SupportedLabel
  pub service_name : Str
  pub service_config_id : Str

-- `FilterPointers`
unfoldable pub filter_pointers {ℓ} : {E : Type ℓ} → (E → Bool) → List E → List E
filter_pointers pred [] = []
filter_pointers pred (e ∷ es) =
    let rest = filter_pointers pred es in if pred e then e ∷ rest else rest

-- The constructor with all metrics and labels.
unfoldable pub new_request_builder : List Str → Str → Str → RequestBuilder
new_request_builder logs service_name service_config_id = record {
  logs = logs;
  metrics = filter_pointers (λ m. is_some m.set) supported_metrics;
  labels = filter_pointers (λ l. is_some l.set) supported_labels;
  service_name = service_name;
  service_config_id = service_config_id;
}

abbrev pub is_system : Kind → Bool
is_system system_label = true
is_system user_label = false

-- The constructor with given metrics and labels.
unfoldable pub new_request_builder_with :
    List Str → List Str → List Str → Str → Str → RequestBuilder
new_request_builder_with logs metrics labels service_name service_config_id = record {
  logs = logs;
  metrics = filter_pointers (λ m. is_some m.set && contains metrics m.name) supported_metrics;
  labels =
      filter_pointers (λ l. is_some l.set && (is_system l.kind || contains labels l.name))
        supported_labels;
  service_name = service_name;
  service_config_id = service_config_id;
}

-- `code::INVALID_ARGUMENT`
abbrev pub invalid_argument : ℕ
invalid_argument = 3

-- `VerifyRequiredCheckFields`
unfoldable pub verify_required_check_fields : OperationInfo → Status
verify_required_check_fields info =
    if is_empty info.operation_id
    then record { code = invalid_argument; message = codes "operation_id is required." }
    else if is_empty info.operation_name
    then record { code = invalid_argument; message = codes "operation_name is required." }
    else ok_status

-- `VerifyRequiredReportFields`
unfoldable pub verify_required_report_fields : OperationInfo → Status
verify_required_report_fields info = ok_status

-- Whether a report of these flags has the metrics of a tag.
unfoldable pub is_due : ReportRequestInfo → Tag → Bool
is_due info start = info.is_first_report
is_due info final = info.is_final_report
is_due info intermediate = info.is_final_report || not info.is_final_report

abbrev pub is_consumer_mark : Mark → Bool
is_consumer_mark consumer = true
is_consumer_mark producer = false
is_consumer_mark producer_by_consumer = false

abbrev pub is_by_consumer : Mark → Bool
is_by_consumer producer_by_consumer = true
is_by_consumer consumer = false
is_by_consumer producer = false

-- The tests of the loop in `FillReportRequest` and of the loop in `AppendByConsumerOperations`.
unfoldable pub in_report : ReportRequestInfo → SupportedMetric → Bool
in_report info m =
    (not (is_empty info.operation.api_key) || not (is_consumer_mark m.mark))
    && not (is_by_consumer m.mark)
    && is_due info m.tag

unfoldable pub in_by_consumer : ReportRequestInfo → SupportedMetric → Bool
in_by_consumer info m = is_by_consumer m.mark && is_due info m.tag

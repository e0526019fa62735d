-- ===== src/ServiceControl/LogsMetrics/Tests.antt =====
-- A service with a log, a metric that is not supported, and a bad resource.
use esp_v.Base.{codes, [], ◌∷◌, All}
use esp_v.ServiceControl.RequestBuilder.LabelTable.{is_label_supported}
use esp_v.ServiceControl.RequestBuilder.Table.{is_metric_supported}
use esp_v.ServiceControl.LogsMetrics.{Service, load_logs_metrics}
use esp_v.ServiceControl.LogsMetrics.Loaded.{IsLog, IsMetric, IsLabel, load_logs_metrics-All}

abbrev pub echo_service : Service
echo_service = record {
  monitored_resources =
      record {
        type_name = codes "api";
        labels = record { key = codes "cloud.googleapis.com/location"; value_type = 0 } ∷ [];
      }
      ∷ [];
  logs = record { name = codes "endpoints_log"; labels = [] } ∷ [];
  metrics =
      record {
        name = codes "serviceruntime.googleapis.com/api/producer/request_count";
        metric_kind = 2;
        value_type = 2;
        labels = [];
      }
      ∷ record { name = codes "echoes"; metric_kind = 2; value_type = 2; labels = [] }
      ∷ [];
  logging_producers =
      record { monitored_resource = codes "api"; names = codes "endpoints_log" ∷ [] }
      ∷ record { monitored_resource = codes "other"; names = codes "other_log" ∷ [] }
      ∷ [];
  monitoring_producers =
      record {
        monitored_resource = codes "api";
        names =
            codes "serviceruntime.googleapis.com/api/producer/request_count" ∷ codes "echoes" ∷ [];
      }
      ∷ [];
  monitoring_consumers = [];
}

load_logs_metrics-All_example :
    let loaded = load_logs_metrics is_label_supported is_metric_supported echo_service in
    All (IsLog is_label_supported is_metric_supported echo_service.logs) loaded.0
    × All (IsMetric is_label_supported is_metric_supported echo_service.metrics) loaded.1
    × All (IsLabel is_label_supported is_metric_supported) loaded.2
load_logs_metrics-All_example =
    load_logs_metrics-All is_label_supported is_metric_supported echo_service

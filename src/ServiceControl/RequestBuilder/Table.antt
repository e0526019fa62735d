-- ===== src/ServiceControl/RequestBuilder/Table.antt =====
-- src/api_proxy/service_control/request_builder.cc: the table of the supported metrics.
use Prim.Native.String.{String}
use esp_v.Base.{ℕ, Str, codes, str_eq, ◌==◌, Bool, false, ◌&&◌, ◌||◌, some, List, [], ◌∷◌, ◌++◌}
use esp_v.ServiceControl.RequestBuilder.LabelTable.{LabelDescriptor}
use esp_v.ServiceControl.RequestBuilder.Metrics.{
  Mark, producer, consumer, producer_by_consumer, Tag, start, intermediate, final, MetricSetter,
  backend_time, constant_1, constant_1_if_http_error, overhead_time, request_bytes, request_size,
  request_time, response_bytes, response_size, streaming_durations,
  streaming_request_message_counts, streaming_response_message_counts, SupportedMetric, delta_kind,
  int64_type, distribution_type,
}

-- An entry of the table.
abbrev pub supports : String → ℕ → Tag → Mark → MetricSetter → SupportedMetric
supports name value_type tag mark set = record {
  name = codes name;
  metric_kind = delta_kind;
  value_type = value_type;
  tag = tag;
  mark = mark;
  set = some set;
}

-- Counts, sizes and bytes.
abbrev pub supported_metrics_sizes : List SupportedMetric
supported_metrics_sizes =
    supports "serviceruntime.googleapis.com/api/consumer/request_count" int64_type start consumer
      constant_1
    ∷ supports "serviceruntime.googleapis.com/api/producer/request_count" int64_type start producer
        constant_1
    ∷ supports "serviceruntime.googleapis.com/api/producer/by_consumer/request_count" int64_type
        final producer_by_consumer constant_1
    ∷ supports "serviceruntime.googleapis.com/api/consumer/request_sizes" distribution_type final
        consumer request_size
    ∷ supports "serviceruntime.googleapis.com/api/producer/request_sizes" distribution_type final
        producer request_size
    ∷ supports "serviceruntime.googleapis.com/api/producer/by_consumer/request_sizes"
        distribution_type final producer_by_consumer request_size
    ∷ supports "serviceruntime.googleapis.com/api/consumer/response_sizes" distribution_type final
        consumer response_size
    ∷ supports "serviceruntime.googleapis.com/api/producer/response_sizes" distribution_type final
        producer response_size
    ∷ supports "serviceruntime.googleapis.com/api/producer/by_consumer/response_sizes"
        distribution_type final producer_by_consumer response_size
    ∷ supports "serviceruntime.googleapis.com/api/consumer/request_bytes" int64_type intermediate
        consumer request_bytes
    ∷ supports "serviceruntime.googleapis.com/api/consumer/response_bytes" int64_type intermediate
        consumer response_bytes
    ∷ supports "serviceruntime.googleapis.com/api/producer/request_bytes" int64_type intermediate
        producer request_bytes
    ∷ supports "serviceruntime.googleapis.com/api/producer/response_bytes" int64_type intermediate
        producer response_bytes
    ∷ []

-- Errors and latencies.
abbrev pub supported_metrics_latencies : List SupportedMetric
supported_metrics_latencies =
    supports "serviceruntime.googleapis.com/api/consumer/error_count" int64_type final consumer
      constant_1_if_http_error
    ∷ supports "serviceruntime.googleapis.com/api/producer/error_count" int64_type final producer
        constant_1_if_http_error
    ∷ supports "serviceruntime.googleapis.com/api/producer/by_consumer/error_count" int64_type final
        producer_by_consumer constant_1_if_http_error
    ∷ supports "serviceruntime.googleapis.com/api/consumer/total_latencies" distribution_type final
        consumer request_time
    ∷ supports "serviceruntime.googleapis.com/api/producer/total_latencies" distribution_type final
        producer request_time
    ∷ supports "serviceruntime.googleapis.com/api/producer/by_consumer/total_latencies"
        distribution_type final producer_by_consumer request_time
    ∷ supports "serviceruntime.googleapis.com/api/consumer/backend_latencies" distribution_type
        final consumer backend_time
    ∷ supports "serviceruntime.googleapis.com/api/producer/backend_latencies" distribution_type
        final producer backend_time
    ∷ supports "serviceruntime.googleapis.com/api/producer/by_consumer/backend_latencies"
        distribution_type final producer_by_consumer backend_time
    ∷ supports "serviceruntime.googleapis.com/api/consumer/request_overhead_latencies"
        distribution_type final consumer overhead_time
    ∷ supports "serviceruntime.googleapis.com/api/producer/request_overhead_latencies"
        distribution_type final producer overhead_time
    ∷ supports "serviceruntime.googleapis.com/api/producer/by_consumer/request_overhead_latencies"
        distribution_type final producer_by_consumer overhead_time
    ∷ []

-- Streams.
abbrev pub supported_metrics_streaming : List SupportedMetric
supported_metrics_streaming =
    supports "serviceruntime.googleapis.com/api/consumer/streaming_request_message_counts"
      distribution_type final consumer streaming_request_message_counts
    ∷ supports "serviceruntime.googleapis.com/api/producer/streaming_request_message_counts"
        distribution_type final producer streaming_request_message_counts
    ∷ supports "serviceruntime.googleapis.com/api/consumer/streaming_response_message_counts"
        distribution_type final consumer streaming_response_message_counts
    ∷ supports "serviceruntime.googleapis.com/api/producer/streaming_response_message_counts"
        distribution_type final producer streaming_response_message_counts
    ∷ supports "serviceruntime.googleapis.com/api/consumer/streaming_durations" distribution_type
        final consumer streaming_durations
    ∷ supports "serviceruntime.googleapis.com/api/producer/streaming_durations" distribution_type
        final producer streaming_durations
    ∷ []

-- `supported_metrics`
abbrev pub supported_metrics : List SupportedMetric
supported_metrics =
    supported_metrics_sizes ++ supported_metrics_latencies ++ supported_metrics_streaming

-- What the code reads of a `MetricDescriptor`.
pub record MetricDescriptor : Type 0 where
  pub name : Str
  pub metric_kind : ℕ
  pub value_type : ℕ
  pub labels : List LabelDescriptor

-- The test in the loop of `IsMetricSupported`.
unfoldable pub describes : MetricDescriptor → SupportedMetric → Bool
describes metric m =
    str_eq metric.name m.name
    && metric.metric_kind == m.metric_kind
    && metric.value_type == m.value_type

unfoldable pub is_metric_in : MetricDescriptor → List SupportedMetric → Bool
is_metric_in metric [] = false
is_metric_in metric (m ∷ ms) = describes metric m || is_metric_in metric ms

-- `IsMetricSupported`
unfoldable pub is_metric_supported : MetricDescriptor → Bool
is_metric_supported metric = is_metric_in metric supported_metrics

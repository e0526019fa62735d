-- ===== src/ServiceControl/RequestBuilder/Metrics.antt =====
-- src/api_proxy/service_control/request_builder.cc: the metrics, and the functions that set them.
use esp_v.Base.{
  ℕ, suc, ◌-◌, ◌*◌, Str, leb, Bool, if◌then◌else◌, Option, [], ◌∷◌, ◌++◌, ℤ, pos, negsuc, leb_ℤ,
}
use esp_v.ServiceControl.Info.{Status, ok_status, is_ok, ReportRequestInfo}
use esp_v.ServiceControl.RequestBuilder.Proto.{
  MetricValue, value_not_set, int64_value, distribution_value, Operation,
}

pub data Mark : Type 0 where
  producer consumer producer_by_consumer : Mark

pub data Tag : Type 0 where
  start intermediate final : Tag

-- The functions that `SupportedMetric::set` points to.
pub data MetricSetter : Type 0 where
  constant_1 constant_1_if_http_error request_size response_size : MetricSetter
  request_time backend_time overhead_time : MetricSetter
  request_bytes response_bytes : MetricSetter
  streaming_request_message_counts streaming_response_message_counts : MetricSetter
  streaming_durations : MetricSetter

-- `MetricDescriptor_MetricKind` and `MetricDescriptor_ValueType`, by their numbers.
abbrev pub delta_kind : ℕ
delta_kind = 2

abbrev pub int64_type : ℕ
int64_type = 2

abbrev pub distribution_type : ℕ
distribution_type = 5

pub record SupportedMetric : Type 0 where
  pub name : Str
  pub metric_kind : ℕ
  pub value_type : ℕ
  pub tag : Tag
  pub mark : Mark
  pub set : Option MetricSetter

-- The scale is in millionths.
pub record DistributionHelperOptions : Type 0 where
  pub buckets : ℕ
  pub growth : ℕ
  pub scale : ℕ

abbrev pub time_distribution : DistributionHelperOptions
time_distribution = record { buckets = 29; growth = 2; scale = 1 }

abbrev pub size_distribution : DistributionHelperOptions
size_distribution = record { buckets = 8; growth = 10; scale = 1000000 }

-- A sample as a number of thousandths: `kMsToSecs` makes seconds of milliseconds.
abbrev pub Sample : Type 0
Sample = ℤ

-- An `int64_t` as a sample.
abbrev pub whole : ℤ → Sample
whole (pos n) = pos (n * 1000)
whole (negsuc n) = negsuc (suc n * 1000 - 1)

-- The client library's helper: `InitExponential` and `AddSample`.
pub record DistributionHelper (D : Type 0) : Type 0 where
  pub init_exponential : DistributionHelperOptions → Status × D
  pub add_sample : Sample → D → Status × D

-- `> 0`
abbrev pub is_positive : ℤ → Bool
is_positive n = leb_ℤ (pos 1) n

-- `>= 0`
abbrev pub is_available : ℤ → Bool
is_available n = leb_ℤ (pos 0) n

module _ {D : Type 0} where
  -- `AddMetricValue` and the value that is put there.
  unfoldable pub add_metric_value : Str → MetricValue D → Operation D → Operation D
  add_metric_value name value op = record op {
    metric_value_sets = op.metric_value_sets ++ (name, value) ∷ [];
  }

  unfoldable pub add_int64_metric : Str → ℤ → Operation D → Operation D
  add_int64_metric name n op = add_metric_value name (int64_value n) op

  -- The value and the status of `AddDistributionMetric`; on an error the value stays unset.
  unfoldable pub distribution_of :
      DistributionHelper D → DistributionHelperOptions → Sample → Status × MetricValue D
  distribution_of helper options sample =
      let made = helper.init_exponential options in
      let added = helper.add_sample sample made.1 in
      if is_ok made.0
      then if is_ok added.0
        then (ok_status, distribution_value added.1)
        else (added.0, value_not_set)
      else (made.0, value_not_set)

  unfoldable pub add_distribution_metric :
      DistributionHelper D
      → DistributionHelperOptions
      → Str
      → Sample
      → Operation D
      → Status × Operation D
  add_distribution_metric helper options name sample op =
      let made = distribution_of helper options sample in (made.0, add_metric_value name made.1 op)

  -- A distribution of an amount that is not negative.
  unfoldable pub distribution_if_available :
      DistributionHelper D
      → DistributionHelperOptions
      → Str
      → ℤ
      → Sample
      → Operation D
      → Status × Operation D
  distribution_if_available helper options name amount sample op =
      if is_available amount
      then add_distribution_metric helper options name sample op
      else (ok_status, op)

  module _ (helper : DistributionHelper D) (m : SupportedMetric) (info : ReportRequestInfo) where
    unfoldable pub set_int64_metric_to_constant_1 : Operation D → Status × Operation D
    set_int64_metric_to_constant_1 op = (ok_status, add_int64_metric m.name (pos 1) op)

    unfoldable pub set_int64_metric_to_constant_1_if_http_error : Operation D → Status × Operation D
    set_int64_metric_to_constant_1_if_http_error op =
        (ok_status, if leb 400 info.response_code then add_int64_metric m.name (pos 1) op else op)

    unfoldable pub set_distribution_metric_to_request_size : Operation D → Status × Operation D
    set_distribution_metric_to_request_size op =
        distribution_if_available helper size_distribution m.name info.request_size
          (whole info.request_size) op

    unfoldable pub set_distribution_metric_to_response_size : Operation D → Status × Operation D
    set_distribution_metric_to_response_size op =
        distribution_if_available helper size_distribution m.name info.response_size
          (whole info.response_size) op

    unfoldable pub set_distribution_metric_to_request_time : Operation D → Status × Operation D
    set_distribution_metric_to_request_time op =
        distribution_if_available helper time_distribution m.name info.latency.request_time_ms
          info.latency.request_time_ms op

    unfoldable pub set_distribution_metric_to_backend_time : Operation D → Status × Operation D
    set_distribution_metric_to_backend_time op =
        distribution_if_available helper time_distribution m.name info.latency.backend_time_ms
          info.latency.backend_time_ms op

    unfoldable pub set_distribution_metric_to_overhead_time : Operation D → Status × Operation D
    set_distribution_metric_to_overhead_time op =
        distribution_if_available helper time_distribution m.name info.latency.overhead_time_ms
          info.latency.overhead_time_ms op

    unfoldable pub set_int64_metric_to_request_bytes : Operation D → Status × Operation D
    set_int64_metric_to_request_bytes op = (
      ok_status,
      if is_positive info.request_bytes then add_int64_metric m.name info.request_bytes op else op,
    )

    unfoldable pub set_int64_metric_to_response_bytes : Operation D → Status × Operation D
    set_int64_metric_to_response_bytes op = (
      ok_status,
      if is_positive info.response_bytes
          then add_int64_metric m.name info.response_bytes op
          else op,
    )

    -- A distribution of a positive amount, whose status is dropped.
    unfoldable pub distribution_if_positive :
        DistributionHelperOptions → ℤ → Operation D → Status × Operation D
    distribution_if_positive options amount op = (
      ok_status,
      if is_positive amount
          then (add_distribution_metric helper options m.name (whole amount) op).1
          else op,
    )

    unfoldable pub set_distribution_metric_to_streaming_request_message_counts :
        Operation D → Status × Operation D
    set_distribution_metric_to_streaming_request_message_counts op =
        distribution_if_positive size_distribution info.streaming_request_message_counts op

    unfoldable pub set_distribution_metric_to_streaming_response_message_counts :
        Operation D → Status × Operation D
    set_distribution_metric_to_streaming_response_message_counts op =
        distribution_if_positive size_distribution info.streaming_response_message_counts op

    unfoldable pub set_distribution_metric_to_streaming_durations :
        Operation D → Status × Operation D
    set_distribution_metric_to_streaming_durations op =
        distribution_if_positive time_distribution info.streaming_durations op

    -- The call `(m->set)(*m, info, op)`.
    unfoldable pub call_metric_setter : MetricSetter → Operation D → Status × Operation D
    call_metric_setter constant_1 op = set_int64_metric_to_constant_1 op
    call_metric_setter constant_1_if_http_error op = set_int64_metric_to_constant_1_if_http_error op
    call_metric_setter request_size op = set_distribution_metric_to_request_size op
    call_metric_setter response_size op = set_distribution_metric_to_response_size op
    call_metric_setter request_time op = set_distribution_metric_to_request_time op
    call_metric_setter backend_time op = set_distribution_metric_to_backend_time op
    call_metric_setter overhead_time op = set_distribution_metric_to_overhead_time op
    call_metric_setter request_bytes op = set_int64_metric_to_request_bytes op
    call_metric_setter response_bytes op = set_int64_metric_to_response_bytes op
    call_metric_setter streaming_request_message_counts op =
        set_distribution_metric_to_streaming_request_message_counts op
    call_metric_setter streaming_response_message_counts op =
        set_distribution_metric_to_streaming_response_message_counts op
    call_metric_setter streaming_durations op = set_distribution_metric_to_streaming_durations op

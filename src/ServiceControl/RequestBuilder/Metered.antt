-- ===== src/ServiceControl/RequestBuilder/Metered.antt =====
-- The metrics of the reports of src/api_proxy/service_control/request_builder.cc, by their names.
use esp_v.Base.{
  ℤ, Str, if◌then◌else◌, Bool, true, false, none, some, Option, Bool-cases, List, [], ◌∷◌, All, ◌≡◌,
  inl, inr, refl,
}
use esp_v.ServiceControl.Info.{is_ok, ReportRequestInfo}
use esp_v.ServiceControl.RequestBuilder.Proto.{MetricValue, Operation}
use esp_v.ServiceControl.RequestBuilder.Metrics.{
  SupportedMetric, is_available, DistributionHelper, DistributionHelperOptions, Sample,
  MetricSetter, constant_1, constant_1_if_http_error, request_size, response_size, request_time,
  backend_time, overhead_time, request_bytes, response_bytes, streaming_request_message_counts,
  streaming_response_message_counts, streaming_durations, call_metric_setter, add_metric_value,
  add_int64_metric, add_distribution_metric, distribution_if_available, distribution_if_positive,
  set_int64_metric_to_constant_1, set_int64_metric_to_constant_1_if_http_error,
  set_distribution_metric_to_request_size, set_distribution_metric_to_response_size,
  set_distribution_metric_to_request_time, set_distribution_metric_to_backend_time,
  set_distribution_metric_to_overhead_time, set_int64_metric_to_request_bytes,
  set_int64_metric_to_response_bytes, set_distribution_metric_to_streaming_request_message_counts,
  set_distribution_metric_to_streaming_response_message_counts,
  set_distribution_metric_to_streaming_durations,
}
use esp_v.ServiceControl.RequestBuilder.Labels.{Externals}
use esp_v.ServiceControl.RequestBuilder.Fill.{set_metric_by, set_metric, set_metrics}

-- What holds of an operation, when each metric that is added keeps it.
module _ {D : Type 0} (P : Str → Type 0) (Q : Operation D → Type 0)
    (add : (name : Str) (value : MetricValue D) (op : Operation D)
      → P name
      → Q op
      → Q (add_metric_value name value op)) where
  if-keeps : (b : Bool) (op op' : Operation D) → Q op → Q op' → Q (if b then op else op')
  if-keeps true op op' all all' = all
  if-keeps false op op' all all' = all'

  module _ (helper : DistributionHelper D) (m : SupportedMetric) (info : ReportRequestInfo)
      (op : Operation D) (named : P m.name) (all : Q op) where
    distribution_if_available-keeps :
        (options : DistributionHelperOptions) (amount : ℤ) (sample : Sample)
        → Q (distribution_if_available helper options m.name amount sample op).1
    unfolding distribution_if_available add_distribution_metric
    distribution_if_available-keeps options amount sample =
        elim (Bool-cases (is_available amount)) [
          | inl e ↦ rw e (add m.name _ op named all)
          | inr e ↦ rw e all
        ]

    distribution_if_positive-keeps :
        (options : DistributionHelperOptions) (amount : ℤ)
        → Q (distribution_if_positive helper m info options amount op).1
    unfolding distribution_if_positive add_distribution_metric
    distribution_if_positive-keeps options amount = if-keeps _ _ _ (add m.name _ op named all) all

    -- What a function that sets a metric keeps.
    pub call_metric_setter-keeps :
        (setter : MetricSetter) → Q (call_metric_setter helper m info setter op).1
    unfolding call_metric_setter set_int64_metric_to_constant_1 add_int64_metric
        set_int64_metric_to_constant_1_if_http_error set_distribution_metric_to_request_size
        set_distribution_metric_to_response_size set_distribution_metric_to_request_time
        set_distribution_metric_to_backend_time set_distribution_metric_to_overhead_time
        set_int64_metric_to_request_bytes set_int64_metric_to_response_bytes
        set_distribution_metric_to_streaming_request_message_counts
        set_distribution_metric_to_streaming_response_message_counts
        set_distribution_metric_to_streaming_durations
    call_metric_setter-keeps constant_1 = add m.name _ op named all
    call_metric_setter-keeps constant_1_if_http_error =
        if-keeps _ _ _ (add m.name _ op named all) all
    call_metric_setter-keeps request_size = distribution_if_available-keeps _ _ _
    call_metric_setter-keeps response_size = distribution_if_available-keeps _ _ _
    call_metric_setter-keeps request_time = distribution_if_available-keeps _ _ _
    call_metric_setter-keeps backend_time = distribution_if_available-keeps _ _ _
    call_metric_setter-keeps overhead_time = distribution_if_available-keeps _ _ _
    call_metric_setter-keeps request_bytes = if-keeps _ _ _ (add m.name _ op named all) all
    call_metric_setter-keeps response_bytes = if-keeps _ _ _ (add m.name _ op named all) all
    call_metric_setter-keeps streaming_request_message_counts = distribution_if_positive-keeps _ _
    call_metric_setter-keeps streaming_response_message_counts = distribution_if_positive-keeps _ _
    call_metric_setter-keeps streaming_durations = distribution_if_positive-keeps _ _

  module _ (helper : DistributionHelper D) (ext : Externals) (info : ReportRequestInfo) where
    set_metric_by-keeps :
        (set : Option MetricSetter) (chosen : Bool) (m : SupportedMetric) (op : Operation D)
        → (chosen ≡ true → P m.name)
        → Q op
        → Q (set_metric_by helper ext set chosen m info op).1
    unfolding set_metric_by
    set_metric_by-keeps none chosen m op named all = all
    set_metric_by-keeps (some setter) true m op named all =
        call_metric_setter-keeps helper m info op (named refl) all setter
    set_metric_by-keeps (some setter) false m op named all = all

    -- What a loop over the metrics keeps, by the names of the metrics it chooses.
    pub set_metrics-keeps :
        (chosen : SupportedMetric → Bool) (ms : List SupportedMetric) (op : Operation D)
        → All (λ m. chosen m ≡ true → P m.name) ms
        → Q op
        → Q (set_metrics helper ext chosen ms info op).1
    unfolding set_metrics set_metric
    set_metrics-keeps chosen [] op named all = all
    set_metrics-keeps chosen (m ∷ ms) op named all =
        let done = set_metric helper ext chosen m info op in
        let first = set_metric_by-keeps m.set (chosen m) m op named.0 all in
        elim (Bool-cases (is_ok done.0)) [
          | inl good ↦ rw good (set_metrics-keeps chosen ms done.1 named.1 first)
          | inr bad ↦ rw bad first
        ]

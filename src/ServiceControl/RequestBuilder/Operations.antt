-- ===== src/ServiceControl/RequestBuilder/Operations.antt =====
-- The operations of the reports of src/api_proxy/service_control/request_builder.cc.
use esp_v.Base.{
  Str, is_empty, Bool, true, false, not, ◌&&◌, ◌||◌, Bool-cases, and_true, ap, ◌∙◌, [], ◌∷◌, All,
  All-append, All-map, ◌≡◌, inl, inr, refl, arith,
}
use esp_v.ServiceControl.Info.{is_ok, ReportRequestInfo}
use esp_v.ServiceControl.HandlerUtils.{starts_with}
use esp_v.ServiceControl.RequestBuilder.Proto.{MetricValue, Operation, Timestamp, create_timestamp}
use esp_v.ServiceControl.RequestBuilder.Metrics.{
  Mark, producer, consumer, producer_by_consumer, SupportedMetric, DistributionHelper,
  add_metric_value,
}
use esp_v.ServiceControl.RequestBuilder.Labels.{SupportedLabel, Externals}
use esp_v.ServiceControl.RequestBuilder.Builder.{
  RequestBuilder, verify_required_report_fields, in_report, in_by_consumer, is_consumer_mark,
  is_by_consumer,
}
use esp_v.ServiceControl.RequestBuilder.Fill.{
  set_operation_common_fields, set_labels, populate, by_consumer_operation,
  append_by_consumer_operations, report_operation_of, with_logs, fill_report_request,
}
use esp_v.ServiceControl.RequestBuilder.Metered.{set_metrics-keeps}
use esp_v.ServiceControl.RequestBuilder.Names.{
  consumer_prefix, by_consumer_prefix, is_marked_by_name, is_marked_by_name-prefixes,
}

-- Every metric of an operation has a name as `P` says.
abbrev pub AllNames : {D : Type 0} → (Str → Type 0) → Operation D → Type 0
AllNames P op = All (λ v. P v.0) op.metric_value_sets

by_consumer_mark : (mark : Mark) → is_by_consumer mark ≡ true → is_consumer_mark mark ≡ false
by_consumer_mark producer_by_consumer e = refl
by_consumer_mark producer e = refl
by_consumer_mark consumer e = cc

-- The tests of the two loops, by the marks of the metrics they choose.
in_report-mark :
    (key own by due : Bool)
    → ((key || not own) && not by && due) ≡ true
    → (key ≡ false → own ≡ false) × (by ≡ false)
in_report-mark true own false due e = (λ no_key. cc, refl)
in_report-mark false false false due e = (λ no_key. refl, refl)
in_report-mark false true false due e = cc
in_report-mark key own true due e = ground arith

pub in_report-prefixes :
    (info : ReportRequestInfo) (m : SupportedMetric)
    → is_marked_by_name m ≡ true
    → in_report info m ≡ true
    → (info.operation.api_key ≡ [] → starts_with m.name consumer_prefix ≡ false)
      × (starts_with m.name by_consumer_prefix ≡ false)
unfolding in_report is_empty
in_report-prefixes info m marked t =
    let names = is_marked_by_name-prefixes m marked in
    let marks = in_report-mark _ _ _ _ t in
    (λ e. names.0 ∙ marks.0 (ap (λ key. not (is_empty key)) e), names.1 ∙ marks.1)

pub in_by_consumer-prefixes :
    (info : ReportRequestInfo) (m : SupportedMetric)
    → is_marked_by_name m ≡ true
    → in_by_consumer info m ≡ true
    → (starts_with m.name consumer_prefix ≡ false) × (starts_with m.name by_consumer_prefix ≡ true)
unfolding in_by_consumer
in_by_consumer-prefixes info m marked t =
    let names = is_marked_by_name-prefixes m marked in
    let chosen = (and_true _ _ t).0 in (names.0 ∙ by_consumer_mark m.mark chosen, names.1 ∙ chosen)

module _ {D : Type 0} (helper : DistributionHelper D) (ext : Externals) (b : RequestBuilder) where
  -- The metrics of `populate`, by the names of those it chooses.
  pub populate-keeps :
      (P : Str → Type 0) (Q : Operation D → Type 0)
      → ((name : Str) (value : MetricValue D) (op : Operation D)
          → P name
          → Q op
          → Q (add_metric_value name value op))
      → (labels : SupportedLabel → Bool) (metrics : SupportedMetric → Bool)
        (info : ReportRequestInfo) (op : Operation D)
      → All (λ m. metrics m ≡ true → P m.name) b.metrics
      → Q op
      → Q (record op { labels = set_labels helper ext labels b.labels info op.labels })
      → Q (populate helper ext b labels metrics info op).1
  unfolding populate
  populate-keeps P Q add labels metrics info op named q q' =
      elim (Bool-cases (
        not (is_empty info.operation.operation_id)
        && not (is_empty info.operation.operation_name))) [
          | inl t ↦ rw t (set_metrics-keeps P Q add helper ext info metrics b.metrics _ named q')
          | inr f ↦ rw f q
        ]

  add_metric_value-AllNames :
      (P : Str → Type 0) (name : Str) (value : MetricValue D) (op : Operation D)
      → P name
      → AllNames P op
      → AllNames P (add_metric_value name value op)
  unfolding add_metric_value
  add_metric_value-AllNames P name value op named all =
      All-append (λ v. P v.0) op.metric_value_sets ((name, value) ∷ []) all (named, tt)

  -- What holds of the operations of a report, by how they are filled.
  pub fill_report_request-All :
      (Q : Operation D → Type 0) (info : ReportRequestInfo)
      → let t = create_timestamp info.operation.current_time in
        let first = (report_operation_of helper ext b info t).1 in
        Q first
        → Q (with_logs helper ext b info t first)
        → Q (by_consumer_operation helper ext b info t).1
        → All Q (fill_report_request helper ext b info).1.operations
  unfolding fill_report_request append_by_consumer_operations verify_required_report_fields is_ok
  fill_report_request-All Q info first logged second =
      let t = create_timestamp info.operation.current_time in
      let made = report_operation_of helper ext b info t in
      elim (Bool-cases (is_ok made.0)) [
        | inr bad ↦ rw bad (first, tt)
        | inl good ↦ elim (Bool-cases (is_empty info.check_response_info.consumer_project_id)) [
          | inl alone ↦ rw (good, alone) (logged, tt)
          | inr by_consumer ↦ rw (good, by_consumer) (logged, (second, tt))
        ]
      ]

  with_logs-AllNames :
      (P : Str → Type 0) (info : ReportRequestInfo) (t : Timestamp) (op : Operation D)
      → AllNames P op
      → AllNames P (with_logs helper ext b info t op)
  with_logs-AllNames P info t op all = elim (Bool-cases info.is_final_report) [
    | inl final ↦ rw final all
    | inr not_final ↦ rw not_final all
  ]

  -- The metrics of a report are those of its builder.
  pub fill_report_request-AllNames :
      (P : Str → Type 0) (info : ReportRequestInfo)
      → All (λ m. P m.name) b.metrics
      → All (AllNames P) (fill_report_request helper ext b info).1.operations
  unfolding report_operation_of by_consumer_operation set_operation_common_fields
  fill_report_request-AllNames P info named =
      let t = create_timestamp info.operation.current_time in
      let add : (name : Str) (value : MetricValue D) (op : Operation D)
          → P name
          → AllNames P op
          → AllNames P (add_metric_value name value op) =
        λ name value op p all. add_metric_value-AllNames P name value op p all in
      let first =
        populate-keeps P (AllNames P) add (λ l. not l.by_consumer_only) (in_report info) info _
          (All-map (λ m p chosen. p) b.metrics named) tt tt in
      fill_report_request-All (AllNames P) info first (with_logs-AllNames P info t _ first) (
        populate-keeps P (AllNames P) add (λ l. true) (in_by_consumer info) info _
          (All-map (λ m p chosen. p) b.metrics named) tt tt)

-- ===== src/ServiceControl/RequestBuilder/Unkeyed.antt =====
-- The reports without an api key of src/api_proxy/service_control/request_builder.cc.
use esp_v.Base.{
  Str, is_empty, true, false, not, Bool-cases, List, [], ◌∷◌, All, All-append, All-map, ◌≡◌, inl,
  inr, refl,
}
use esp_v.ServiceControl.Info.{is_ok, ReportRequestInfo}
use esp_v.ServiceControl.HandlerUtils.{starts_with}
use esp_v.ServiceControl.RequestBuilder.Proto.{
  MetricValue, Operation, new_operation, Timestamp, create_timestamp,
}
use esp_v.ServiceControl.RequestBuilder.Metrics.{DistributionHelper, add_metric_value}
use esp_v.ServiceControl.RequestBuilder.Labels.{Externals}
use esp_v.ServiceControl.RequestBuilder.Builder.{RequestBuilder, verify_required_report_fields}
use esp_v.ServiceControl.RequestBuilder.Fill.{
  set_operation_common_fields, by_consumer_operation, append_by_consumer_operations,
  report_operation_of, with_logs, fill_report_request,
}
use esp_v.ServiceControl.RequestBuilder.Labelled.{
  is_key_label, is_project_label, set_labels-unkeyed, set_labels-projectless,
}
use esp_v.ServiceControl.RequestBuilder.Names.{consumer_prefix, IsBuilder, IsBuilder-marked}
use esp_v.ServiceControl.RequestBuilder.Operations.{
  AllNames, in_report-prefixes, in_by_consumer-prefixes, populate-keeps, fill_report_request-All,
}

-- An operation without a consumer id, without a label that names an api key, and without a metric of
-- a consumer.
pub record IsUnkeyed {D : Type 0} (op : Operation D) : Type 0 where
  pub no_consumer : op.consumer_id ≡ []
  pub no_key : All (λ label. is_key_label label ≡ false) op.labels
  pub no_metrics : AllNames (λ name. starts_with name consumer_prefix ≡ false) op

-- An operation without a label that names the project of a consumer.
abbrev pub IsProjectless : {D : Type 0} → Operation D → Type 0
IsProjectless op = All (λ label. is_project_label label ≡ false) op.labels

-- What holds of the first operation, if there is one.
abbrev pub OfFirst : {D : Type 0} → (Operation D → Type 0) → List (Operation D) → Type 0
OfFirst P [] = Unit
OfFirst P (op ∷ ops) = P op

-- Operations of which none carries the api key or a metric of a consumer, and only those behind the
-- first one may name the project of the consumer.
abbrev pub AreUnkeyed : {D : Type 0} → List (Operation D) → Type 0
AreUnkeyed ops = All IsUnkeyed ops × OfFirst IsProjectless ops

module _ {D : Type 0} (helper : DistributionHelper D) (ext : Externals) (b : RequestBuilder) where
  add_metric_value-IsUnkeyed :
      (name : Str) (value : MetricValue D) (op : Operation D)
      → starts_with name consumer_prefix ≡ false
      → IsUnkeyed op
      → IsUnkeyed (add_metric_value name value op)
  unfolding add_metric_value
  add_metric_value-IsUnkeyed name value op named u = record {
    no_consumer = u.no_consumer;
    no_key = u.no_key;
    no_metrics = All-append _ op.metric_value_sets ((name, value) ∷ []) u.no_metrics (named, tt);
  }

  common-IsUnkeyed :
      (info : ReportRequestInfo) (t : Timestamp)
      → info.operation.api_key ≡ []
      → IsUnkeyed (set_operation_common_fields helper ext info.operation t new_operation)
  unfolding set_operation_common_fields is_empty
  common-IsUnkeyed info t e = record { no_consumer = rw e refl; no_key = tt; no_metrics = tt }

  report_operation_of-IsUnkeyed :
      (info : ReportRequestInfo) (t : Timestamp)
      → IsBuilder b
      → info.operation.api_key ≡ []
      → IsUnkeyed (report_operation_of helper ext b info t).1
  unfolding report_operation_of set_operation_common_fields
  report_operation_of-IsUnkeyed info t built e =
      let common = common-IsUnkeyed info t e in
      populate-keeps helper ext b _ IsUnkeyed add_metric_value-IsUnkeyed _ _ info _
        (All-map (λ m marked chosen. (in_report-prefixes info m marked chosen).0 e) b.metrics
          (IsBuilder-marked b built))
        common
        (record {
          no_consumer = common.no_consumer;
          no_key = set_labels-unkeyed helper ext b built info (λ l. not l.by_consumer_only) e;
          no_metrics = common.no_metrics;
        })

  by_consumer_operation-IsUnkeyed :
      (info : ReportRequestInfo) (t : Timestamp)
      → IsBuilder b
      → info.operation.api_key ≡ []
      → IsUnkeyed (by_consumer_operation helper ext b info t).1
  unfolding by_consumer_operation set_operation_common_fields
  by_consumer_operation-IsUnkeyed info t built e =
      let common = common-IsUnkeyed info t e in
      populate-keeps helper ext b _ IsUnkeyed add_metric_value-IsUnkeyed _ _ info _
        (All-map (λ m marked chosen. (in_by_consumer-prefixes info m marked chosen).0) b.metrics
          (IsBuilder-marked b built))
        (record { no_consumer = common.no_consumer; no_key = tt; no_metrics = common.no_metrics })
        (record {
          no_consumer = common.no_consumer;
          no_key = set_labels-unkeyed helper ext b built info (λ l. true) e;
          no_metrics = common.no_metrics;
        })

  with_logs-IsUnkeyed :
      (info : ReportRequestInfo) (t : Timestamp) (op : Operation D)
      → IsUnkeyed op
      → IsUnkeyed (with_logs helper ext b info t op)
  with_logs-IsUnkeyed info t op u = elim (Bool-cases info.is_final_report) [
    | inl t ↦
        rw t (record { no_consumer = u.no_consumer; no_key = u.no_key; no_metrics = u.no_metrics })
    | inr f ↦ rw f u
  ]

  fill_report_request-OfFirst :
      (Q : Operation D → Type 0) (info : ReportRequestInfo)
      → let t = create_timestamp info.operation.current_time in
        let first = (report_operation_of helper ext b info t).1 in
        Q first
        → Q (with_logs helper ext b info t first)
        → OfFirst Q (fill_report_request helper ext b info).1.operations
  unfolding fill_report_request append_by_consumer_operations verify_required_report_fields is_ok
  fill_report_request-OfFirst Q info first logged =
      let t = create_timestamp info.operation.current_time in
      let made = report_operation_of helper ext b info t in
      elim (Bool-cases (is_ok made.0)) [
        | inr bad ↦ rw bad first
        | inl good ↦ elim (Bool-cases (is_empty info.check_response_info.consumer_project_id)) [
          | inl alone ↦ rw (good, alone) logged
          | inr by_consumer ↦ rw (good, by_consumer) logged
        ]
      ]

  report_operation_of-IsProjectless :
      (info : ReportRequestInfo) (t : Timestamp)
      → IsBuilder b
      → IsProjectless (report_operation_of helper ext b info t).1
  unfolding report_operation_of set_operation_common_fields add_metric_value
  report_operation_of-IsProjectless info t built =
      populate-keeps helper ext b (λ name. Unit {0}) IsProjectless (λ name value op p all. all) _ _
        info _ (All-map (λ m marked chosen. tt) b.metrics (IsBuilder-marked b built)) tt
        (set_labels-projectless helper ext b built info)

  with_logs-IsProjectless :
      (info : ReportRequestInfo) (t : Timestamp) (op : Operation D)
      → IsProjectless op
      → IsProjectless (with_logs helper ext b info t op)
  with_logs-IsProjectless info t op all = elim (Bool-cases info.is_final_report) [
    | inl final ↦ rw final all
    | inr not_final ↦ rw not_final all
  ]

  -- A report whose information has no api key, from a builder that a constructor has made, has in
  -- each of its operations, errors included, an empty consumer id, no label that names an api key and
  -- no metric whose name begins with that of the consumer's metrics. Its first operation has no label
  -- with the project of a consumer; only the by-consumer operation may have it.
  pub fill_report_request-IsUnkeyed :
      (info : ReportRequestInfo)
      → IsBuilder b
      → info.operation.api_key ≡ []
      → AreUnkeyed (fill_report_request helper ext b info).1.operations
  fill_report_request-IsUnkeyed info built e =
      let t = create_timestamp info.operation.current_time in
      let first = report_operation_of-IsUnkeyed info t built e in
      let projectless = report_operation_of-IsProjectless info t built in
      (
        fill_report_request-All helper ext b IsUnkeyed info first
            (with_logs-IsUnkeyed info t _ first) (by_consumer_operation-IsUnkeyed info t built e),
        fill_report_request-OfFirst IsProjectless info projectless
            (with_logs-IsProjectless info t _ projectless),
      )

-- ===== src/ServiceControl/RequestBuilder/Shape.antt =====
-- How many operations the reports of src/api_proxy/service_control/request_builder.cc have, and what
-- each of them holds.
use esp_v.Base.{
  Str, codes, is_empty, if◌then◌else◌, Bool, true, false, Bool-cases, ap, List, [], ◌∷◌, ◌++◌, map,
  All-append, All-map, ◌≡◌, inl, inr, refl, arith,
}
use esp_v.ServiceControl.Info.{is_ok, ReportRequestInfo}
use esp_v.ServiceControl.HandlerUtils.{starts_with}
use esp_v.ServiceControl.RequestBuilder.Proto.{MetricValue, Operation, Timestamp, create_timestamp}
use esp_v.ServiceControl.RequestBuilder.Metrics.{DistributionHelper, add_metric_value}
use esp_v.ServiceControl.RequestBuilder.Labels.{Externals}
use esp_v.ServiceControl.RequestBuilder.Builder.{RequestBuilder, verify_required_report_fields}
use esp_v.ServiceControl.RequestBuilder.Fill.{
  set_operation_common_fields, by_consumer_operation, append_by_consumer_operations, text_or,
  report_operation_of, fill_report_request,
}
use esp_v.ServiceControl.RequestBuilder.Names.{by_consumer_prefix, IsBuilder, IsBuilder-marked}
use esp_v.ServiceControl.RequestBuilder.Logs.{fill_log_entry}
use esp_v.ServiceControl.RequestBuilder.Operations.{
  AllNames, populate-keeps, in_report-prefixes, in_by_consumer-prefixes,
}

-- The names of the logs of an operation.
abbrev pub log_names : {D : Type 0} → Operation D → List Str
log_names op = map (λ entry. entry.name) op.log_entries

-- The operation of the request itself.
pub record IsOwn {D : Type 0} (info : ReportRequestInfo) (logs : List Str) (op : Operation D)
    : Type 0 where
  pub has_id : op.operation_id ≡ info.operation.operation_id
  pub no_by_consumer : AllNames (λ name. starts_with name by_consumer_prefix ≡ false) op
  pub has_logs : log_names op ≡ logs

-- The operation for the consumer's project.
pub record IsByConsumer {D : Type 0} (info : ReportRequestInfo) (op : Operation D) : Type 0 where
  pub has_next_id : op.operation_id ≡ info.operation.operation_id ++ codes "1"
  pub only_by_consumer : AllNames (λ name. starts_with name by_consumer_prefix ≡ true) op
  pub no_logs : op.log_entries ≡ []

-- What a report holds that was filled without an error.
pub data IsReport {D : Type 0} (b : RequestBuilder) (info : ReportRequestInfo)
    : List (Operation D) → Type 0 where
  own :
      (op : Operation D)
      → is_empty info.check_response_info.consumer_project_id ≡ true
      → IsOwn info (if info.is_final_report then b.logs else []) op
      → IsReport b info (op ∷ [])
  own_and_by_consumer :
      (op op' : Operation D)
      → is_empty info.check_response_info.consumer_project_id ≡ false
      → IsOwn info (if info.is_final_report then b.logs else []) op
      → IsByConsumer info op'
      → IsReport b info (op ∷ op' ∷ [])

text_or_empty : (text : Str) → text_or text [] ≡ text
text_or_empty [] = refl
text_or_empty (c ∷ text) = refl

module _ {D : Type 0} (helper : DistributionHelper D) (ext : Externals) (b : RequestBuilder) where
  add_metric_value-IsOwn :
      (info : ReportRequestInfo) (name : Str) (value : MetricValue D) (op : Operation D)
      → starts_with name by_consumer_prefix ≡ false
      → IsOwn info [] op
      → IsOwn info [] (add_metric_value name value op)
  unfolding add_metric_value
  add_metric_value-IsOwn info name value op named u = record {
    has_id = u.has_id;
    no_by_consumer =
        All-append _ op.metric_value_sets ((name, value) ∷ []) u.no_by_consumer (named, tt);
    has_logs = u.has_logs;
  }

  add_metric_value-IsByConsumer :
      (info : ReportRequestInfo) (name : Str) (value : MetricValue D) (op : Operation D)
      → starts_with name by_consumer_prefix ≡ true
      → IsByConsumer info op
      → IsByConsumer info (add_metric_value name value op)
  unfolding add_metric_value
  add_metric_value-IsByConsumer info name value op named u = record {
    has_next_id = u.has_next_id;
    only_by_consumer =
        All-append _ op.metric_value_sets ((name, value) ∷ []) u.only_by_consumer (named, tt);
    no_logs = u.no_logs;
  }

  report_operation_of-IsOwn :
      (info : ReportRequestInfo) (t : Timestamp)
      → IsBuilder b
      → IsOwn info [] (report_operation_of helper ext b info t).1
  unfolding report_operation_of set_operation_common_fields
  report_operation_of-IsOwn info t built =
      let has_id = text_or_empty info.operation.operation_id in
      populate-keeps helper ext b _ (IsOwn info []) (add_metric_value-IsOwn info) _ _ info _
        (All-map (λ m marked chosen. (in_report-prefixes info m marked chosen).1) b.metrics
          (IsBuilder-marked b built))
        (record { has_id = has_id; no_by_consumer = tt; has_logs = refl })
        (record { has_id = has_id; no_by_consumer = tt; has_logs = refl })

  by_consumer_operation-IsByConsumer :
      (info : ReportRequestInfo) (t : Timestamp)
      → IsBuilder b
      → IsByConsumer info (by_consumer_operation helper ext b info t).1
  unfolding by_consumer_operation set_operation_common_fields
  by_consumer_operation-IsByConsumer info t built =
      let has_id = ap (λ id. id ++ codes "1") (text_or_empty info.operation.operation_id) in
      populate-keeps helper ext b _ (IsByConsumer info) (add_metric_value-IsByConsumer info) _ _
        info _
        (All-map (λ m marked chosen. (in_by_consumer-prefixes info m marked chosen).1) b.metrics
          (IsBuilder-marked b built))
        (record { has_next_id = has_id; only_by_consumer = tt; no_logs = refl })
        (record { has_next_id = has_id; only_by_consumer = tt; no_logs = refl })

  log_names-fill :
      (info : ReportRequestInfo) (t : Timestamp) (logs : List Str)
      → map (λ entry. entry.name) (map (fill_log_entry info t) logs) ≡ logs
  unfolding fill_log_entry
  log_names-fill info t [] = refl
  log_names-fill info t (log ∷ logs) = ap (λ rest. log ∷ rest) (log_names-fill info t logs)

  with_logs-IsOwn :
      (final : Bool) (info : ReportRequestInfo) (t : Timestamp) (op : Operation D)
      → IsOwn info [] op
      → IsOwn info
          (if final then b.logs else [])
          (if final then record op { log_entries = map (fill_log_entry info t) b.logs } else op)
  with_logs-IsOwn true info t op u = record {
    has_id = u.has_id;
    no_by_consumer = u.no_by_consumer;
    has_logs = log_names-fill info t b.logs;
  }
  with_logs-IsOwn false info t op u = u

  -- A report that a builder of the constructors fills without an error has the request's operation,
  -- with its id, no metric of a producer by its consumers, and an entry of each of the builder's
  -- logs in its order if the report is the final one and none otherwise; and, exactly if the check
  -- has named the consumer's project, a second operation, with the first one's id and a 1 behind
  -- it, metrics of a producer by its consumers only, and no log entry.
  pub fill_report_request-IsReport :
      (info : ReportRequestInfo)
      → IsBuilder b
      → is_ok (fill_report_request helper ext b info).0 ≡ true
      → IsReport b info (fill_report_request helper ext b info).1.operations
  unfolding fill_report_request append_by_consumer_operations verify_required_report_fields is_ok
  fill_report_request-IsReport info built fine =
      let t = create_timestamp info.operation.current_time in
      let made = report_operation_of helper ext b info t in
      let logged =
        with_logs-IsOwn info.is_final_report info t made.1
          (report_operation_of-IsOwn info t built) in
      elim (Bool-cases (is_ok made.0)) [
        | inr bad ↦ ground (arith, fine, bad)
        | inl good ↦ elim (Bool-cases (is_empty info.check_response_info.consumer_project_id)) [
          | inl alone ↦ rw (good, alone) (own _ alone logged)
          | inr named ↦
              rw (good, named)
                (own_and_by_consumer _ _ named logged
                  (by_consumer_operation-IsByConsumer info t built))
        ]
      ]

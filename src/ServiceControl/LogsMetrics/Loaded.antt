-- ===== src/ServiceControl/LogsMetrics/Loaded.antt =====
-- What src/api_proxy/service_control/logs_metrics_loader.cc loads.
use esp_v.Base.{
  str_eq, Str, lookup, insert_new, Bool, true, Option, none, some, is_some, Bool-cases, if-keeps,
  Option-cases, List, [], ◌∷◌, All, All-append, ◌≡◌, inl, inr, refl, arith,
}
use esp_v.ServiceControl.Info.{is_ok}
use esp_v.ServiceControl.RequestBuilder.LabelTable.{LabelDescriptor}
use esp_v.ServiceControl.RequestBuilder.Table.{MetricDescriptor}
use esp_v.ServiceControl.LogsMetrics.{
  LogDescriptor, MonitoredResourceDescriptor, Destination, Service, LabelMap, MetricMap,
  insert_name, str_ltb, first_conflict, find_metric_descriptor, find_log, find_resource,
  insert_labels, add_labels, add_labels_unless, add_log_labels, add_labels_of_log,
  add_monitored_resource_labels, add_labels_of_resource, add_logs, add_logging_destinations,
  add_found_metric, add_metrics, add_monitoring_destinations, load_logs_metrics,
}

-- An entry that is inserted and the entries that are there are all as `P` says.
insert_new-All {ℓ κ} :
    {V : Type ℓ} (P : Str × V → Type κ) (key : Str) (value : V) (entries : List (Str × V))
    → P (key, value)
    → All P entries
    → All P (insert_new key value entries)
unfolding insert_new
insert_new-All P key value entries p all = elim (Bool-cases (is_some (lookup key entries))) [
  | inl t ↦ rw t all
  | inr f ↦ rw f (All-append P entries ((key, value) ∷ []) all (p, tt))
]

insert_name-All {κ} :
    (P : Str → Type κ) (name : Str) (names : List Str)
    → P name
    → All P names
    → All P (insert_name name names)
unfolding insert_name
insert_name-All P name [] p all = (p, tt)
insert_name-All P name (first ∷ names) p all = elim (Bool-cases (str_eq first name)) [
  | inl t ↦ rw t all
  | inr f ↦ elim (Bool-cases (str_ltb name first)) [
    | inl before ↦ rw (f, before) (p, all)
    | inr behind ↦ rw (f, behind) (all.0, insert_name-All P name names p all.1)
  ]
]

module _ (label_supported : LabelDescriptor → Bool)
    (metric_supported : MetricDescriptor → Bool) where
  -- A label that stands under its key and is supported.
  abbrev pub IsLabel : Str × LabelDescriptor → Type 0
  IsLabel (key, ld) = (ld.key ≡ key) × (label_supported ld ≡ true)

  -- A metric whose descriptor in the service is supported.
  abbrev pub IsMetric : List MetricDescriptor → Str × MetricDescriptor → Type 0
  IsMetric mds (name, md) =
      (find_metric_descriptor mds name ≡ some md) × (metric_supported md ≡ true)

  -- A log that the service describes.
  abbrev pub IsLog : List LogDescriptor → Str → Type 0
  IsLog lds name = (ld : LogDescriptor) × (find_log lds name ≡ some ld)

  insert_labels-All :
      (lds : List LabelDescriptor) (labels : LabelMap)
      → All IsLabel labels
      → All IsLabel (insert_labels label_supported metric_supported lds labels)
  unfolding insert_labels
  insert_labels-All [] labels all = all
  insert_labels-All (ld ∷ lds) labels all = elim (Bool-cases (label_supported ld)) [
    | inl t ↦ rw t (
        insert_labels-All lds (insert_new ld.key ld labels)
          (insert_new-All IsLabel ld.key ld labels (refl, t) all))
    | inr f ↦ rw f (insert_labels-All lds labels all)
  ]

  add_labels-All :
      (lds : List LabelDescriptor) (labels : LabelMap)
      → All IsLabel labels
      → All IsLabel (add_labels label_supported metric_supported lds labels).1
  unfolding add_labels add_labels_unless
  add_labels-All lds labels all = elim (Option-cases (first_conflict lds labels)) [
    | inl fine ↦ rw fine (insert_labels-All lds labels all)
    | inr (ld, conflict) ↦ rw conflict all
  ]

  add_log_labels-All :
      (lds : List LogDescriptor) (name : Str) (labels : LabelMap)
      → All IsLabel labels
      → All IsLabel (add_log_labels label_supported metric_supported lds name labels).1
  unfolding add_log_labels add_labels_of_log
  add_log_labels-All lds name labels all = elim (Option-cases (find_log lds name)) [
    | inl missing ↦ rw missing all
    | inr (ld, found) ↦ rw found (add_labels-All ld.labels labels all)
  ]

  -- A log whose labels are added has been found.
  add_log_labels-IsLog :
      (lds : List LogDescriptor) (name : Str) (labels : LabelMap)
      → is_ok (add_log_labels label_supported metric_supported lds name labels).0 ≡ true
      → IsLog lds name
  unfolding add_log_labels add_labels_of_log is_ok
  add_log_labels-IsLog lds name labels good = elim (Option-cases (find_log lds name)) [
    | inl missing ↦ ground (arith, good, missing)
    | inr (ld, found) ↦ (ld, found)
  ]

  add_monitored_resource_labels-All :
      (mrs : List MonitoredResourceDescriptor) (name : Str) (labels : LabelMap)
      → All IsLabel labels
      → All IsLabel
          (add_monitored_resource_labels label_supported metric_supported mrs name labels).1
  unfolding add_monitored_resource_labels add_labels_of_resource
  add_monitored_resource_labels-All mrs name labels all =
      elim (Option-cases (find_resource mrs name)) [
        | inl missing ↦ rw missing all
        | inr (mr, found) ↦ rw found (add_labels-All mr.labels labels all)
      ]

  -- The logs and the labels that are good.
  abbrev pub GoodLogs : List LogDescriptor → List Str × LabelMap → Type 0
  GoodLogs lds (logs, labels) = All (IsLog lds) logs × All IsLabel labels

  abbrev pub GoodMetrics : List MetricDescriptor → MetricMap × LabelMap → Type 0
  GoodMetrics mds (metrics, labels) = All (IsMetric mds) metrics × All IsLabel labels

  add_logs-Good :
      (lds : List LogDescriptor) (names : List Str) (logs : List Str) (labels : LabelMap)
      → GoodLogs lds (logs, labels)
      → GoodLogs lds (add_logs label_supported metric_supported lds names (logs, labels))
  unfolding add_logs
  add_logs-Good lds [] logs labels good = good
  add_logs-Good lds (name ∷ names) logs labels good =
      let added = add_log_labels label_supported metric_supported lds name labels in
      add_logs-Good lds names _ added.1 (
        if-keeps (All (IsLog lds)) (is_ok added.0) _ _
            (λ found.
              insert_name-All (IsLog lds) name logs (add_log_labels-IsLog lds name labels found)
                good.0)
            (λ bad. good.0),
        add_log_labels-All lds name labels good.1,
      )

  add_logging_destinations-Good :
      (ds : List Destination) (mrs : List MonitoredResourceDescriptor) (lds : List LogDescriptor)
      (logs : List Str) (labels : LabelMap)
      → GoodLogs lds (logs, labels)
      → GoodLogs lds
          (add_logging_destinations label_supported metric_supported ds mrs lds (logs, labels))
  unfolding add_logging_destinations
  add_logging_destinations-Good [] mrs lds logs labels good = good
  add_logging_destinations-Good (d ∷ ds) mrs lds logs labels good =
      let added =
        add_monitored_resource_labels label_supported metric_supported mrs d.monitored_resource
          labels in
      let labels_good = add_monitored_resource_labels-All mrs d.monitored_resource labels good.1 in
      let kept =
        if-keeps (GoodLogs lds) (is_ok added.0) _ (logs, added.1)
          (λ found. add_logs-Good lds d.names logs added.1 (good.0, labels_good))
          (λ bad. (good.0, labels_good)) in
      add_logging_destinations-Good ds mrs lds _ _ kept

  add_found_metric-Good :
      (mds : List MetricDescriptor) (found : Option MetricDescriptor) (name : Str)
      (metrics : MetricMap) (labels : LabelMap)
      → find_metric_descriptor mds name ≡ found
      → GoodMetrics mds (metrics, labels)
      → GoodMetrics mds
          (add_found_metric label_supported metric_supported found name (metrics, labels))
  unfolding add_found_metric
  add_found_metric-Good mds none name metrics labels e good = good
  add_found_metric-Good mds (some md) name metrics labels e good =
      let labels_good = add_labels-All md.labels labels good.1 in
      elim (Bool-cases (metric_supported md)) [
        | inr unsupported ↦ rw unsupported good
        | inl supported ↦ rw supported (
          if-keeps (All (IsMetric mds)) _ _ _
              (λ fine. insert_new-All (IsMetric mds) name md metrics (e, supported) good.0)
              (λ bad. good.0),
          labels_good,
        )
      ]

  add_metrics-Good :
      (mds : List MetricDescriptor) (names : List Str) (metrics : MetricMap) (labels : LabelMap)
      → GoodMetrics mds (metrics, labels)
      → GoodMetrics mds (add_metrics label_supported metric_supported mds names (metrics, labels))
  unfolding add_metrics
  add_metrics-Good mds [] metrics labels good = good
  add_metrics-Good mds (name ∷ names) metrics labels good =
      add_metrics-Good mds names _ _
        (add_found_metric-Good mds (find_metric_descriptor mds name) name metrics labels refl good)

  add_monitoring_destinations-Good :
      (ds : List Destination) (mrs : List MonitoredResourceDescriptor) (mds : List MetricDescriptor)
      (metrics : MetricMap) (labels : LabelMap)
      → GoodMetrics mds (metrics, labels)
      → GoodMetrics mds (
          add_monitoring_destinations label_supported metric_supported ds mrs mds (metrics, labels))
  unfolding add_monitoring_destinations
  add_monitoring_destinations-Good [] mrs mds metrics labels good = good
  add_monitoring_destinations-Good (d ∷ ds) mrs mds metrics labels good =
      let added =
        add_monitored_resource_labels label_supported metric_supported mrs d.monitored_resource
          labels in
      let labels_good = add_monitored_resource_labels-All mrs d.monitored_resource labels good.1 in
      let kept =
        if-keeps (GoodMetrics mds) (is_ok added.0) _ (metrics, added.1)
          (λ found. add_metrics-Good mds d.names metrics added.1 (good.0, labels_good))
          (λ bad. (good.0, labels_good)) in
      add_monitoring_destinations-Good ds mrs mds _ _ kept

  -- Whatever a service configuration says, bad parts included: every log that is loaded is one that
  -- the service describes, every metric is supported by the descriptor that the service has under
  -- its name, and every label is a supported one under its own key.
  pub load_logs_metrics-All :
      (service : Service)
      → let loaded = load_logs_metrics label_supported metric_supported service in
        All (IsLog service.logs) loaded.0
        × All (IsMetric service.metrics) loaded.1
        × All IsLabel loaded.2
  unfolding load_logs_metrics
  load_logs_metrics-All service =
      let mrs = service.monitored_resources in
      let logging =
        add_logging_destinations-Good service.logging_producers mrs service.logs [] [] (tt, tt) in
      let producers =
        add_monitoring_destinations-Good service.monitoring_producers mrs service.metrics [] _
          (tt, logging.1) in
      let consumers =
        add_monitoring_destinations-Good service.monitoring_consumers mrs service.metrics _ _
          producers in
      (logging.0, consumers.0, consumers.1)

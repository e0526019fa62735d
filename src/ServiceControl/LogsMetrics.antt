-- ===== src/ServiceControl/LogsMetrics.antt =====
-- src/api_proxy/service_control/logs_metrics_loader.cc: which logs, metrics and labels of a service
-- configuration are reported. A `std::map` is an association list with its first entries kept; a
-- `std::set` a list of different names in the order of their bytes.
pub mod Loaded
pub mod Tests
use esp_v.Base.{
  Str, codes, str_eq, ◌==◌, if◌then◌else◌, lookup, insert_new, ltb, Bool, true, false, not, Option,
  none, some, List, [], ◌∷◌, ◌++◌, map,
}
use esp_v.ServiceControl.Info.{Status, ok_status, is_ok}
use esp_v.ServiceControl.RequestBuilder.LabelTable.{LabelDescriptor, is_label_supported}
use esp_v.ServiceControl.RequestBuilder.Table.{MetricDescriptor, is_metric_supported}

pub record LogDescriptor : Type 0 where
  pub name : Str
  pub labels : List LabelDescriptor

pub record MonitoredResourceDescriptor : Type 0 where
  pub type_name : Str
  pub labels : List LabelDescriptor

-- A `LoggingDestination` with its logs or a `MonitoringDestination` with its metrics.
pub record Destination : Type 0 where
  pub monitored_resource : Str
  pub names : List Str

-- What is read of `google::api::Service`.
pub record Service : Type 0 where
  pub monitored_resources : List MonitoredResourceDescriptor
  pub logs : List LogDescriptor
  pub metrics : List MetricDescriptor
  pub logging_producers : List Destination
  pub monitoring_producers : List Destination
  pub monitoring_consumers : List Destination

abbrev pub LabelMap : Type 0
LabelMap = List (Str × LabelDescriptor)

abbrev pub MetricMap : Type 0
MetricMap = List (Str × MetricDescriptor)

-- `operator<` of strings, by their bytes.
unfoldable pub str_ltb : Str → Str → Bool
str_ltb s [] = false
str_ltb [] (d ∷ t) = true
str_ltb (c ∷ s) (d ∷ t) =
    let rest = str_ltb s t in if ltb c d then true else if c == d then rest else false

-- `std::set::insert`
unfoldable pub insert_name : Str → List Str → List Str
insert_name name [] = name ∷ []
insert_name name (first ∷ names) =
    let rest = insert_name name names in
    if str_eq first name
    then first ∷ names
    else if str_ltb name first
    then name ∷ first ∷ names
    else first ∷ rest

abbrev pub invalid : Str → Status
invalid message = record { code = 3; message = message }

-- Whether the map has the label with another type.
unfoldable pub conflicts : LabelDescriptor → LabelMap → Bool
conflicts ld labels = elim (lookup ld.key labels) [
  | none ↦ false
  | some existing ↦ not (existing.value_type == ld.value_type)
]

-- The first loop of `AddLabels`.
unfoldable pub first_conflict : List LabelDescriptor → LabelMap → Option LabelDescriptor
first_conflict [] labels = none
first_conflict (ld ∷ lds) labels =
    let rest = first_conflict lds labels in if conflicts ld labels then some ld else rest

-- `FindMetricDescriptor`
unfoldable pub find_metric_descriptor : List MetricDescriptor → Str → Option MetricDescriptor
find_metric_descriptor [] name = none
find_metric_descriptor (md ∷ mds) name =
    let rest = find_metric_descriptor mds name in if str_eq md.name name then some md else rest

-- The searches of `AddLogLabels` and `AddMonitoredResourceLabels`.
unfoldable pub find_log : List LogDescriptor → Str → Option LogDescriptor
find_log [] name = none
find_log (ld ∷ lds) name =
    let rest = find_log lds name in if str_eq ld.name name then some ld else rest

unfoldable pub find_resource :
    List MonitoredResourceDescriptor → Str → Option MonitoredResourceDescriptor
find_resource [] name = none
find_resource (mr ∷ mrs) name =
    let rest = find_resource mrs name in if str_eq mr.type_name name then some mr else rest

module _ (label_supported : LabelDescriptor → Bool)
    (metric_supported : MetricDescriptor → Bool) where
  -- The second loop of `AddLabels`.
  unfoldable pub insert_labels : List LabelDescriptor → LabelMap → LabelMap
  insert_labels [] labels = labels
  insert_labels (ld ∷ lds) labels =
      insert_labels lds (if label_supported ld then insert_new ld.key ld labels else labels)

  unfoldable pub add_labels_unless :
      Option LabelDescriptor → List LabelDescriptor → LabelMap → Status × LabelMap
  add_labels_unless none lds labels = (ok_status, insert_labels lds labels)
  add_labels_unless (some ld) lds labels =
      (invalid (codes "Conflicting label in the configuration: " ++ ld.key), labels)

  -- `AddLabels`
  unfoldable pub add_labels : List LabelDescriptor → LabelMap → Status × LabelMap
  add_labels lds labels = add_labels_unless (first_conflict lds labels) lds labels

  unfoldable pub add_labels_of_log : Option LogDescriptor → Str → LabelMap → Status × LabelMap
  add_labels_of_log none name labels = (invalid (codes "Log not found: " ++ name), labels)
  add_labels_of_log (some ld) name labels = add_labels ld.labels labels

  -- `AddLogLabels`
  unfoldable pub add_log_labels : List LogDescriptor → Str → LabelMap → Status × LabelMap
  add_log_labels lds name labels = add_labels_of_log (find_log lds name) name labels

  unfoldable pub add_labels_of_resource :
      Option MonitoredResourceDescriptor → Str → LabelMap → Status × LabelMap
  add_labels_of_resource none name labels =
      (invalid (codes "Monitored resource not found: " ++ name), labels)
  add_labels_of_resource (some mr) name labels = add_labels mr.labels labels

  -- `AddMonitoredResourceLabels`
  unfoldable pub add_monitored_resource_labels :
      List MonitoredResourceDescriptor → Str → LabelMap → Status × LabelMap
  add_monitored_resource_labels mrs name labels =
      add_labels_of_resource (find_resource mrs name) name labels

  -- The inner loop of `AddLoggingDestinations`, which skips a bad log.
  unfoldable pub add_logs :
      List LogDescriptor → List Str → List Str × LabelMap → List Str × LabelMap
  add_logs lds [] (logs, labels) = (logs, labels)
  add_logs lds (name ∷ names) (logs, labels) =
      let added = add_log_labels lds name labels in
      add_logs lds names (if is_ok added.0 then insert_name name logs else logs, added.1)

  -- `AddLoggingDestinations`, which skips a bad monitored resource and answers OK.
  unfoldable pub add_logging_destinations :
      List Destination
      → List MonitoredResourceDescriptor
      → List LogDescriptor
      → List Str × LabelMap
      → List Str × LabelMap
  add_logging_destinations [] mrs lds (logs, labels) = (logs, labels)
  add_logging_destinations (d ∷ ds) mrs lds (logs, labels) =
      let added = add_monitored_resource_labels mrs d.monitored_resource labels in
      add_logging_destinations ds mrs lds
        (if is_ok added.0 then add_logs lds d.names (logs, added.1) else (logs, added.1))

  -- One metric of `AddMonitoringDestinations`: unknown, unsupported and bad ones are skipped.
  unfoldable pub add_found_metric :
      Option MetricDescriptor → Str → MetricMap × LabelMap → MetricMap × LabelMap
  add_found_metric none name (metrics, labels) = (metrics, labels)
  add_found_metric (some md) name (metrics, labels) =
      let added = add_labels md.labels labels in
      if not (metric_supported md)
      then (metrics, labels)
      else (if is_ok added.0 then insert_new name md metrics else metrics, added.1)

  unfoldable pub add_metrics :
      List MetricDescriptor → List Str → MetricMap × LabelMap → MetricMap × LabelMap
  add_metrics mds [] maps = maps
  add_metrics mds (name ∷ names) maps =
      add_metrics mds names (add_found_metric (find_metric_descriptor mds name) name maps)

  -- `AddMonitoringDestinations`, which answers OK.
  unfoldable pub add_monitoring_destinations :
      List Destination
      → List MonitoredResourceDescriptor
      → List MetricDescriptor
      → MetricMap × LabelMap
      → MetricMap × LabelMap
  add_monitoring_destinations [] mrs mds (metrics, labels) = (metrics, labels)
  add_monitoring_destinations (d ∷ ds) mrs mds (metrics, labels) =
      let added = add_monitored_resource_labels mrs d.monitored_resource labels in
      add_monitoring_destinations ds mrs mds
        (if is_ok added.0 then add_metrics mds d.names (metrics, added.1) else (metrics, added.1))

  -- What `LoadLogsMetrics` collects: logs, metrics and labels.
  unfoldable pub load_logs_metrics : Service → List Str × MetricMap × LabelMap
  load_logs_metrics service =
      let logging =
        add_logging_destinations service.logging_producers service.monitored_resources service.logs
          ([], []) in
      let producers =
        add_monitoring_destinations service.monitoring_producers service.monitored_resources
          service.metrics ([], logging.1) in
      let consumers =
        add_monitoring_destinations service.monitoring_consumers service.monitored_resources
          service.metrics producers in
      (logging.0, consumers.0, consumers.1)

-- `LogsMetricsLoader::Load`, into empty sets: the logs, and the names of the metrics and the labels.
unfoldable pub load : Service → List Str × List Str × List Str
load service =
    let loaded = load_logs_metrics is_label_supported is_metric_supported service in
    (loaded.0, map (λ m. m.0) loaded.1, map (λ l. l.0) loaded.2)

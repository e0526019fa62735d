-- ===== src/ServiceControl/RequestBuilder/Proto.antt =====
-- The messages of the service control server that
-- src/api_proxy/service_control/request_builder.cc fills, by the fields it sets. A distribution is
-- an opaque type.
use esp_v.Base.{ℕ, ◌/◌, ◌%◌, Str, Bool, Option, none, List, [], ℤ}

pub record Timestamp : Type 0 where
  pub seconds : ℕ
  pub nanos : ℕ

-- `CreateTimestamp`, of a time in nanoseconds since the epoch.
unfoldable pub create_timestamp : ℕ → Timestamp
create_timestamp ns = record { seconds = ns / 1000000000; nanos = ns % 1000000000 }

-- The value of a metric; an `int64_t` in the model's integers.
pub data MetricValue (D : Type 0) : Type 0 where
  value_not_set : MetricValue D
  int64_value : ℤ → MetricValue D
  distribution_value : D → MetricValue D

-- A `MetricValueSet`: its name and its one value.
abbrev pub MetricValueSet : Type 0 → Type 0
MetricValueSet D = Str × MetricValue D

pub data Severity : Type 0 where
  info_severity error_severity : Severity

-- A `google::protobuf::Value` of a log entry.
pub data LogValue : Type 0 where
  string_field : Str → LogValue
  number_field : ℤ → LogValue
  -- the seconds with the nanoseconds as their fraction
  time_field : Timestamp → LogValue

pub record LogEntry : Type 0 where
  pub name : Str
  pub timestamp : Timestamp
  pub severity : Severity
  pub fields : List (Str × LogValue)

pub record Operation (D : Type 0) : Type 0 where
  pub operation_id : Str
  pub operation_name : Str
  pub consumer_id : Str
  pub start_time : Option Timestamp
  pub end_time : Option Timestamp
  pub labels : List (Str × Str)
  pub metric_value_sets : List (MetricValueSet D)
  pub log_entries : List LogEntry

abbrev pub new_operation : {D : Type 0} → Operation D
new_operation = record {
  operation_id = [];
  operation_name = [];
  consumer_id = [];
  start_time = none;
  end_time = none;
  labels = [];
  metric_value_sets = [];
  log_entries = [];
}

pub record CheckRequest (D : Type 0) : Type 0 where
  pub service_name : Str
  pub service_config_id : Str
  pub operation : Operation D

pub record ReportRequest (D : Type 0) : Type 0 where
  pub service_name : Str
  pub service_config_id : Str
  pub operations : List (Operation D)

-- `QuotaOperation`; its mode is always `BEST_EFFORT`.
pub record QuotaOperation (D : Type 0) : Type 0 where
  pub operation_id : Str
  pub method_name : Str
  pub consumer_id : Str
  pub is_best_effort : Bool
  pub labels : List (Str × Str)
  pub quota_metrics : List (MetricValueSet D)

pub record AllocateQuotaRequest (D : Type 0) : Type 0 where
  pub service_name : Str
  pub service_config_id : Str
  pub allocate_operation : QuotaOperation D

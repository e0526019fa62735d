-- ===== src/ServiceControl/Call/Reported.antt =====
-- The reports of src/envoy/http/service_control/service_control_call_impl.cc, and the service
-- configuration they follow.
use mathlib.Core.Path.{subst}
use mathlib.Core.Option.{some-injective}
use esp_v.Base.{
  Str, Bool, true, some, List, [], ◌∷◌, All, All-map, ◌≡◌, and_true, Bool-cases, inl, inr,
}
use esp_v.PathMatcher.RequestPath.Split.{contains}
use esp_v.ServiceControl.Info.{ReportRequestInfo}
use esp_v.ServiceControl.RequestBuilder.Metrics.{DistributionHelper}
use esp_v.ServiceControl.RequestBuilder.Table.{supported_metrics}
use esp_v.ServiceControl.RequestBuilder.Labels.{Externals}
use esp_v.ServiceControl.RequestBuilder.Builder.{
  RequestBuilder, filter_pointers, new_request_builder_with,
}
use esp_v.ServiceControl.RequestBuilder.Names.{IsBuilder, all_metrics, given_metrics}
use esp_v.ServiceControl.RequestBuilder.Operations.{AllNames, fill_report_request-AllNames}
use esp_v.ServiceControl.LogsMetrics.{Service, load}
use esp_v.ServiceControl.Call.{
  ServiceConfig, no_service_config, bad_service_config, service_config, request_builder_for,
  report_request,
}

filter_pointers-passes {ℓ} :
    {E : Type ℓ} (pred : E → Bool) (es : List E)
    → All (λ e. pred e ≡ true) (filter_pointers pred es)
unfolding filter_pointers
filter_pointers-passes pred [] = tt
filter_pointers-passes pred (e ∷ es) = elim (Bool-cases (pred e)) [
  | inl t ↦ rw t (t, filter_pointers-passes pred es)
  | inr f ↦ rw f (filter_pointers-passes pred es)
]

-- The builder of the constructor is one of the two that there are.
request_builder_for-IsBuilder :
    (config : ServiceConfig) (name id : Str) {b : RequestBuilder}
    → request_builder_for config name id ≡ some b
    → IsBuilder b
unfolding request_builder_for
request_builder_for-IsBuilder no_service_config name id made =
    subst IsBuilder (some-injective _ _ made) (all_metrics _ name id)
request_builder_for-IsBuilder bad_service_config name id made = cc
request_builder_for-IsBuilder (service_config service) name id made =
    subst IsBuilder (some-injective _ _ made) (given_metrics _ _ _ name id)

new_request_builder_with-metrics :
    (logs metrics labels : List Str) (name id : Str)
    → All
        (λ m. contains metrics m.name ≡ true)
        (new_request_builder_with logs metrics labels name id).metrics
unfolding new_request_builder_with
new_request_builder_with-metrics logs metrics labels name id =
    All-map (λ m both. (and_true _ _ both).1) _ (filter_pointers-passes _ supported_metrics)

-- With a service configuration, every metric of every report is one of those that the loader has
-- found in it.
pub report_request-loaded :
    {D : Type 0} (helper : DistributionHelper D) (ext : Externals) (service : Service)
    (name id : Str) (info : ReportRequestInfo) {b : RequestBuilder}
    → request_builder_for (service_config service) name id ≡ some b
    → All
        (AllNames (λ metric. contains (load service).1 metric ≡ true))
        (report_request helper ext b info).operations
unfolding request_builder_for report_request
report_request-loaded helper ext service name id info {b} made =
    let loaded = load service in
    fill_report_request-AllNames helper ext b (λ metric. contains loaded.1 metric ≡ true) info
      (subst (λ b. All (λ m. contains loaded.1 m.name ≡ true) b.metrics) (some-injective _ _ made)
        (new_request_builder_with-metrics loaded.0 loaded.1 loaded.2 name id))

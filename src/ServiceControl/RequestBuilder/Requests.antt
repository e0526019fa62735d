-- ===== src/ServiceControl/RequestBuilder/Requests.antt =====
-- The quota requests of src/api_proxy/service_control/request_builder.cc.
use esp_v.Base.{Str, true, List, [], ◌∷◌, map, All, ◌≡◌, refl, ap, arith, ℤ, pos, negsuc, leb_ℤ}
use esp_v.ServiceControl.Info.{QuotaRequestInfo}
use esp_v.ServiceControl.RequestBuilder.Proto.{MetricValueSet, int64_value}
use esp_v.ServiceControl.RequestBuilder.Metrics.{DistributionHelper}
use esp_v.ServiceControl.RequestBuilder.Labels.{Externals}
use esp_v.ServiceControl.RequestBuilder.Builder.{RequestBuilder}
use esp_v.ServiceControl.RequestBuilder.Fill.{at_least_1, costs_of, fill_allocate_quota_request}

-- A metric of a quota request that costs at least one.
abbrev pub Costs1 : {D : Type 0} → MetricValueSet D → Type 0
Costs1 v = (n : ℤ) × (v.1 ≡ int64_value n) × (leb_ℤ (pos 1) n ≡ true)

at_least_1_lem : (cost : ℤ) → leb_ℤ (pos 1) (at_least_1 cost) ≡ true
at_least_1_lem (pos n) = ground arith
at_least_1_lem (negsuc n) = refl

costs_lem :
    (D : Type 0) (costs : List (Str × ℤ))
    → let metrics : List (MetricValueSet D) =
        map (λ metric. (metric.0, int64_value (at_least_1 metric.1))) costs in
      (map (λ v. v.0) metrics ≡ map (λ c. c.0) costs) × All Costs1 metrics
costs_lem D [] = (refl, tt)
costs_lem D ((name, cost) ∷ costs) =
    let rest = costs_lem D costs in
    (ap (λ names. name ∷ names) rest.0, ((at_least_1 cost, refl, at_least_1_lem cost), rest.1))

-- A quota request asks for the metrics of the requirement, by name and in their order, and for at
-- least one of each, whatever their costs are.
pub fill_allocate_quota_request-costs :
    {D : Type 0} (helper : DistributionHelper D) (ext : Externals) (b : RequestBuilder)
    (info : QuotaRequestInfo)
    → let metrics =
        (fill_allocate_quota_request helper ext b info).allocate_operation.quota_metrics in
      (map (λ v. v.0) metrics ≡ map (λ c. c.0) (costs_of info.metric_cost_vector))
      × All Costs1 metrics
unfolding fill_allocate_quota_request
fill_allocate_quota_request-costs helper ext b info = costs_lem _ (costs_of info.metric_cost_vector)

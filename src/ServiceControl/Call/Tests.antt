-- ===== src/ServiceControl/Call/Tests.antt =====
-- Runs of the service control calls: tokens from the metadata server, and a configured service.
use esp_v.Base.{codes, true, some, none, List, Str, [], ◌∷◌, All, ◌≡◌, refl}
use esp_v.PathMatcher.RequestPath.Split.{contains}
use esp_v.ServiceControl.RequestBuilder.Builder.{
  RequestBuilder, new_request_builder, new_request_builder_with,
}
use esp_v.ServiceControl.RequestBuilder.Operations.{AllNames}
use esp_v.ServiceControl.RequestBuilder.Tests.{counting, plain, echo_report}
use esp_v.ServiceControl.LogsMetrics.{load}
use esp_v.ServiceControl.LogsMetrics.Tests.{echo_service}
use esp_v.ServiceControl.Call.{
  imds_token, imds_delivers, TokenEvent, CallState, caches, no_service_config, service_config,
  new_call, request_builder_for, has_token_source, is_subscribed, report_request,
}
use esp_v.ServiceControl.Call.Tokens.{Sends, deliver, last_tokens, AllSubscribed, deliver-Sends}
use esp_v.ServiceControl.Call.Reported.{report_request-loaded}

abbrev two_threads : List Str
two_threads = codes "main" ∷ codes "worker" ∷ []

abbrev started : CallState
started = record { threads = caches two_threads; access_token_for_iam = [] }

abbrev echo_builder : RequestBuilder
echo_builder = new_request_builder (codes "endpoints_log" ∷ []) (codes "echo") (codes "c1")

started-new_call :
    new_call imds_token no_service_config (codes "echo") (codes "c1") two_threads
    ≡ some (started, echo_builder)
unfolding new_call request_builder_for has_token_source
started-new_call = refl

abbrev tokens : List TokenEvent
tokens = imds_delivers (codes "t1") ∷ imds_delivers (codes "t2") ∷ []

tokens-AllSubscribed : AllSubscribed imds_token tokens
unfolding is_subscribed
tokens-AllSubscribed = (refl, (refl, tt))

deliver-Sends_example :
    All (Sends (last_tokens tokens (none, none))) (deliver imds_token tokens started).threads
deliver-Sends_example =
    deliver-Sends imds_token no_service_config (codes "echo") (codes "c1") two_threads tokens
      started-new_call tokens-AllSubscribed

abbrev loaded_builder : RequestBuilder
loaded_builder =
    let loaded = load echo_service in
    new_request_builder_with loaded.0 loaded.1 loaded.2 (codes "echo") (codes "c1")

loaded_builder-request_builder_for :
    request_builder_for (service_config echo_service) (codes "echo") (codes "c1")
    ≡ some loaded_builder
unfolding request_builder_for
loaded_builder-request_builder_for = refl

report_request-loaded_example :
    All
      (AllNames (λ metric. contains (load echo_service).1 metric ≡ true))
      (report_request counting plain loaded_builder echo_report).operations
report_request-loaded_example =
    report_request-loaded counting plain echo_service (codes "echo") (codes "c1") echo_report
      loaded_builder-request_builder_for

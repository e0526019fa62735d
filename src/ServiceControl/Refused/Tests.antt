-- ===== src/ServiceControl/Refused/Tests.antt =====
-- A request whose key has expired, up to its report.
use esp_v.Base.{codes, ◌++◌, true, false, none, ◌+◌, ◌∷◌, List, [], All, ◌≡◌, refl}
use esp_v.PathMatcher.Matcher.Tests.{splitting}
use esp_v.ServiceControl.Handler.{Handler}
use esp_v.ServiceControl.Report.Tests.{
  echo_requirement, echo_handler, echo_config, echo_stream, no_messages,
}
use esp_v.ServiceControl.Filter.Lifecycle.{Event, data_arrives, reports}
use esp_v.ServiceControl.Filter.{Client, new_stream}
use esp_v.ServiceControl.RequestBuilder.Convert.{api_key_expired}
use esp_v.ServiceControl.RequestBuilder.Fill.{fill_report_request}
use esp_v.ServiceControl.RequestBuilder.Names.{all_metrics}
use esp_v.ServiceControl.RequestBuilder.Checked.{is_key_error}
use esp_v.ServiceControl.RequestBuilder.Unkeyed.{AreUnkeyed}
use esp_v.ServiceControl.RequestBuilder.Tests.{counting, plain, echo_builder, expired}
use esp_v.ServiceControl.Refused.{answered, refused_key-IsUnkeyed}

abbrev waiting_client : Client
waiting_client = record {
  check_answer = none;
  quota_answer = none;
  http_status = λ code. code + 400;
  to_string = λ status. codes "INTERNAL:" ++ status.message;
}

abbrev expired_handler : Handler
expired_handler =
    (answered waiting_client echo_requirement expired (codes "echo")
      (new_stream echo_handler)).handler

abbrev events : List Event
events = data_arrives 20000000 true false ∷ []

expired-blames_key : is_key_error api_key_expired ≡ true
unfolding is_key_error
expired-blames_key = refl

refused_key-IsUnkeyed_example :
    All
      (λ info. AreUnkeyed (fill_report_request counting plain echo_builder info).1.operations)
      (reports splitting echo_config echo_stream no_messages 60000000 events expired_handler)
refused_key-IsUnkeyed_example =
    refused_key-IsUnkeyed counting plain echo_builder splitting echo_config echo_stream no_messages
      60000000 events waiting_client echo_requirement expired (codes "echo")
      (new_stream echo_handler)
      (all_metrics (codes "endpoints_log" ∷ []) (codes "echo") (codes "c1")) expired-blames_key

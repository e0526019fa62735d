-- ===== src/ServiceControl/Filter/Tests.antt =====
-- Runs of the filter: a check that is answered later, and a quota call that is answered at once.
use esp_v.Base.{codes, ◌++◌, true, false, not, ◌+◌, none, some, List, [], ◌∷◌, ◌≡◌, refl, is_empty}
use esp_v.ServiceControl.Info.{ok_status, no_response_info, is_ok}
use esp_v.ServiceControl.Handler.{is_check_required, is_report_required, has_api_key}
use esp_v.ServiceControl.Report.Tests.{
  echo_requirement, echo_handler, echo_config, echo_stream, no_messages,
}
use esp_v.PathMatcher.Matcher.Tests.{splitting}
use esp_v.ServiceControl.Filter.Lifecycle.{Event, data_arrives, reports}
use esp_v.ServiceControl.Filter.FirstToLast.{FromFirstToLast, reports-FromFirstToLast}
use esp_v.ServiceControl.Filter.{
  Stream, Client, decode_headers, call_check, call_check_for, check_answered, end_headers,
  check_callback, Reach, here, next, check_response,
}
use esp_v.ServiceControl.Filter.Outcome.{Decision}
use esp_v.ServiceControl.Filter.Decision.{decides_once}

abbrev slow_client : Client
slow_client = record {
  check_answer = none;
  quota_answer = some ok_status;
  http_status = λ code. code + 400;
  to_string = λ status. codes "INTERNAL:" ++ status.message;
}

abbrev asked : Stream
asked = (decode_headers slow_client echo_handler).1

abbrev let_through : Stream
let_through =
    check_callback slow_client echo_requirement ok_status no_response_info
      (record asked { awaits_check = false })

let_through-Reach : Reach slow_client echo_requirement asked let_through
unfolding decode_headers call_check call_check_for check_answered end_headers is_check_required
    has_api_key is_empty
let_through-Reach = next here (check_response ok_status no_response_info asked refl)

ok_status-is_ok : is_ok ok_status ≡ true
unfolding is_ok
ok_status-is_ok = refl

decides_once_example :
    Decision echo_requirement (not ((decode_headers slow_client echo_handler).0)) let_through
decides_once_example =
    decides_once slow_client echo_requirement echo_handler refl ok_status-is_ok let_through-Reach

echo_requirement-is_report_required : is_report_required echo_requirement ≡ true
unfolding is_report_required
echo_requirement-is_report_required = refl

abbrev arrivals : List Event
arrivals = data_arrives 20000000 true false ∷ data_arrives 50000000 true true ∷ []

reports-FromFirstToLast_example :
    FromFirstToLast true
      (reports splitting echo_config echo_stream no_messages 60000000 arrivals echo_handler)
reports-FromFirstToLast_example =
    reports-FromFirstToLast splitting echo_config echo_stream no_messages 60000000 arrivals
      echo_handler echo_requirement refl echo_requirement-is_report_required

-- ===== src/ServiceControl/Filter/Keyless.antt =====
-- The api key in the reports of a request (src/envoy/http/service_control/filter.cc and
-- handler_impl.cc).
use mathlib.Core.Path.{subst}
use esp_v.Base.{
  ℕ, ltb, Str, Bool, true, not, ◌&&◌, ◌||◌, Option, none, some, Bool-cases, Option-cases, List, [],
  ◌∷◌, All, ◌≡◌, inl, inr, refl, ap, ◌∙◌,
}
use esp_v.PathMatcher.RequestPath.Split.{StrSplit}
use esp_v.ServiceControl.Info.{CheckResponseInfo, ReportRequestInfo}
use esp_v.ServiceControl.HandlerUtils.{StreamInfo, fill_gcp_info}
use esp_v.ServiceControl.Handler.{Handler, Requirement, ConfigParser, is_report_required}
use esp_v.ServiceControl.Report.{
  Messages, call_report, final_info, prepare_report_request, report_operation,
  try_intermediate_report, try_intermediate_report_of, intermediate_report, intermediate_info,
  process_response_headers, elapsed_ms, ctx_or,
}
use esp_v.ServiceControl.Filter.Lifecycle.{
  Event, data_arrives, response_headers_arrive, on_event, on_data, reports, with_report,
}

-- A check response after which no report names the api key.
abbrev pub hides_key : CheckResponseInfo → Bool
hides_key info = not info.is_api_key_valid || not info.service_is_activated

abbrev pub IsKeyless : ReportRequestInfo → Type 0
IsKeyless info = info.operation.api_key ≡ []

abbrev IsKeylessIfSent : Option ReportRequestInfo → Type 0
IsKeylessIfSent none = Unit
IsKeylessIfSent (some info) = IsKeyless info

prepare_report_request-IsKeyless :
    (cfg : ConfigParser) (h : Handler) (r : Requirement) (ip : Str) (now : ℕ)
    → hides_key h.check_response_info ≡ true
    → IsKeyless (prepare_report_request cfg h r ip now)
unfolding prepare_report_request report_operation fill_gcp_info
prepare_report_request-IsKeyless cfg h r ip now hidden = elim (Option-cases (cfg.gcp_attributes)) [
  | inl absent ↦ rw (fill_gcp_info, absent, hidden) refl
  | inr (gcp, present) ↦ rw (fill_gcp_info, present, hidden) refl
]

-- What an event leaves behind, unless it reads through a null pointer: a handler with the same check
-- response, and no report with a key.
abbrev IsKept : Handler → Option (Handler × Option ReportRequestInfo) → Type 0
IsKept h none = Unit
IsKept h (some (h', report)) =
    (h'.check_response_info ≡ h.check_response_info) × IsKeylessIfSent report

try_intermediate_report_of-IsKept :
    (cfg : ConfigParser) (stream : StreamInfo) (now : ℕ) (ctx : Option Requirement) (h : Handler)
    → hides_key h.check_response_info ≡ true
    → IsKept h (try_intermediate_report_of cfg stream now ctx h)
unfolding try_intermediate_report_of intermediate_report intermediate_info
try_intermediate_report_of-IsKept cfg stream now none h hidden = elim (Bool-cases h.is_grpc) [
  | inl t ↦ rw t tt
  | inr f ↦ rw f (refl, tt)
]
try_intermediate_report_of-IsKept cfg stream now (some r) h hidden =
    elim (Bool-cases
      (h.is_grpc && not (ltb (elapsed_ms now h.last_reported) r.min_stream_report_interval_ms))) [
        | inl t ↦ rw t (refl, prepare_report_request-IsKeyless cfg h r stream.client_ip now hidden)
        | inr f ↦ rw f (refl, tt)
      ]

on_event-IsKept :
    (cfg : ConfigParser) (stream : StreamInfo) (event : Event) (h : Handler)
    → hides_key h.check_response_info ≡ true
    → IsKept h (on_event cfg stream event h)
unfolding on_event on_data process_response_headers try_intermediate_report
on_event-IsKept cfg stream (response_headers_arrive headers) h hidden = (refl, tt)
on_event-IsKept cfg stream (data_arrives now has_data end_stream) h hidden =
    elim (Bool-cases (not end_stream && has_data)) [
      | inl t ↦ rw t (try_intermediate_report_of-IsKept cfg stream now h.require_ctx h hidden)
      | inr f ↦ rw f (refl, tt)
    ]

with_report-All :
    (report : Option ReportRequestInfo) (others : List ReportRequestInfo)
    → IsKeylessIfSent report
    → All IsKeyless others
    → All IsKeyless (with_report report others)
with_report-All none others keyless all = all
with_report-All (some info) others keyless all = (keyless, all)

call_report-IsKeyless :
    (absl : StrSplit) (cfg : ConfigParser) (stream : StreamInfo) (messages : Messages) (now : ℕ)
    (h : Handler)
    → hides_key h.check_response_info ≡ true
    → IsKeylessIfSent (call_report absl cfg stream messages now h).1
unfolding call_report final_info
call_report-IsKeyless absl cfg stream messages now h hidden =
    let r = ctx_or cfg.non_match h.require_ctx in
    elim (Bool-cases (is_report_required r)) [
      | inl t ↦ rw t (
          prepare_report_request-IsKeyless cfg (record h { require_ctx = some r }) r
            stream.client_ip now hidden)
      | inr f ↦ rw f tt
    ]

-- No report of a request whose handler has such a check response has an api key.
pub reports-IsKeyless :
    (absl : StrSplit) (cfg : ConfigParser) (stream : StreamInfo) (messages : Messages) (now : ℕ)
    (events : List Event) (h : Handler)
    → hides_key h.check_response_info ≡ true
    → All IsKeyless (reports absl cfg stream messages now events h)
unfolding reports
reports-IsKeyless absl cfg stream messages now [] h hidden =
    with_report-All _ [] (call_report-IsKeyless absl cfg stream messages now h hidden) tt
reports-IsKeyless absl cfg stream messages now (event ∷ events) h hidden =
    let kept = on_event-IsKept cfg stream event h hidden in
    elim (Option-cases (on_event cfg stream event h)) [
      | inl crashed ↦ rw (reports, crashed) tt
      | inr ((h', report), done) ↦
          let (same, keyless) = subst (IsKept h) done kept in
          rw (reports, done)
            (with_report-All report _ keyless (
              reports-IsKeyless absl cfg stream messages now events h'
                (ap hides_key same ∙ hidden)))
    ]

-- ===== src/ServiceControl/Filter/FirstToLast.antt =====
-- The order of the reports of a request (src/envoy/http/service_control/filter.cc and
-- handler_impl.cc).
use mathlib.Core.Path.{subst}
use esp_v.Base.{
  ℕ, ltb, Str, Bool, true, false, not, ◌&&◌, Option, none, some, Bool-cases, Option-cases, List, [],
  ◌∷◌, ◌≡◌, inl, inr, refl, ◌∙◌,
}
use esp_v.PathMatcher.RequestPath.Split.{StrSplit}
use esp_v.ServiceControl.Info.{ReportRequestInfo}
use esp_v.ServiceControl.HandlerUtils.{StreamInfo, fill_gcp_info}
use esp_v.ServiceControl.Handler.{Handler, Requirement, ConfigParser, is_report_required}
use esp_v.ServiceControl.Report.{
  Messages, call_report, final_info, prepare_report_request, try_intermediate_report,
  try_intermediate_report_of, intermediate_report, intermediate_info, process_response_headers,
  elapsed_ms,
}
use esp_v.ServiceControl.Filter.Lifecycle.{
  Event, data_arrives, response_headers_arrive, on_event, on_data, reports, with_report,
}

-- The first report is the one flagged as first, as far as `first` says that none was sent before,
-- and the last one, which is always there, is the one flagged as final.
pub data FromFirstToLast : Bool → List ReportRequestInfo → Type 0 where
  last :
      {first : Bool} (info : ReportRequestInfo)
      → info.is_first_report ≡ first
      → info.is_final_report ≡ true
      → FromFirstToLast first (info ∷ [])
  more :
      {first : Bool} (info : ReportRequestInfo) {others : List ReportRequestInfo}
      → info.is_first_report ≡ first
      → info.is_final_report ≡ false
      → FromFirstToLast false others
      → FromFirstToLast first (info ∷ others)

-- A handler behind an event and the report it sent.
abbrev pub IsNext : Handler → Handler → Option ReportRequestInfo → Type 0
IsNext h h' none = (h'.require_ctx ≡ h.require_ctx) × (h'.is_first_report ≡ h.is_first_report)
IsNext h h' (some info) =
    (h'.require_ctx ≡ h.require_ctx)
    × (h'.is_first_report ≡ false)
    × (info.is_first_report ≡ h.is_first_report)
    × (info.is_final_report ≡ false)

prepare_report_request-final :
    (cfg : ConfigParser) (h : Handler) (r : Requirement) (ip : Str) (now : ℕ)
    → (prepare_report_request cfg h r ip now).is_final_report ≡ true
unfolding prepare_report_request fill_gcp_info
prepare_report_request-final cfg h r ip now = elim (Option-cases (cfg.gcp_attributes)) [
  | inl absent ↦ rw (fill_gcp_info, absent) refl
  | inr (gcp, present) ↦ rw (fill_gcp_info, present) refl
]

try_intermediate_report-IsNext :
    (cfg : ConfigParser) (stream : StreamInfo) (now : ℕ) (h : Handler) (r : Requirement)
    → h.require_ctx ≡ some r
    → (h' : Handler) × (report : Option ReportRequestInfo) × (try_intermediate_report cfg stream now
          h
        ≡ some (h', report))
      × IsNext h h' report
unfolding try_intermediate_report try_intermediate_report_of intermediate_report intermediate_info
try_intermediate_report-IsNext cfg stream now h r e =
    elim (Bool-cases
      (h.is_grpc && not (ltb (elapsed_ms now h.last_reported) r.min_stream_report_interval_ms))) [
        | inl t ↦ (
          record h { last_reported = now; is_first_report = false },
          some (intermediate_info cfg stream now r h),
          rw (e, t) refl,
          (refl, refl, refl, refl),
        )
        | inr f ↦ (h, none, rw (e, f) refl, (refl, refl))
      ]

on_event-IsNext :
    (cfg : ConfigParser) (stream : StreamInfo) (event : Event) (h : Handler) (r : Requirement)
    → h.require_ctx ≡ some r
    → (h' : Handler) × (report : Option ReportRequestInfo) × (on_event cfg stream event h
        ≡ some (h', report))
      × IsNext h h' report
unfolding on_event on_data process_response_headers
on_event-IsNext cfg stream (response_headers_arrive headers) h r e =
    (process_response_headers headers stream h, none, refl, (refl, refl))
on_event-IsNext cfg stream (data_arrives now has_data end_stream) h r e =
    let (h', report, done, next) = try_intermediate_report-IsNext cfg stream now h r e in
    elim (Bool-cases (not end_stream && has_data)) [
      | inl t ↦ (h', report, rw t done, next)
      | inr f ↦ (h, none, rw f refl, (refl, refl))
    ]

IsNext-ctx :
    (h h' : Handler) (report : Option ReportRequestInfo)
    → IsNext h h' report
    → h'.require_ctx ≡ h.require_ctx
IsNext-ctx h h' none next = next.0
IsNext-ctx h h' (some info) next = next.0

with_report-FromFirstToLast :
    (h h' : Handler) (report : Option ReportRequestInfo) (others : List ReportRequestInfo)
    → IsNext h h' report
    → FromFirstToLast h'.is_first_report others
    → FromFirstToLast h.is_first_report (with_report report others)
with_report-FromFirstToLast h h' none others next rest =
    subst (λ first. FromFirstToLast first others) next.1 rest
with_report-FromFirstToLast h h' (some info) others next rest =
    more info next.2 next.3 (subst (λ first. FromFirstToLast first others) next.1 rest)

-- Whatever happens to a request with a requirement that is reported, until it is logged: it gets at
-- least one report; the last one, and no other, is final; and, on a new handler, the first one, and
-- no other, is flagged as first.
pub reports-FromFirstToLast :
    (absl : StrSplit) (cfg : ConfigParser) (stream : StreamInfo) (messages : Messages) (now : ℕ)
    (events : List Event) (h : Handler) (r : Requirement)
    → h.require_ctx ≡ some r
    → is_report_required r ≡ true
    → FromFirstToLast h.is_first_report (reports absl cfg stream messages now events h)
unfolding reports call_report final_info
reports-FromFirstToLast absl cfg stream messages now [] h r e required =
    let h' = record h { require_ctx = some r } in
    rw (e, required)
      (last (final_info absl cfg stream messages now r h') refl
        (prepare_report_request-final cfg h' r stream.client_ip now))
reports-FromFirstToLast absl cfg stream messages now (event ∷ events) h r e required =
    let (h', report, done, next) = on_event-IsNext cfg stream event h r e in
    rw (reports, done)
      (with_report-FromFirstToLast h h' report _ next (
        reports-FromFirstToLast absl cfg stream messages now events h' r
          (IsNext-ctx h h' report next ∙ e) required))

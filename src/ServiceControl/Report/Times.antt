-- ===== src/ServiceControl/Report/Times.antt =====
-- The reports of src/envoy/http/service_control/handler_impl.cc: their times.
use esp_v.Base.{
  ℕ, ◌+◌, ◌*◌, ◌≤◌, ◌<◌, ltb, false, not, ◌&&◌, none, some, List, [], ◌∷◌, ◌≡◌, ◌⊎◌, inl, inr, refl,
  arith, Bool-cases,
}
use esp_v.ServiceControl.Handler.{Handler, Requirement, ConfigParser}
use esp_v.ServiceControl.Info.{ReportRequestInfo}
use esp_v.ServiceControl.HandlerUtils.{StreamInfo}
use esp_v.ServiceControl.Report.{
  try_intermediate_report, try_intermediate_report_of, intermediate_report, intermediate_info,
  elapsed_ms,
}

-- The reports of a stream at given moments, with the times at which they were sent.
unfoldable pub report_times : ConfigParser → StreamInfo → List ℕ → Handler → List ℕ
report_times cfg stream [] h = []
report_times cfg stream (now ∷ moments) h = elim (try_intermediate_report cfg stream now h) [
  | none ↦ []
  | some (h', report) ↦
      let rest = report_times cfg stream moments h' in
      elim report [ none ↦ rest | some info ↦ now ∷ rest ]
]

-- Each time lies at least `gap` milliseconds behind the one before it.
abbrev pub AreApart : ℕ → ℕ → List ℕ → Type 0
AreApart gap last [] = Unit
AreApart gap last (t ∷ ts) = (last + gap * 1000000 ≤ t) × AreApart gap t ts

abbrev pub reported : ℕ → Handler → Handler
reported now h = record h { last_reported = now; is_first_report = false }

-- What `tryIntermediateReport` does for a request with a requirement: nothing, or one report, at
-- least the interval after the one before it.
try_intermediate_report-cases :
    (cfg : ConfigParser) (stream : StreamInfo) (now : ℕ) (h : Handler) (r : Requirement)
    → h.require_ctx ≡ some r
    → 0 < r.min_stream_report_interval_ms
    → (try_intermediate_report cfg stream now h ≡ some (h, none))
      ⊎ ((h.last_reported + r.min_stream_report_interval_ms * 1000000 ≤ now)
          × (info : ReportRequestInfo) × (try_intermediate_report cfg stream now h
              ≡ some (reported now h, some info)))
unfolding try_intermediate_report try_intermediate_report_of intermediate_report
try_intermediate_report-cases cfg stream now h r e pos =
    elim (Bool-cases
      (h.is_grpc && not (ltb (elapsed_ms now h.last_reported) r.min_stream_report_interval_ms))) [
        | inl t ↦ inr (ground arith, intermediate_info cfg stream now r h, rw (e, t) refl)
        | inr f ↦ inl (rw (e, f) refl)
      ]

-- On a stream whose requirement has a positive report interval, two intermediate reports, and the
-- last report before them and the first of them, are at least the interval apart, whenever data
-- arrives.
pub report_times-AreApart :
    (cfg : ConfigParser) (stream : StreamInfo) (moments : List ℕ) (h : Handler) (r : Requirement)
    → h.require_ctx ≡ some r
    → 0 < r.min_stream_report_interval_ms
    → AreApart r.min_stream_report_interval_ms h.last_reported (report_times cfg stream moments h)
unfolding report_times
report_times-AreApart cfg stream [] h r e pos = tt
report_times-AreApart cfg stream (now ∷ moments) h r e pos =
    elim (try_intermediate_report-cases cfg stream now h r e pos) [
      | inl same ↦ rw (report_times, same) (report_times-AreApart cfg stream moments h r e pos)
      | inr (apart, info, sent) ↦
          rw (report_times, sent)
            (apart, report_times-AreApart cfg stream moments (reported now h) r e pos)
    ]

-- ===== src/ServiceControl/Filter/Lifecycle.antt =====
-- src/envoy/http/service_control/filter.cc: what the filter does around the decision. The reports
-- of a request are those of its data, and the final one when it is logged.
use esp_v.Base.{ℕ, if◌then◌else◌, Bool, true, false, not, ◌&&◌, Option, none, some, List, [], ◌∷◌}
use esp_v.PathMatcher.RequestPath.Split.{StrSplit}
use esp_v.ServiceControl.Info.{ReportRequestInfo}
use esp_v.ServiceControl.HandlerUtils.{HeaderMap, StreamInfo}
use esp_v.ServiceControl.Handler.{Handler, ConfigParser}
use esp_v.ServiceControl.Report.{
  Messages, call_report, try_intermediate_report, process_response_headers,
}

-- The calls of Envoy between `decodeHeaders` and `log`.
pub data Event : Type 0 where
  -- `decodeData` or `encodeData`, with the time, whether there is data, and `end_stream`
  data_arrives : ℕ → Bool → Bool → Event
  response_headers_arrive : HeaderMap → Event

-- `onDestroy` of the handler: it cancels the check that is under way.
unfoldable pub handler_on_destroy : Handler → Bool × Handler
handler_on_destroy h =
    if h.has_cancel_fn then (true, record h { has_cancel_fn = false }) else (false, h)

-- `onDestroy` of the filter: whether a call was cancelled.
unfoldable pub on_destroy : Option Handler → Bool × Option Handler
on_destroy none = (false, none)
on_destroy (some h) = let done = handler_on_destroy h in (done.0, some done.1)

-- `encodeHeaders`
unfoldable pub encode_headers : HeaderMap → StreamInfo → Option Handler → Option Handler
encode_headers headers stream none = none
encode_headers headers stream (some h) = some (process_response_headers headers stream h)

-- `decodeData` and `encodeData`, for the reports; `none` reads through a null pointer.
unfoldable pub on_data :
    ConfigParser
    → StreamInfo
    → ℕ
    → Bool
    → Bool
    → Handler
    → Option (Handler × Option ReportRequestInfo)
on_data cfg stream now has_data end_stream h =
    if not end_stream && has_data then try_intermediate_report cfg stream now h else some (h, none)

unfoldable pub on_event :
    ConfigParser → StreamInfo → Event → Handler → Option (Handler × Option ReportRequestInfo)
on_event cfg stream (data_arrives now has_data end_stream) h =
    on_data cfg stream now has_data end_stream h
on_event cfg stream (response_headers_arrive headers) h =
    some (process_response_headers headers stream h, none)

-- `log` with the time. A filter without a handler makes one from the request's headers.
unfoldable pub log_with :
    StrSplit
    → ConfigParser
    → StreamInfo
    → Messages
    → ℕ
    → (HeaderMap → Handler)
    → Option Handler
    → Option Handler × Option ReportRequestInfo
log_with absl cfg stream messages now create_handler (some h) =
    let reported = call_report absl cfg stream messages now h in (some reported.0, reported.1)
log_with absl cfg stream messages now create_handler none = elim (messages.request_headers) [
  | none ↦ (none, none)
  | some headers ↦
      let reported = call_report absl cfg stream messages now (create_handler headers) in
      (some reported.0, reported.1)
]

abbrev pub with_report : Option ReportRequestInfo → List ReportRequestInfo → List ReportRequestInfo
with_report none reports = reports
with_report (some info) reports = info ∷ reports

-- The reports of a request whose handler is `h`, from the events to its log.
unfoldable pub reports :
    StrSplit
    → ConfigParser
    → StreamInfo
    → Messages
    → ℕ
    → List Event
    → Handler
    → List ReportRequestInfo
reports absl cfg stream messages now [] h =
    with_report (call_report absl cfg stream messages now h).1 []
reports absl cfg stream messages now (event ∷ events) h = elim (on_event cfg stream event h) [
  | none ↦ []
  | some (h', report) ↦ with_report report (reports absl cfg stream messages now events h')
]

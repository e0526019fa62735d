-- ===== src/ServiceControl/Refused.antt =====
-- From the check response of the server to the report of the request: `ConvertCheckResponse` and
-- `FillReportRequest` (src/api_proxy/service_control/request_builder.cc) around the handler
-- (src/envoy/http/service_control/handler_impl.cc).
mod Tests
use esp_v.Base.{ℕ, Str, true, false, not, ◌||◌, All, All-map, List, ◌≡◌, refl, ap, ◌∙◌}
use esp_v.PathMatcher.RequestPath.Split.{StrSplit}
use esp_v.ServiceControl.Info.{Status, is_ok, CheckResponseInfo, no_response_info}
use esp_v.ServiceControl.HandlerUtils.{StreamInfo}
use esp_v.ServiceControl.Handler.{Requirement, ConfigParser}
use esp_v.ServiceControl.Report.{Messages}
use esp_v.ServiceControl.Filter.Lifecycle.{Event, reports}
use esp_v.ServiceControl.Filter.Keyless.{reports-IsKeyless}
use esp_v.ServiceControl.Filter.{Stream, Client, check_callback, on_check_response}
use esp_v.ServiceControl.RequestBuilder.Metrics.{DistributionHelper}
use esp_v.ServiceControl.RequestBuilder.Labels.{Externals}
use esp_v.ServiceControl.RequestBuilder.Builder.{RequestBuilder}
use esp_v.ServiceControl.RequestBuilder.Convert.{CheckResponse, convert_check_response}
use esp_v.ServiceControl.RequestBuilder.Checked.{blames_key, convert_check_response_lem}
use esp_v.ServiceControl.RequestBuilder.Fill.{fill_report_request}
use esp_v.ServiceControl.RequestBuilder.Names.{IsBuilder}
use esp_v.ServiceControl.RequestBuilder.Unkeyed.{AreUnkeyed, fill_report_request-IsUnkeyed}

-- The stream behind the answer of the server.
abbrev pub answered : Client → Requirement → CheckResponse → Str → Stream → Stream
answered client r response name s =
    let converted = convert_check_response response name no_response_info in
    check_callback client r converted.0 converted.1 s

check_callback-info :
    (client : Client) (r : Requirement) (status : Status) (info : CheckResponseInfo) (s : Stream)
    → is_ok status ≡ false
    → (check_callback client r status info s).handler.check_response_info ≡ info
unfolding check_callback on_check_response
check_callback-info client r status info s bad = rw bad refl

-- When the server's first error is about the api key, then in every report that is sent for the
-- request from there to its log, intermediate ones and errors included, each operation has an empty
-- consumer id, no label that names an api key and no metric of a consumer, and the first operation
-- has no label with the project of a consumer.
pub refused_key-IsUnkeyed :
    {D : Type 0} (helper : DistributionHelper D) (ext : Externals) (b : RequestBuilder)
    (absl : StrSplit) (cfg : ConfigParser) (stream : StreamInfo) (messages : Messages) (now : ℕ)
    (events : List Event) (client : Client) (r : Requirement) (response : CheckResponse)
    (name : Str) (s : Stream)
    → IsBuilder b
    → blames_key response.check_errors ≡ true
    → All
        (λ info. AreUnkeyed (fill_report_request helper ext b info).1.operations)
        (reports absl cfg stream messages now events (answered client r response name s).handler)
refused_key-IsUnkeyed helper ext b absl cfg stream messages now events client r response name s
      built blamed =
    let converted = convert_check_response response name no_response_info in
    let h = (answered client r response name s).handler in
    let invalid : converted.1.is_api_key_valid ≡ false =
      (convert_check_response_lem response name).1 ∙ ap not blamed in
    let bad = (convert_check_response_lem response name).2 invalid in
    let noted =
      ap (λ i. i.is_api_key_valid) (check_callback-info client r converted.0 converted.1 s bad)
      ∙ invalid in
    All-map (λ info keyless. fill_report_request-IsUnkeyed helper ext b info built keyless)
      (reports absl cfg stream messages now events h)
      (reports-IsKeyless absl cfg stream messages now events h
        (ap (λ valid. not valid || not h.check_response_info.service_is_activated) noted))

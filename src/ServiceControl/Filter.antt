-- ===== src/ServiceControl/Filter.antt =====
-- src/envoy/http/service_control/filter.{h,cc}: a request on its way through the filter, with the
-- calls of its handler (handler_impl.cc) that answer the filter. The service control client is a
-- parameter: an answer that it gives inside the call is `some`, one that comes later is `none` and
-- arrives by a step.
pub mod Outcome
pub mod Answers
pub mod Decision
pub mod Lifecycle
pub mod FirstToLast
pub mod Keyless
mod Tests
use esp_v.Base.{
  ℕ, ◌+◌, Str, codes, is_empty, if◌then◌else◌, Bool, true, false, not, Option, none, some, List, [],
  ◌∷◌, ◌++◌, ◌≡◌,
}
use esp_v.ServiceControl.Info.{Status, is_ok, CheckResponseInfo}
use esp_v.ServiceControl.Handler.{
  not_found, unauthenticated, Requirement, Handler, is_quota_required, is_check_required,
  has_api_key,
}

-- `State` of the filter.
pub data State : Type 0 where
  init : State
  calling : State
  responded : State
  complete : State

-- What the filter has told Envoy: `continueDecoding()` or `sendLocalReply`.
pub data Action : Type 0 where
  continue_decoding : Action
  local_reply : ℕ → Str → Action

-- The members of `ServiceControlFilter` with its counters, and the actions, the last one first.
pub record Filter : Type 0 where
  pub state : State
  pub stopped : Bool
  pub allowed : ℕ
  pub denied : ℕ
  pub actions : List Action

abbrev pub new_filter : Filter
new_filter = record { state = init; stopped = false; allowed = 0; denied = 0; actions = [] }

-- A filter with its handler, the calls the handler has made, and those that have not answered.
-- `consumer` is the header with the consumer's project.
pub record Stream : Type 0 where
  pub filter : Filter
  pub handler : Handler
  pub consumer : Str
  pub check_calls : ℕ
  pub quota_calls : ℕ
  pub awaits_check : Bool
  pub awaits_quota : Bool

-- The client's answers that come inside the call, `Grpc::Utility::grpcToHttpStatus`, and
-- `Status::ToString` of protocol buffers.
pub record Client : Type 0 where
  pub check_answer : Option (Status × CheckResponseInfo)
  pub quota_answer : Option Status
  pub http_status : ℕ → ℕ
  pub to_string : Status → Str

-- `rejectRequest`
unfoldable pub reject_request : ℕ → Str → Filter → Filter
reject_request http_code message f = record f {
  denied = f.denied + 1;
  state = responded;
  actions = local_reply http_code message ∷ f.actions;
}

abbrev pub continue_if : Bool → List Action → List Action
continue_if true actions = continue_decoding ∷ actions
continue_if false actions = actions

-- `onCheckDone`
unfoldable pub on_check_done : Client → Status → Filter → Filter
on_check_done client status f =
    if is_ok status
    then record f {
      allowed = f.allowed + 1;
      state = complete;
      actions = continue_if f.stopped f.actions;
    }
    else reject_request (client.http_status status.code) (client.to_string status) f

abbrev pub check_done : Client → Status → Stream → Stream
check_done client status s = record s { filter = on_check_done client status s.filter }

-- The callback of `callQuota`.
unfoldable pub on_quota_response : Client → Status → Stream → Stream
on_quota_response client status s =
    check_done client status (record s { handler = record (s.handler) { check_status = status } })

-- `callQuota` once it calls.
unfoldable pub quota_answered : Client → Option Status → Stream → Stream
quota_answered client none s = record s { awaits_quota = true }
quota_answered client (some status) s = on_quota_response client status s

-- `callQuota`
unfoldable pub call_quota : Client → Requirement → Stream → Stream
call_quota client r s =
    if is_quota_required r
    then quota_answered client client.quota_answer (record s { quota_calls = s.quota_calls + 1 })
    else check_done client s.handler.check_status s

-- `onCheckResponse`
unfoldable pub on_check_response :
    Client → Requirement → Status → CheckResponseInfo → Stream → Stream
on_check_response client r status info s =
    let s' = record s {
      handler = record (s.handler) { check_response_info = info; check_status = status };
      consumer = if is_empty info.consumer_project_id then s.consumer else info.consumer_project_id;
    } in
    if is_ok status then call_quota client r s' else check_done client status s'

-- The callback that `callCheck` passes to the client.
unfoldable pub check_callback : Client → Requirement → Status → CheckResponseInfo → Stream → Stream
check_callback client r status info s = on_check_response client r status info (record s {
  handler = record (s.handler) { has_cancel_fn = false; on_check_done_called = true };
})

-- `callCheck` once it calls.
unfoldable pub check_answered :
    Client → Requirement → Option (Status × CheckResponseInfo) → Stream → Stream
check_answered client r none s = record s {
  awaits_check = true;
  handler = record (s.handler) { has_cancel_fn = true };
}
check_answered client r (some (status, info)) s = check_callback client r status info s

abbrev pub no_method : Status
no_method = record { code = not_found; message = codes "Method does not exist." }

abbrev pub no_api_key : Status
no_api_key = record {
  code = unauthenticated;
  message =
      codes "Method doesn't allow unregistered callers (callers without "
      ++ codes "established identity). Please use API Key or other form of "
      ++ codes "API consumer identity to call this API.";
}

-- `callCheck` for a configured method.
unfoldable pub call_check_for : Client → Requirement → Stream → Stream
call_check_for client r s =
    if not (is_check_required r)
    then call_quota client r s
    else if not (has_api_key s.handler)
    then check_done client no_api_key
        (record s { handler = record (s.handler) { check_status = no_api_key } })
    else check_answered client r client.check_answer (record s {
      check_calls = s.check_calls + 1;
      handler = record (s.handler) { on_check_done_called = false };
    })

-- `callCheck`, by `require_ctx_`.
unfoldable pub call_check : Client → Option Requirement → Stream → Stream
call_check client none s = check_done client no_method s
call_check client (some r) s = call_check_for client r s

abbrev pub new_stream : Handler → Stream
new_stream h = record {
  filter = record new_filter { state = calling };
  handler = h;
  consumer = [];
  check_calls = 0;
  quota_calls = 0;
  awaits_check = false;
  awaits_quota = false;
}

-- The end of `decodeHeaders`: whether it continues.
unfoldable pub end_headers : State → Stream → Bool × Stream
end_headers complete s = (true, s)
end_headers init s = (false, record s { filter = record (s.filter) { stopped = true } })
end_headers calling s = (false, record s { filter = record (s.filter) { stopped = true } })
end_headers responded s = (false, record s { filter = record (s.filter) { stopped = true } })

-- `decodeHeaders`, with the handler that the factory makes.
unfoldable pub decode_headers : Client → Handler → Bool × Stream
decode_headers client h =
    let s = call_check client h.require_ctx (new_stream h) in end_headers s.filter.state s

-- `decodeData` and `decodeTrailers`: whether they continue.
unfoldable pub continues : State → Bool
continues calling = false
continues init = true
continues responded = true
continues complete = true

-- What happens to a stream behind `decodeHeaders`: an answer of the client arrives.
pub data Step (client : Client) (r : Requirement) : Stream → Stream → Type 0 where
  check_response :
      (status : Status) (info : CheckResponseInfo) (s : Stream)
      → s.awaits_check ≡ true
      → Step client r s (check_callback client r status info (record s { awaits_check = false }))
  quota_response :
      (status : Status) (s : Stream)
      → s.awaits_quota ≡ true
      → Step client r s (on_quota_response client status (record s { awaits_quota = false }))

-- The streams that answers lead to.
pub data Reach (client : Client) (r : Requirement) (s : Stream) : Stream → Type 0 where
  here : Reach client r s s
  next : {t u : Stream} → Reach client r s t → Step client r t u → Reach client r s u

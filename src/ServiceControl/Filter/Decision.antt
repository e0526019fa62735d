-- ===== src/ServiceControl/Filter/Decision.antt =====
-- The decision of `ServiceControlFilter` (src/envoy/http/service_control/filter.cc) on a request.
use esp_v.Base.{ap, Bool, true, false, not, some, ◌≡◌, refl}
use esp_v.ServiceControl.Info.{is_ok}
use esp_v.ServiceControl.Handler.{Requirement, Handler}
use esp_v.ServiceControl.Filter.{
  Stream, Client, call_check_for, call_check, new_stream, end_headers, decode_headers, Step,
  check_response, quota_response, Reach, here, next,
}
use esp_v.ServiceControl.Filter.Outcome.{
  IsUndecided, IsChecked, IsRefused, Decision, waits_check, waits_quota, passed, refused,
  IsUndecided-elsewhere,
}
use esp_v.ServiceControl.Filter.Answers.{
  on_quota_response-Decision, check_callback-Decision, call_check_for-Decision,
}

-- The stop at the end of `decodeHeaders`, for a filter that has not let the request go on.
stop : Stream → Stream
stop s = record s { filter = record (s.filter) { stopped = true } }

IsUndecided-stop :
    {stopped b c : Bool} {s : Stream} → IsUndecided stopped b c s → IsUndecided true b c (stop s)
unfolding stop
IsUndecided-stop u = record {
  is_calling = u.is_calling;
  is_stopped = refl;
  no_action = u.no_action;
  none_allowed = u.none_allowed;
  none_denied = u.none_denied;
  check_awaited = u.check_awaited;
  quota_awaited = u.quota_awaited;
}

IsChecked-stop : (r : Requirement) {s : Stream} → IsChecked r s → IsChecked r (stop s)
unfolding stop
IsChecked-stop r c = record { one_check = c.one_check; has_key = c.has_key }

IsRefused-stop : {s : Stream} → IsRefused s → IsRefused (stop s)
unfolding stop
IsRefused-stop f = record {
  is_responded = f.is_responded;
  http_code = f.http_code;
  message = f.message;
  replied_once = f.replied_once;
  not_allowed = f.not_allowed;
  one_denied = f.one_denied;
  check_answered = f.check_answered;
  quota_answered = f.quota_answered;
}

end_headers-Decision :
    (r : Requirement) (s : Stream)
    → Decision r false s
    → Decision r (not ((end_headers s.filter.state s).0)) ((end_headers s.filter.state s).1)
unfolding end_headers stop
end_headers-Decision r s (waits_check u c q) =
    let e : end_headers s.filter.state s ≡ (false, stop s) =
      ap (λ state. end_headers state s) u.is_calling in
    rw e (waits_check (IsUndecided-stop u) (IsChecked-stop r c) q)
end_headers-Decision r s (waits_quota u c q) =
    let e : end_headers s.filter.state s ≡ (false, stop s) =
      ap (λ state. end_headers state s) u.is_calling in
    rw e (waits_quota (IsUndecided-stop u) (IsChecked-stop r c) q)
end_headers-Decision r s (passed p) =
    let e : end_headers s.filter.state s ≡ (true, s) =
      ap (λ state. end_headers state s) p.is_complete in
    rw e (passed p)
end_headers-Decision r s (refused f) =
    let e : end_headers s.filter.state s ≡ (false, stop s) =
      ap (λ state. end_headers state s) f.is_responded in
    rw e (refused (IsRefused-stop f))

decode_headers-Decision :
    (client : Client) (r : Requirement) (h : Handler)
    → h.require_ctx ≡ some r
    → is_ok h.check_status ≡ true
    → Decision r (not ((decode_headers client h).0)) ((decode_headers client h).1)
unfolding decode_headers call_check
decode_headers-Decision client r h e good =
    let called : call_check client h.require_ctx (new_stream h)
        ≡ call_check_for client r (new_stream h) =
      ap (λ ctx. call_check client ctx (new_stream h)) e in
    rw called (
      end_headers-Decision r (call_check_for client r (new_stream h))
        (call_check_for-Decision client r h good))

Step-Decision :
    (client : Client) (r : Requirement) (b : Bool) {s t : Stream}
    → Decision r b s
    → Step client r s t
    → Decision r b t
Step-Decision client r b (waits_check u c q) (check_response status info s e) =
    check_callback-Decision client r b status info (record s { awaits_check = false })
      (IsUndecided-elsewhere s.handler s.consumer s.check_calls s.quota_calls false s.awaits_quota
        refl u.quota_awaited u)
      (record { one_check = c.one_check; has_key = c.has_key }) q
Step-Decision client r b (waits_quota u c q) (check_response status info s e) = cc
Step-Decision client r b (passed p) (check_response status info s e) = cc
Step-Decision client r b (refused f) (check_response status info s e) = cc
Step-Decision client r b (waits_check u c q) (quota_response status s e) = cc
Step-Decision client r b (waits_quota u c q) (quota_response status s e) =
    on_quota_response-Decision client r b status (record s { awaits_quota = false })
      (IsUndecided-elsewhere s.handler s.consumer s.check_calls s.quota_calls s.awaits_check false
        u.check_awaited refl u)
      (record { one_check = c.one_check; has_key = c.has_key }) q
Step-Decision client r b (passed p) (quota_response status s e) = cc
Step-Decision client r b (refused f) (quota_response status s e) = cc

-- Whatever the service control client answers and when, a request for a configured method, whose
-- handler starts with an ok status, waits for its check or its quota call, goes on, or is refused. It goes on only behind the check (with
-- an api key) and the quota call that its requirement asks for, one of each and no others, and with
-- an ok status; `continueDecoding` is then called exactly where `decodeHeaders` had stopped, and
-- the request counts as allowed. A refused request has got exactly one local reply, no
-- `continueDecoding`, and counts as denied.
pub decides_once :
    (client : Client) (r : Requirement) (h : Handler) {s : Stream}
    → h.require_ctx ≡ some r
    → is_ok h.check_status ≡ true
    → Reach client r (decode_headers client h).1 s
    → Decision r (not (decode_headers client h).0) s
decides_once client r h e good here = decode_headers-Decision client r h e good
decides_once client r h e good (next reached step) =
    Step-Decision client r (not (decode_headers client h).0)
      (decides_once client r h e good reached) step

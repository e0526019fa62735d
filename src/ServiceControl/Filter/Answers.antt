-- ===== src/ServiceControl/Filter/Answers.antt =====
-- The calls of src/envoy/http/service_control/handler_impl.cc that answer the filter, each on a filter
-- that has not decided.
use esp_v.Base.{
  ◌+◌, is_empty, if◌then◌else◌, Bool, true, false, Option, none, some, [], ◌≡◌, inl, inr, refl,
  Bool-cases,
}
use esp_v.ServiceControl.Info.{Status, is_ok, CheckResponseInfo}
use esp_v.ServiceControl.Handler.{
  Requirement, Handler, is_quota_required, is_check_required, has_api_key,
}
use esp_v.ServiceControl.Filter.{
  Stream, Client, on_quota_response, quota_answered, call_quota, on_check_response, check_callback,
  check_answered, no_api_key, call_check_for, new_stream,
}
use esp_v.ServiceControl.Filter.Outcome.{
  IsUndecided, IsChecked, Decision, waits_check, waits_quota, passed, refused, check_done-IsRefused,
  check_done-IsPassed, IsUndecided-elsewhere,
}

pub on_quota_response-Decision :
    (client : Client) (r : Requirement) (b : Bool) (status : Status) (s : Stream)
    → IsUndecided b false false s
    → IsChecked r s
    → s.quota_calls ≡ (if is_quota_required r then 1 else 0)
    → Decision r b (on_quota_response client status s)
unfolding on_quota_response has_api_key
on_quota_response-Decision client r b status s u c q =
    let s' = record s { handler = record (s.handler) { check_status = status } } in
    let u' : IsUndecided b false false s' =
      IsUndecided-elsewhere s'.handler s.consumer s.check_calls s.quota_calls s.awaits_check
        s.awaits_quota u.check_awaited u.quota_awaited u in
    let c' : IsChecked r s' = record { one_check = c.one_check; has_key = c.has_key } in
    elim (Bool-cases (is_ok status)) [
      | inl good ↦ passed (check_done-IsPassed client r s' u' c' q good)
      | inr bad ↦ refused (check_done-IsRefused client status s' u' bad)
    ]

quota_answered-Decision :
    (client : Client) (r : Requirement) (b : Bool) (answer : Option Status) (s : Stream)
    → IsUndecided b false false s
    → IsChecked r s
    → s.quota_calls ≡ (if is_quota_required r then 1 else 0)
    → Decision r b (quota_answered client answer s)
unfolding quota_answered
quota_answered-Decision client r b none s u c q =
    waits_quota
      (IsUndecided-elsewhere s.handler s.consumer s.check_calls s.quota_calls s.awaits_check true
        u.check_awaited refl u)
      (record { one_check = c.one_check; has_key = c.has_key }) q
quota_answered-Decision client r b (some status) s u c q =
    on_quota_response-Decision client r b status s u c q

call_quota-Decision :
    (client : Client) (r : Requirement) (b : Bool) (s : Stream)
    → IsUndecided b false false s
    → IsChecked r s
    → s.quota_calls ≡ 0
    → is_ok s.handler.check_status ≡ true
    → Decision r b (call_quota client r s)
unfolding call_quota
call_quota-Decision client r b s u c q good = elim (Bool-cases (is_quota_required r)) [
  | inl quota ↦ rw quota (
      quota_answered-Decision client r b client.quota_answer
        (record s { quota_calls = s.quota_calls + 1 })
        (IsUndecided-elsewhere s.handler s.consumer s.check_calls (s.quota_calls + 1) s.awaits_check
          s.awaits_quota u.check_awaited u.quota_awaited u)
        (record { one_check = c.one_check; has_key = c.has_key }) (rw (quota, q) refl))
  | inr none_needed ↦
      rw none_needed (passed (check_done-IsPassed client r s u c (rw (none_needed, q) refl) good))
]

pub check_callback-Decision :
    (client : Client) (r : Requirement) (b : Bool) (status : Status) (info : CheckResponseInfo)
    (s : Stream)
    → IsUndecided b false false s
    → IsChecked r s
    → s.quota_calls ≡ 0
    → Decision r b (check_callback client r status info s)
unfolding check_callback on_check_response has_api_key
check_callback-Decision client r b status info s u c q =
    let h = record (s.handler) {
      has_cancel_fn = false;
      on_check_done_called = true;
      check_response_info = info;
      check_status = status;
    } in
    let consumer =
      if is_empty info.consumer_project_id then s.consumer else info.consumer_project_id in
    let s' = record s { handler = h; consumer = consumer } in
    let u' : IsUndecided b false false s' =
      IsUndecided-elsewhere h consumer s.check_calls s.quota_calls s.awaits_check s.awaits_quota
        u.check_awaited u.quota_awaited u in
    let c' : IsChecked r s' = record { one_check = c.one_check; has_key = c.has_key } in
    elim (Bool-cases (is_ok status)) [
      | inl good ↦ rw good (call_quota-Decision client r b s' u' c' q good)
      | inr bad ↦ rw bad (refused (check_done-IsRefused client status s' u' bad))
    ]

check_answered-Decision :
    (client : Client) (r : Requirement) (b : Bool) (answer : Option (Status × CheckResponseInfo))
    (s : Stream)
    → IsUndecided b false false s
    → IsChecked r s
    → s.quota_calls ≡ 0
    → Decision r b (check_answered client r answer s)
unfolding check_answered has_api_key
check_answered-Decision client r b none s u c q =
    waits_check
      (IsUndecided-elsewhere (record (s.handler) { has_cancel_fn = true }) s.consumer s.check_calls
        s.quota_calls true s.awaits_quota refl u.quota_awaited u)
      (record { one_check = c.one_check; has_key = c.has_key }) q
check_answered-Decision client r b (some (status, info)) s u c q =
    check_callback-Decision client r b status info s u c q

new_stream-IsUndecided : (h : Handler) → IsUndecided false false false (new_stream h)
new_stream-IsUndecided h = record {
  is_calling = refl;
  is_stopped = refl;
  no_action = refl;
  none_allowed = refl;
  none_denied = refl;
  check_awaited = refl;
  quota_awaited = refl;
}

no_api_key-fails : is_ok no_api_key ≡ false
unfolding is_ok
no_api_key-fails = refl

pub call_check_for-Decision :
    (client : Client) (r : Requirement) (h : Handler)
    → is_ok h.check_status ≡ true
    → Decision r false (call_check_for client r (new_stream h))
unfolding call_check_for has_api_key
call_check_for-Decision client r h good =
    let u = new_stream-IsUndecided h in
    elim (Bool-cases (is_check_required r)) [
      | inr free ↦ rw free (
          call_quota-Decision client r false (new_stream h) u
            (record { one_check = rw free refl; has_key = rw free refl }) refl good)
      | inl required ↦ elim (Bool-cases (has_api_key h)) [
        | inl key ↦
            rw (required, key)
              (check_answered-Decision client r false client.check_answer
                (record (new_stream h) {
                  check_calls = 1;
                  handler = record h { on_check_done_called = false };
                })
                (IsUndecided-elsewhere (record h { on_check_done_called = false }) [] 1 0 false
                  false refl refl u)
                (record { one_check = rw required refl; has_key = rw (required, key) refl }) refl)
        | inr no_key ↦
            rw (required, no_key)
              (refused (
                check_done-IsRefused client no_api_key
                  (record (new_stream h) { handler = record h { check_status = no_api_key } })
                  (IsUndecided-elsewhere (record h { check_status = no_api_key }) [] 0 0 false false
                    refl refl u)
                  (no_api_key-fails)))
      ]
    ]

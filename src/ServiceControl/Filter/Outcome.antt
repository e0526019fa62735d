-- ===== src/ServiceControl/Filter/Outcome.antt =====
-- Where a request stands in `ServiceControlFilter` (src/envoy/http/service_control/filter.cc), and
-- what `onCheckDone` makes of it.
use esp_v.Base.{ℕ, Str, if◌then◌else◌, Bool, true, false, not, ◌||◌, [], ◌∷◌, ◌≡◌, refl}
use esp_v.ServiceControl.Info.{Status, is_ok}
use esp_v.ServiceControl.Handler.{
  Requirement, Handler, is_quota_required, is_check_required, has_api_key,
}
use esp_v.ServiceControl.Filter.{
  calling, responded, complete, local_reply, Stream, Client, reject_request, continue_if,
  on_check_done, check_done,
}

-- A filter that has not decided: `stopped` as given, and the answers it waits for.
pub record IsUndecided (stopped check quota : Bool) (s : Stream) : Type 0 where
  pub is_calling : s.filter.state ≡ calling
  pub is_stopped : s.filter.stopped ≡ stopped
  pub no_action : s.filter.actions ≡ []
  pub none_allowed : s.filter.allowed ≡ 0
  pub none_denied : s.filter.denied ≡ 0
  pub check_awaited : s.awaits_check ≡ check
  pub quota_awaited : s.awaits_quota ≡ quota

-- The check that the requirement asks for has been called, with an api key.
pub record IsChecked (r : Requirement) (s : Stream) : Type 0 where
  pub one_check : s.check_calls ≡ (if is_check_required r then 1 else 0)
  pub has_key : (not (is_check_required r) || has_api_key s.handler) ≡ true

-- A request that goes on: `continueDecoding` exactly where the filter had stopped, no reply, and
-- the check and the quota call that the requirement asks for behind it, the last status ok.
pub record IsPassed (r : Requirement) (stopped : Bool) (s : Stream) : Type 0 where
  pub is_complete : s.filter.state ≡ complete
  pub continued_once : s.filter.actions ≡ continue_if stopped []
  pub one_allowed : s.filter.allowed ≡ 1
  pub not_denied : s.filter.denied ≡ 0
  pub checked : IsChecked r s
  pub one_quota : s.quota_calls ≡ (if is_quota_required r then 1 else 0)
  pub status_ok : is_ok s.handler.check_status ≡ true
  pub check_answered : s.awaits_check ≡ false
  pub quota_answered : s.awaits_quota ≡ false

-- A request that is refused: one local reply, and nothing else.
pub record IsRefused (s : Stream) : Type 0 where
  pub is_responded : s.filter.state ≡ responded
  pub http_code : ℕ
  pub message : Str
  pub replied_once : s.filter.actions ≡ local_reply http_code message ∷ []
  pub not_allowed : s.filter.allowed ≡ 0
  pub one_denied : s.filter.denied ≡ 1
  pub check_answered : s.awaits_check ≡ false
  pub quota_answered : s.awaits_quota ≡ false

-- Where a request stands: it waits for its check or its quota, goes on, or is refused.
pub data Decision (r : Requirement) (stopped : Bool) (s : Stream) : Type 0 where
  waits_check :
      IsUndecided stopped true false s → IsChecked r s → s.quota_calls ≡ 0 → Decision r stopped s
  waits_quota :
      IsUndecided stopped false true s
      → IsChecked r s
      → s.quota_calls ≡ (if is_quota_required r then 1 else 0)
      → Decision r stopped s
  passed : IsPassed r stopped s → Decision r stopped s
  refused : IsRefused s → Decision r stopped s

pub check_done-IsRefused :
    (client : Client) (status : Status) {b : Bool} (s : Stream)
    → IsUndecided b false false s
    → is_ok status ≡ false
    → IsRefused (check_done client status s)
unfolding on_check_done reject_request
check_done-IsRefused client status s u bad = rw bad (record {
  is_responded = refl;
  http_code = client.http_status status.code;
  message = client.to_string status;
  replied_once = rw (u.no_action) refl;
  not_allowed = u.none_allowed;
  one_denied = rw (u.none_denied) refl;
  check_answered = u.check_awaited;
  quota_answered = u.quota_awaited;
})

pub check_done-IsPassed :
    (client : Client) (r : Requirement) {b : Bool} (s : Stream)
    → IsUndecided b false false s
    → IsChecked r s
    → s.quota_calls ≡ (if is_quota_required r then 1 else 0)
    → is_ok s.handler.check_status ≡ true
    → IsPassed r b (check_done client s.handler.check_status s)
unfolding on_check_done
check_done-IsPassed client r s u c q good = rw good (record {
  is_complete = refl;
  continued_once = rw (u.is_stopped, u.no_action) refl;
  one_allowed = rw (u.none_allowed) refl;
  not_denied = u.none_denied;
  checked = record { one_check = c.one_check; has_key = c.has_key };
  one_quota = q;
  status_ok = good;
  check_answered = u.check_awaited;
  quota_answered = u.quota_awaited;
})

-- What the handler does, short of an answer to the filter, leaves it undecided.
pub IsUndecided-elsewhere :
    {stopped b c b' c' : Bool} {s : Stream} (h : Handler) (consumer : Str) (checks quotas : ℕ)
    (check quota : Bool)
    → check ≡ b'
    → quota ≡ c'
    → IsUndecided stopped b c s
    → IsUndecided stopped b' c' (record s {
      handler = h;
      consumer = consumer;
      check_calls = checks;
      quota_calls = quotas;
      awaits_check = check;
      awaits_quota = quota;
    })
IsUndecided-elsewhere h consumer checks quotas check quota e f u = record {
  is_calling = u.is_calling;
  is_stopped = u.is_stopped;
  no_action = u.no_action;
  none_allowed = u.none_allowed;
  none_denied = u.none_denied;
  check_awaited = e;
  quota_awaited = f;
}

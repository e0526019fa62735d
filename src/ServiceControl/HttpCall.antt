-- ===== src/ServiceControl/HttpCall.antt =====
-- src/envoy/http/service_control/http_call.cc: `HttpCallImpl`, a call with retries, and
-- `HttpCallFactory`, which owns the calls that are not finished.
-- The model keeps what the class does to others: the calls of `on_done_`, the spans it finishes,
-- how often it deletes itself, and how many requests the client still has to answer.
pub mod Total
pub mod Once
mod Tests
use mathlib.Core.Option
use esp_v.Base.{
  ℕ, zero, suc, ◌+◌, ◌-◌, ◌<◌, Str, ltb, leb, ◌==◌, if◌then◌else◌, Bool, true, false, ◌&&◌, Option,
  none, some, List, [], ◌∷◌, ◌++◌, map, ◌≡◌,
}

-- The codes of the statuses that are passed to `on_done_`.
pub data Code : Type 0 where
  ok internal cancelled_code : Code

pub record HttpCallImpl : Type 0 where
  pub retries : ℕ
  pub request_count : ℕ
  pub cancelled : Bool
  pub request : Option ℕ
  pub request_span : Option ℕ
  pub finished_spans : List ℕ
  pub on_done_calls : List (Code × Str)
  pub deletions : ℕ
  pub in_flight : ℕ

-- How the client takes a request: it will answer, or it has called `onFailure` before `send`
-- returns a null pointer.
pub data SendOutcome : Type 0 where
  pending failed_inline : SendOutcome

-- What the `n`-th call meets: whether `token_fn_` has a token, and what `send` does.
pub record Env : Type 0 where
  pub has_token : ℕ → Bool
  pub send : ℕ → SendOutcome

-- No status is the exception of `getResponseStatus`.
pub record Response : Type 0 where
  pub status : Option ℕ
  pub body : Str

abbrev pub ok_status : ℕ
ok_status = 200

unfoldable pub on_done : Code → Str → HttpCallImpl → HttpCallImpl
on_done code body s = record s { on_done_calls = s.on_done_calls ++ (code, body) ∷ [] }

unfoldable pub deferred_delete : HttpCallImpl → HttpCallImpl
deferred_delete s = record s { deletions = s.deletions + 1 }

unfoldable pub reset : HttpCallImpl → HttpCallImpl
reset s = record s { request = none }

unfoldable pub finish_span_of : Option ℕ → HttpCallImpl → HttpCallImpl
finish_span_of none s = s
finish_span_of (some n) s = record s { finished_spans = n ∷ s.finished_spans }

-- `request_span_->finishSpan()`
unfoldable pub finish_span : HttpCallImpl → HttpCallImpl
finish_span s = finish_span_of s.request_span s

-- The end of a call that failed or succeeded.
unfoldable pub complete : Code → Str → HttpCallImpl → HttpCallImpl
complete code body s = deferred_delete (reset (on_done code body s))

-- `status_code >= 400 && status_code < 500`
unfoldable pub is_client_error : ℕ → Bool
is_client_error code = leb 400 code && ltb code 500

-- `attemptRetry`, by the retries that are left; `make` is `makeOneCall`.
unfoldable pub attempt_retry_with :
    (HttpCallImpl → Option HttpCallImpl) → ℕ → ℕ → HttpCallImpl → Option (HttpCallImpl × Bool)
attempt_retry_with make code zero s = some (s, false)
attempt_retry_with make code (suc retries) s =
    let again = Option.map (λ t. (t, true)) (make (reset (record s { retries = retries }))) in
    if is_client_error code then some (s, false) else again

unfoldable pub attempt_retry :
    (HttpCallImpl → Option HttpCallImpl) → ℕ → HttpCallImpl → Option (HttpCallImpl × Bool)
attempt_retry make code s = attempt_retry_with make code s.retries s

-- What follows a retry: nothing if one was made, and else the call ends in an error.
unfoldable pub after_retry : Str → Option (HttpCallImpl × Bool) → Option HttpCallImpl
after_retry body none = none
after_retry body (some (s, true)) = some s
after_retry body (some (s, false)) = some (complete internal body s)

-- `onFailure`
unfoldable pub on_failure :
    (HttpCallImpl → Option HttpCallImpl) → HttpCallImpl → Option HttpCallImpl
on_failure make s = after_retry [] (attempt_retry make 0 (finish_span s))

-- The state of `makeOneCall` before it sends: a new span for this request.
abbrev pub spawn_span : HttpCallImpl → HttpCallImpl
spawn_span s = record s { request_span = some s.request_count }

-- `makeOneCall` on fuel; no result means that the fuel ran out.
unfoldable pub make_one_call_on : ℕ → Env → HttpCallImpl → Option HttpCallImpl
make_one_call_on zero env s = none
make_one_call_on (suc f) env s =
    let s' = record s { request_count = s.request_count + 1 } in
    if env.has_token s'.request_count
    then elim (env.send s'.request_count) [
      | pending ↦
          some (record (spawn_span s') {
            request = some s'.request_count;
            in_flight = s'.in_flight + 1;
          })
      | failed_inline ↦ Option.map reset (on_failure (make_one_call_on f env) (spawn_span s'))
    ]
    else some (deferred_delete (on_done internal [] s'))

-- `makeOneCall`: each further call of its own uses up a retry.
unfoldable pub make_one_call : Env → HttpCallImpl → Option HttpCallImpl
make_one_call env s = make_one_call_on (s.retries + 1) env s

-- `onSuccess`, by the status of the response.
unfoldable pub on_success_with : Env → Option ℕ → Str → HttpCallImpl → Option HttpCallImpl
on_success_with env none body s = some (complete internal [] s)
on_success_with env (some code) body s =
    if code == ok_status
    then some (complete ok body (finish_span s))
    else after_retry body (attempt_retry (make_one_call env) code (finish_span s))

unfoldable pub on_success : Env → Response → HttpCallImpl → Option HttpCallImpl
on_success env r s = on_success_with env r.status r.body s

-- `if (request_) { request_->cancel(); reset(); }`
unfoldable pub cancel_request : Option ℕ → HttpCallImpl → HttpCallImpl
cancel_request none s = s
cancel_request (some n) s = reset (record s { in_flight = s.in_flight - 1 })

-- `cancel`
unfoldable pub cancel : HttpCallImpl → HttpCallImpl
cancel s =
    if s.cancelled
    then s
    else let s' = finish_span (record s { cancelled = true }) in
      deferred_delete (on_done cancelled_code [] (cancel_request s'.request s'))

-- The constructor.
abbrev pub new_call : ℕ → HttpCallImpl
new_call retries = record {
  retries = retries;
  request_count = 0;
  cancelled = false;
  request = none;
  request_span = none;
  finished_spans = [];
  on_done_calls = [];
  deletions = 0;
  in_flight = 0;
}

-- What may happen to a call: the client answers a request that it has, or the owner cancels the
-- call while it is not deleted.
pub data Step (env : Env) : HttpCallImpl → HttpCallImpl → Type 0 where
  respond :
      (s : HttpCallImpl) {t : HttpCallImpl} (r : Response)
      → 0 < s.in_flight
      → on_success env r (record s { in_flight = s.in_flight - 1 }) ≡ some t
      → Step env s t
  fail :
      (s : HttpCallImpl) {t : HttpCallImpl}
      → 0 < s.in_flight
      → on_failure (make_one_call env) (record s { in_flight = s.in_flight - 1 }) ≡ some t
      → Step env s t
  cancels : (s : HttpCallImpl) → s.deletions ≡ 0 → Step env s (cancel s)

-- `call()` on a new object, and then any steps.
pub data Reach (env : Env) (retries : ℕ) : HttpCallImpl → Type 0 where
  start : {s : HttpCallImpl} → make_one_call env (new_call retries) ≡ some s → Reach env retries s
  next : {s t : HttpCallImpl} → Reach env retries s → Step env s t → Reach env retries t

-- `HttpCallFactory`: its calls by their numbers.
pub record HttpCallFactory : Type 0 where
  pub active_calls : List (ℕ × HttpCallImpl)
  pub destruct_mode : Bool

-- `createHttpCall`
unfoldable pub create_http_call : ℕ → ℕ → HttpCallFactory → HttpCallFactory
create_http_call id retries f = record f { active_calls = (id, new_call retries) ∷ f.active_calls }

unfoldable pub erase_call : ℕ → List (ℕ × HttpCallImpl) → List (ℕ × HttpCallImpl)
erase_call id [] = []
erase_call id ((j, c) ∷ calls) = if j == id then calls else (j, c) ∷ erase_call id calls

-- The done function that `createHttpCall` installs.
unfoldable pub call_done : ℕ → HttpCallFactory → HttpCallFactory
call_done id f =
    if f.destruct_mode then f else record f { active_calls = erase_call id f.active_calls }

-- The destructor cancels every active call, and no call leaves the set meanwhile.
unfoldable pub destroy : HttpCallFactory → HttpCallFactory
destroy f = record f {
  destruct_mode = true;
  active_calls = map (λ (id, c). (id, cancel c)) f.active_calls;
}

-- Everything that a run of a call computes with.
unfoldable pub running : Unit {0}
unfolding on_success on_success_with make_one_call make_one_call_on on_failure after_retry
    attempt_retry attempt_retry_with is_client_error complete finish_span finish_span_of reset
    deferred_delete on_done cancel cancel_request
running = tt

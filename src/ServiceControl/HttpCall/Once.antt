-- ===== src/ServiceControl/HttpCall/Once.antt =====
-- How often an `HttpCallImpl` (src/envoy/http/service_control/http_call.cc) reports its outcome, and
-- the case of a client that fails a request at once.
use mathlib.Core.Option
use esp_v.Base.{
  ℕ, zero, suc, ◌+◌, ◌-◌, ◌<◌, Str, ◌==◌, true, false, Option, none, some, [], ◌∷◌, ◌≡◌, ◌⊎◌, inl,
  inr, refl, arith, Bool-cases,
}
use esp_v.ServiceControl.HttpCall.{
  ok_status, Code, ok, internal, cancelled_code, HttpCallImpl, pending, failed_inline, Env, on_done,
  deferred_delete, reset, finish_span, finish_span_of, complete, attempt_retry, attempt_retry_with,
  after_retry, on_failure, make_one_call_on, make_one_call, on_success, on_success_with, cancel,
  cancel_request, new_call, Step, respond, fail, cancels, Reach, start, next, is_client_error,
}

-- The client has one request, which the call can cancel, and nothing was reported.
pub record IsRunning (s : HttpCallImpl) : Type 0 where
  pub number : ℕ
  pub has_request : s.request ≡ some number
  pub one_request : s.in_flight ≡ 1
  pub not_done : s.on_done_calls ≡ []
  pub not_deleted : s.deletions ≡ 0

-- The outcome was reported once, the call is deleted once, and the client has no request.
pub record IsFinished (s : HttpCallImpl) : Type 0 where
  pub code : Code
  pub body : Str
  pub no_request : s.request ≡ none
  pub none_in_flight : s.in_flight ≡ 0
  pub done_once : s.on_done_calls ≡ (code, body) ∷ []
  pub deleted_once : s.deletions ≡ 1

-- Between two requests.
record IsIdle (s : HttpCallImpl) : Type 0 where
  none_in_flight : s.in_flight ≡ 0
  not_done : s.on_done_calls ≡ []
  not_deleted : s.deletions ≡ 0

abbrev pub HasPhase : HttpCallImpl → Type 0
HasPhase s = IsRunning s ⊎ IsFinished s

-- Of a result that is there.
abbrev Leads : Option HttpCallImpl → Type 0
Leads none = Unit
Leads (some t) = HasPhase t

complete-IsFinished :
    (code : Code) (body : Str) (s : HttpCallImpl) → IsIdle s → IsFinished (complete code body s)
unfolding complete on_done reset deferred_delete
complete-IsFinished code body s i = record {
  code = code;
  body = body;
  no_request = refl;
  none_in_flight = i.none_in_flight;
  done_once = rw (i.not_done) refl;
  deleted_once = omega arith;
}

finish_span-IsIdle : (s : HttpCallImpl) → IsIdle s → IsIdle (finish_span s)
unfolding finish_span finish_span_of
finish_span-IsIdle s i = ground arith

-- A second cancellation changes nothing.
cancel_again : (s : HttpCallImpl) → s.cancelled ≡ true → cancel s ≡ s
unfolding cancel
cancel_again s h = ground arith

module _ (env : Env) (no_failure : (n : ℕ) → env.send n ≡ pending) where
  make_one_call_on-Leads :
      (f : ℕ) (s : HttpCallImpl) → s.request ≡ none → IsIdle s → Leads (make_one_call_on f env s)
  unfolding make_one_call_on on_done deferred_delete
  make_one_call_on-Leads zero s none_yet i = tt
  make_one_call_on-Leads (suc f) s none_yet i =
      elim (Bool-cases (env.has_token (s.request_count + 1))) [
        | inl token ↦
            rw (token, no_failure (s.request_count + 1))
              (inl (record {
                number = s.request_count + 1;
                has_request = refl;
                one_request = omega arith;
                not_done = i.not_done;
                not_deleted = i.not_deleted;
              }))
        | inr missing ↦ rw missing (
            inr (record {
              code = internal;
              body = [];
              no_request = none_yet;
              none_in_flight = i.none_in_flight;
              done_once = rw (i.not_done) refl;
              deleted_once = omega arith;
            }))
      ]

  after_retry-Leads :
      (body : Str) (o : Option HttpCallImpl)
      → Leads o
      → Leads (after_retry body (Option.map (λ t. (t, true)) o))
  unfolding after_retry
  after_retry-Leads body none h = h
  after_retry-Leads body (some t) h = h

  retry-Leads :
      (body : Str) (code k : ℕ) (s : HttpCallImpl)
      → IsIdle s
      → Leads (after_retry body (attempt_retry_with (make_one_call env) code k s))
  unfolding attempt_retry_with after_retry make_one_call reset
  retry-Leads body code zero s i = inr (complete-IsFinished internal body s i)
  retry-Leads body code (suc k) s i = elim (Bool-cases (is_client_error code)) [
    | inl client ↦ rw client (inr (complete-IsFinished internal body s i))
    | inr other ↦ rw other (
        after_retry-Leads body _ (
          make_one_call_on-Leads (k + 1) (reset (record s { retries = k })) refl (record {
            none_in_flight = i.none_in_flight;
            not_done = i.not_done;
            not_deleted = i.not_deleted;
          })))
  ]

  on_success_with-Leads :
      (status : Option ℕ) (body : Str) (s : HttpCallImpl)
      → IsIdle s
      → Leads (on_success_with env status body s)
  unfolding on_success_with attempt_retry
  on_success_with-Leads none body s i = inr (complete-IsFinished internal [] s i)
  on_success_with-Leads (some code) body s i =
      let i' = finish_span-IsIdle s i in
      elim (Bool-cases (code == ok_status)) [
        | inl good ↦ rw good (inr (complete-IsFinished ok body (finish_span s) i'))
        | inr bad ↦ rw bad (retry-Leads body code (finish_span s).retries (finish_span s) i')
      ]

  answered :
      (s : HttpCallImpl)
      → HasPhase s
      → 0 < s.in_flight
      → IsIdle (record s { in_flight = s.in_flight - 1 })
  answered s (inl r) h = record {
    none_in_flight = omega (arith, r.one_request);
    not_done = r.not_done;
    not_deleted = r.not_deleted;
  }
  answered s (inr e) h = absurd (omega (arith, e.none_in_flight))

  cancel_finishes : (s : HttpCallImpl) → s.cancelled ≡ false → IsRunning s → IsFinished (cancel s)
  unfolding cancel finish_span finish_span_of cancel_request reset on_done deferred_delete
  cancel_finishes s active r = record {
    code = cancelled_code;
    body = [];
    no_request = ground (arith, r.has_request);
    none_in_flight = ground (arith, r.has_request, r.one_request);
    done_once = ground (arith, r.has_request, r.not_done);
    deleted_once = ground (arith, r.has_request, r.not_deleted);
  }

  Leads-some : {o : Option HttpCallImpl} {t : HttpCallImpl} → Leads o → o ≡ some t → HasPhase t
  Leads-some {o} {t} h e = rw e at h

  on_failure-Leads : (s : HttpCallImpl) → IsIdle s → Leads (on_failure (make_one_call env) s)
  unfolding on_failure attempt_retry
  on_failure-Leads s i =
      retry-Leads [] 0 (finish_span s).retries (finish_span s) (finish_span-IsIdle s i)

  cancel-HasPhase : (s : HttpCallImpl) → s.deletions ≡ 0 → HasPhase s → HasPhase (cancel s)
  cancel-HasPhase s alive (inr e) = absurd (omega (arith, e.deleted_once))
  cancel-HasPhase s alive (inl r) = elim (Bool-cases (s.cancelled)) [
    | inl already ↦ rw (cancel_again s already) (inl r)
    | inr active ↦ inr (cancel_finishes s active r)
  ]

  Step-HasPhase : {s t : HttpCallImpl} → Step env s t → HasPhase s → HasPhase t
  unfolding on_success
  Step-HasPhase (respond s r h e) p =
      Leads-some (on_success_with-Leads r.status r.body _ (answered s p h)) e
  Step-HasPhase (fail s h e) p = Leads-some (on_failure-Leads _ (answered s p h)) e
  Step-HasPhase (cancels s alive) p = cancel-HasPhase s alive p

  -- Where the client never fails a request at once, in every state of a call either the client has
  -- exactly one request, which the call can cancel, and nothing was reported; or `on_done_` was
  -- called once, the call has deleted itself once, and the client has no request of the call.
  pub reports_once : (retries : ℕ) {s : HttpCallImpl} → Reach env retries s → HasPhase s
  unfolding make_one_call
  reports_once retries (start e) =
      Leads-some
        (make_one_call_on-Leads (retries + 1) (new_call retries) refl
          (record { none_in_flight = refl; not_done = refl; not_deleted = refl }))
        e
  reports_once retries (next reach st) = Step-HasPhase st (reports_once retries reach)

-- If the client fails the first request of a call with a retry at once and takes the second, and
-- both find a token, the call forgets the second:
-- the client still has it, `request_` is null, and `cancel` deletes the call without cancelling it.
pub lost_request :
    (env : Env) (retries : ℕ)
    → env.has_token 1 ≡ true
    → env.has_token 2 ≡ true
    → env.send 1 ≡ failed_inline
    → env.send 2 ≡ pending
    → (s : HttpCallImpl) × (make_one_call env (new_call (suc retries)) ≡ some s)
      × (s.in_flight ≡ 1)
      × (s.request ≡ none)
      × (s.on_done_calls ≡ [])
      × ((cancel s).in_flight ≡ 1)
      × ((cancel s).deletions ≡ 1)
unfolding make_one_call make_one_call_on on_failure finish_span finish_span_of attempt_retry
    attempt_retry_with after_retry is_client_error reset cancel cancel_request on_done
    deferred_delete
lost_request env retries t1 t2 s1 s2 =
    let two : suc retries + 1 ≡ suc (suc retries) = omega arith in
    (
      record {
        retries = retries;
        request_count = 2;
        cancelled = false;
        request = none;
        request_span = some 2;
        finished_spans = 1 ∷ [];
        on_done_calls = [];
        deletions = 0;
        in_flight = 1;
      },
      rw two (ground arith),
      refl,
      refl,
      refl,
      refl,
      refl,
    )

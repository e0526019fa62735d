-- ===== src/ServiceControl/HttpCall/Total.antt =====
-- The fuel of `makeOneCall` (src/envoy/http/service_control/http_call.cc), and the number of requests.
use mathlib.Core.Option
use esp_v.Base.{
  ℕ, zero, suc, ◌+◌, ◌-◌, ◌≤◌, ◌<◌, Str, Option, none, some, [], ◌≡◌, refl, ◌∙◌, arith,
}
use esp_v.ServiceControl.HttpCall.{
  HttpCallImpl, Env, Response, on_done, deferred_delete, reset, finish_span, finish_span_of,
  complete, attempt_retry, attempt_retry_with, after_retry, on_failure, make_one_call_on,
  make_one_call, on_success, on_success_with, cancel, cancel_request, new_call, respond, fail,
  cancels, Reach, start, next,
}

-- A result that is there, with the count of requests and retries that it has.
abbrev pub Counts : ℕ → Option HttpCallImpl → Type 0
Counts n none = ⊥
Counts n (some t) = t.request_count + t.retries ≡ n

-- The same for `makeOneCall`, at every state with fewer retries than the fuel.
abbrev IsCounting : (HttpCallImpl → Option HttpCallImpl) → ℕ → Type 0
IsCounting make f =
    (s : HttpCallImpl) → s.retries < f → Counts (s.request_count + s.retries + 1) (make s)

finish_span-counts :
    (s : HttpCallImpl)
    → ((finish_span s).retries ≡ s.retries) × ((finish_span s).request_count ≡ s.request_count)
unfolding finish_span finish_span_of
finish_span-counts s = ground arith

attempt_retry-Counts :
    (make : HttpCallImpl → Option HttpCallImpl) (f n : ℕ) (body : Str) (code k : ℕ)
    (s : HttpCallImpl)
    → IsCounting make f
    → k ≡ s.retries
    → s.retries < suc f
    → s.request_count + s.retries ≡ n
    → Counts n (after_retry body (attempt_retry_with make code k s))
unfolding attempt_retry_with after_retry reset complete deferred_delete on_done
attempt_retry-Counts make f n body code zero s ih e h same = same
attempt_retry-Counts make f n body code (suc k) s ih e h same =
    ground (arith, ih (record s { retries = k; request = none }))

on_failure-Counts :
    (make : HttpCallImpl → Option HttpCallImpl) (f n : ℕ) (s : HttpCallImpl)
    → IsCounting make f
    → s.retries < suc f
    → s.request_count + s.retries ≡ n
    → Counts n (on_failure make s)
unfolding on_failure attempt_retry
on_failure-Counts make f n s ih h same =
    let known = finish_span-counts s in
    attempt_retry-Counts make f n [] 0 (finish_span s).retries (finish_span s) ih refl
      (omega (arith, known)) (omega (arith, known))

Counts-reset : (n : ℕ) (o : Option HttpCallImpl) → Counts n o → Counts n (Option.map reset o)
unfolding reset
Counts-reset n none h = h
Counts-reset n (some t) h = h

make_one_call_on-Counts : (env : Env) (f : ℕ) → IsCounting (make_one_call_on f env) f
unfolding make_one_call_on on_done deferred_delete
make_one_call_on-Counts env zero s h = absurd (omega arith)
make_one_call_on-Counts env (suc f) s h =
    let s' : HttpCallImpl = record s {
      request_count = s.request_count + 1;
      request_span = some (s.request_count + 1);
    } in
    ground (
      arith,
      Counts-reset (s.request_count + 1 + s.retries) (on_failure (make_one_call_on f env) s'),
      on_failure-Counts (make_one_call_on f env) f (s.request_count + 1 + s.retries) s'
          (make_one_call_on-Counts env f),
    )

make_one_call-Counts : (env : Env) (f : ℕ) → IsCounting (make_one_call env) f
unfolding make_one_call
make_one_call-Counts env f s h = make_one_call_on-Counts env (s.retries + 1) s (omega arith)

on_success_with-Counts :
    (env : Env) (n : ℕ) (status : Option ℕ) (body : Str) (s : HttpCallImpl)
    → s.request_count + s.retries ≡ n
    → Counts n (on_success_with env status body s)
unfolding on_success_with complete deferred_delete reset on_done attempt_retry
on_success_with-Counts env n none body s same = same
on_success_with-Counts env n (some code) body s same =
    let known = finish_span-counts s in
    let t = finish_span s in
    ground (
      arith,
      known,
      attempt_retry-Counts (make_one_call env) t.retries n body code t.retries t
          (make_one_call-Counts env t.retries) refl (omega arith) (omega (arith, known)),
    )

pub on_success-Counts :
    (env : Env) (n : ℕ) (r : Response) (s : HttpCallImpl)
    → s.request_count + s.retries ≡ n
    → Counts n (on_success env r s)
unfolding on_success
on_success-Counts env n r s = on_success_with-Counts env n r.status r.body s

pub on_failure_call-Counts :
    (env : Env) (n : ℕ) (s : HttpCallImpl)
    → s.request_count + s.retries ≡ n
    → Counts n (on_failure (make_one_call env) s)
on_failure_call-Counts env n s =
    on_failure-Counts (make_one_call env) s.retries n s (make_one_call-Counts env s.retries)
      (omega arith)

Counts-some : (n : ℕ) (o : Option HttpCallImpl) → Counts n o → (t : HttpCallImpl) × (o ≡ some t)
Counts-some n none h = elim h [ ]
Counts-some n (some t) h = (t, refl)

-- Every entry point of a call returns: retries are finite, whatever the tokens and the client do.
pub http_call_total :
    (env : Env) (s : HttpCallImpl) (r : Response)
    → ((t : HttpCallImpl) × (make_one_call env s ≡ some t))
      × ((t : HttpCallImpl) × (on_success env r s ≡ some t))
      × ((t : HttpCallImpl) × (on_failure (make_one_call env) s ≡ some t))
http_call_total env s r = (
  Counts-some _ _ (make_one_call-Counts env (suc s.retries) s (omega arith)),
  Counts-some _ _ (on_success-Counts env (s.request_count + s.retries) r s refl),
  Counts-some _ _ (on_failure_call-Counts env (s.request_count + s.retries) s refl),
)

cancel-counts :
    (s : HttpCallImpl) → (cancel s).request_count + (cancel s).retries ≡ s.request_count + s.retries
unfolding cancel finish_span finish_span_of cancel_request reset on_done deferred_delete
cancel-counts s = ground arith

Reach-counts :
    (env : Env) (retries : ℕ) {s : HttpCallImpl}
    → Reach env retries s
    → s.request_count + s.retries ≡ retries + 1
Reach-counts env retries (start e) =
    let h = make_one_call-Counts env (suc retries) (new_call retries) (omega arith) in
    let k : 0 + retries + 1 ≡ retries + 1 = omega arith in ground (arith, e, h, k)
Reach-counts env retries (next reach (respond s r _ e)) = ground (
  arith,
  e,
  on_success-Counts env (retries + 1) r (record s { in_flight = s.in_flight - 1 })
      (Reach-counts env retries reach),
)
Reach-counts env retries (next reach (fail s _ e)) = ground (
  arith,
  e,
  on_failure_call-Counts env (retries + 1) (record s { in_flight = s.in_flight - 1 })
      (Reach-counts env retries reach),
)
Reach-counts env retries (next reach (cancels s _)) =
    cancel-counts s ∙ Reach-counts env retries reach

-- However it goes, a call makes at most one request more than the retries it was given, and each
-- request after the first used up a retry.
pub request_count_bounded :
    (env : Env) (retries : ℕ) {s : HttpCallImpl}
    → Reach env retries s
    → (s.request_count ≤ retries + 1) × (s.request_count + s.retries ≡ retries + 1)
request_count_bounded env retries reach = let h = Reach-counts env retries reach in (omega arith, h)

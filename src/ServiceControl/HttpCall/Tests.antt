-- ===== src/ServiceControl/HttpCall/Tests.antt =====
-- Runs of a call with one retry.
use esp_v.Base.{◌+◌, ◌≤◌, codes, ◌==◌, if◌then◌else◌, true, none, some, [], ◌∷◌, ◌≡◌, refl, arith}
use esp_v.ServiceControl.HttpCall.{
  HttpCallImpl, Env, Response, pending, failed_inline, new_call, make_one_call, on_success,
  on_failure, cancel, Reach, start, next, respond, running,
}
use esp_v.ServiceControl.HttpCall.Total.{http_call_total, request_count_bounded}
use esp_v.ServiceControl.HttpCall.Once.{HasPhase, reports_once, lost_request}

-- A client that takes every request.
abbrev steady : Env
steady = record { has_token = λ n. true; send = λ n. pending }

-- A client that fails the first request at once.
abbrev shaky : Env
shaky = record { has_token = λ n. true; send = λ n. if n == 1 then failed_inline else pending }

abbrev unavailable : Response
unavailable = record { status = some 503; body = codes "unavailable" }

abbrev sent_once : HttpCallImpl
sent_once = record (new_call 1) {
  request_count = 1;
  request = some 1;
  request_span = some 1;
  in_flight = 1;
}

abbrev sent_twice : HttpCallImpl
sent_twice = record (new_call 0) {
  request_count = 2;
  request = some 2;
  request_span = some 2;
  finished_spans = 1 ∷ [];
  in_flight = 1;
}

retried : Reach steady 1 sent_twice
unfolding running
retried = next (start refl) (respond sent_once unavailable (omega arith) refl)

http_call_total_example :
    ((t : HttpCallImpl) × (make_one_call shaky sent_once ≡ some t))
    × ((t : HttpCallImpl) × (on_success shaky unavailable sent_once ≡ some t))
    × ((t : HttpCallImpl) × (on_failure (make_one_call shaky) sent_once ≡ some t))
http_call_total_example = http_call_total shaky sent_once unavailable

request_count_bounded_example : (2 ≤ 1 + 1) × (2 + 0 ≡ 1 + 1)
request_count_bounded_example = request_count_bounded steady 1 retried

reports_once_example : HasPhase sent_twice
reports_once_example = reports_once steady (λ n. refl) 1 retried

lost_request_example :
    (s : HttpCallImpl) × (make_one_call shaky (new_call 1) ≡ some s)
    × (s.in_flight ≡ 1)
    × (s.request ≡ none)
    × (s.on_done_calls ≡ [])
    × ((cancel s).in_flight ≡ 1)
    × ((cancel s).deletions ≡ 1)
lost_request_example = lost_request shaky 0 refl refl refl refl

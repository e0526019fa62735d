-- ===== src/ServiceControl/ClientCache/Policy.antt =====
-- Whether src/envoy/http/service_control/client_cache.cc lets a request pass when the service
-- control server does not answer.
use esp_v.Base.{
  Str, if◌then◌else◌, Bool, true, false, Option, none, some, Bool-cases, Option-cases, ◌≡◌, ◌⊎◌,
  inl, inr, refl, arith,
}
use esp_v.ServiceControl.Info.{Status, ok_status, is_ok}
use esp_v.ServiceControl.RequestBuilder.Convert.{CheckResponse}
use esp_v.ServiceControl.RequestBuilder.Checked.{passes, convert_check_response_lem}
use esp_v.ServiceControl.ClientCache.{
  ClientCache, transport_done, invalid_response, check_done, CheckClient, check_by_transport,
}

-- What a check is to answer: the server's verdict where its answer came and parsed, and the policy
-- of the configuration where it did not.
abbrev pub verdict : Bool → Option CheckResponse → Bool
verdict fail_open none = fail_open
verdict fail_open (some response) = passes response.check_errors

-- The response of a call, if it came.
abbrev pub response_of : (Str → Option CheckResponse) → Status → Str → Option CheckResponse
response_of parse status body = if is_ok status then parse body else none

check_done-failed :
    (cache : ClientCache) (status : Status) (response : CheckResponse)
    → is_ok status ≡ false
    → is_ok (check_done cache status response).0 ≡ cache.setting.network_fail_open
unfolding check_done is_ok
check_done-failed cache status response bad = elim (Bool-cases cache.setting.network_fail_open) [
  | inl open_policy ↦ ground (arith, bad, open_policy)
  | inr closed_policy ↦ ground (arith, bad, closed_policy)
]

check_done-passes :
    (cache : ClientCache) (status : Status) (response : CheckResponse)
    → is_ok status ≡ true
    → is_ok (check_done cache status response).0 ≡ passes response.check_errors
unfolding check_done
check_done-passes cache status response good =
    rw good (convert_check_response_lem response cache.service_name).0

-- The status and the response that the transport hands over.
transport_done-cases :
    (parse : Str → Option CheckResponse) (status : Status) (body : Str)
    → ((response : CheckResponse) × (response_of parse status body ≡ some response)
        × (transport_done parse status body ≡ (ok_status, some response)))
      ⊎ ((failure : Status) × (response_of parse status body ≡ none)
          × (transport_done parse status body ≡ (failure, none))
          × (is_ok failure ≡ false))
unfolding transport_done is_ok
transport_done-cases parse status body = elim (Bool-cases (is_ok status)) [
  | inr failed ↦ inr (status, rw failed refl, rw failed refl, failed)
  | inl good ↦ elim (Option-cases (parse body)) [
    | inl broken ↦ inr (invalid_response, rw (good, broken) refl, rw (good, broken) refl, refl)
    | inr (response, fine) ↦ inl (response, rw (good, fine) refl, rw (good, fine) refl)
  ]
]

ok_status-is_ok : is_ok ok_status ≡ true
unfolding is_ok
ok_status-is_ok = refl

-- A check that goes to the server lets the request pass by the server's answer where it comes and
-- parses, and exactly by `network_fail_open` where the call fails or its body does not parse.
pub check_by_transport_lem :
    (client : CheckClient) (cache : ClientCache) (parse : Str → Option CheckResponse)
    (status : Status) (body : Str)
    → is_ok (check_by_transport client cache parse status body).0
      ≡ verdict cache.setting.network_fail_open (response_of parse status body)
unfolding check_by_transport
check_by_transport_lem client cache parse status body =
    elim (transport_done-cases parse status body) [
      | inl (response, came, done) ↦
          rw
            (
              came,
              done,
              client.hands_status ok_status (some response),
              client.hands_response ok_status response,
            )
            (check_done-passes cache ok_status response ok_status-is_ok)
      | inr (failure, missing, done, bad) ↦
          rw (missing, done, client.hands_status failure none)
            (check_done-failed cache failure _ bad)
    ]

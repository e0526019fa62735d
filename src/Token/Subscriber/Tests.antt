-- ===== src/Token/Subscriber/Tests.antt =====
-- Runs of a token subscriber.
use esp_v.Base.{codes, none, some, [], refl, pos}
use esp_v.Token.Subscriber.{
  access_token, TokenInfo, TokenSubscriber, Response, accepted, refresh, process_response,
  on_failure, ok_status, Reach, start, next, failure,
}
use esp_v.Token.Subscriber.Alive.{IsAlive, Reach-IsAlive}
use esp_v.Token.Subscriber.Handled.{answer_of, IsHandled, process_response-IsHandled}

-- A parser whose tokens last an hour.
abbrev hour_info : TokenInfo
hour_info = record {
  parse_identity_token = λ body. none;
  parse_access_token = λ body. some (record { token = body; expiry_duration = pos 3600 });
}

abbrev fetching_one : TokenSubscriber
fetching_one =
    refresh (accepted 1) (record { active_request = none; refresh_timer = none; log = [] })

abbrev token_response : Response
token_response = record { status = some ok_status; body = codes "token" }

failed_once : Reach access_token hour_info (on_failure access_token hour_info fetching_one)
unfolding refresh
failed_once = next (start (accepted 1)) (failure fetching_one 1 refl)

Reach-IsAlive_example : IsAlive (on_failure access_token hour_info fetching_one)
Reach-IsAlive_example = Reach-IsAlive access_token hour_info failed_once

process_response-IsHandled_example :
    IsHandled
      (accepted 2)
      fetching_one
      (process_response access_token hour_info (accepted 2) token_response fetching_one)
      (answer_of (some 200) (some (record { token = codes "token"; expiry_duration = pos 3600 })))
    × IsHandled (accepted 2) fetching_one (on_failure access_token hour_info fetching_one) none
process_response-IsHandled_example =
    process_response-IsHandled access_token hour_info (accepted 2) token_response fetching_one

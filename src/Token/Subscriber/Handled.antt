-- ===== src/Token/Subscriber/Handled.antt =====
-- What `TokenSubscriber` (src/envoy/token/token_subscriber.cc) does with a response, in seconds.
use esp_v.Base.{
  ℕ, ◌+◌, ◌-◌, ◌<◌, ◌==◌, leb, leb_ℤ, Str, if◌then◌else◌, true, Option, none, some, List, [], ◌∷◌,
  ◌++◌, ◌≡◌, inl, inr, refl, arith, Bool-cases, ℤ, pos, negsuc, ap,
}
use esp_v.Token.Subscriber.{
  TokenType, TokenResult, TokenInfo, Response, Effect, send, update, ready, TokenSubscriber,
  Attempt, not_prepared, accepted, failed_at_once, refresh, process_response, process_result,
  handle_success_response, on_failure, parse_by, is_ok, handle_fail_response, note, enable_timer,
}

-- The token of a response: a status of 200 and a body that parses.
abbrev pub answer_of : Option ℕ → Option TokenResult → Option TokenResult
answer_of none parsed = none
answer_of (some code) parsed = if code == 200 then parsed else none

-- A subscriber that has given up a request for now, and asks again after two seconds.
abbrev pub Waits : List Effect → TokenSubscriber → Type 0
Waits log t = (t.active_request ≡ none) × (t.refresh_timer ≡ some 2) × (t.log ≡ log)

-- What becomes of a subscriber by the token it gets, if any. `asks` is what a request meets.
pub data IsHandled (asks : Attempt) (s t : TokenSubscriber) : Option TokenResult → Type 0 where
  -- no token: nothing is handed out
  no_token : Waits s.log t → IsHandled asks s t none
  -- a token that lasts: handed out, and renewed five seconds before it expires
  renewed :
      (result : TokenResult) (delay : ℕ)
      → result.expiry_duration ≡ pos (delay + 5)
      → 0 < delay
      → t.active_request ≡ none
      → t.refresh_timer ≡ some delay
      → t.log ≡ s.log ++ update result.token ∷ ready ∷ []
      → IsHandled asks s t (some result)
  -- a token that expires within five seconds: handed out, and the next one is asked for at once
  asked_at_once :
      (result : TokenResult) (r : ℕ)
      → leb_ℤ result.expiry_duration (pos 5) ≡ true
      → asks ≡ accepted r
      → t.active_request ≡ some r
      → t.refresh_timer ≡ s.refresh_timer
      → t.log ≡ s.log ++ update result.token ∷ send r ∷ ready ∷ []
      → IsHandled asks s t (some result)
  -- the same, but the request does not leave
  asked_later :
      (result : TokenResult)
      → leb_ℤ result.expiry_duration (pos 5) ≡ true
      → Waits (s.log ++ update result.token ∷ ready ∷ []) t
      → IsHandled asks s t (some result)

append_two : (log : List Effect) (e f : Effect) → (log ++ e ∷ []) ++ f ∷ [] ≡ log ++ e ∷ f ∷ []
append_two [] e f = refl
append_two (d ∷ log) e f = ap (λ l. d ∷ l) (append_two log e f)

append_three :
    (log : List Effect) (e f g : Effect)
    → ((log ++ e ∷ []) ++ f ∷ []) ++ g ∷ [] ≡ log ++ e ∷ f ∷ g ∷ []
append_three [] e f g = refl
append_three (d ∷ log) e f g = ap (λ l. d ∷ l) (append_three log e f g)

early-IsHandled :
    (asks : Attempt) (s : TokenSubscriber) (result : TokenResult)
    → leb_ℤ result.expiry_duration (pos 5) ≡ true
    → IsHandled asks s
        (note ready
          (refresh asks (note (update result.token) (record s { active_request = none }))))
        (some result)
unfolding note refresh handle_fail_response enable_timer
early-IsHandled not_prepared s result early =
    asked_later result early (refl, refl, append_two s.log _ _)
early-IsHandled failed_at_once s result early =
    asked_later result early (refl, refl, append_two s.log _ _)
early-IsHandled (accepted r) s result early =
    asked_at_once result r early refl refl refl (append_three s.log _ _ _)

handle_success_response-IsHandled :
    (asks : Attempt) (s : TokenSubscriber) (token : Str) (expiry : ℤ)
    → let result : TokenResult = record { token = token; expiry_duration = expiry } in
      IsHandled asks s (handle_success_response asks result s) (some result)
unfolding handle_success_response note enable_timer
handle_success_response-IsHandled asks s token (negsuc n) =
    early-IsHandled asks s (record { token = token; expiry_duration = negsuc n }) refl
handle_success_response-IsHandled asks s token (pos n) =
    let result : TokenResult = record { token = token; expiry_duration = pos n } in
    elim (Bool-cases (leb n 5)) [
      | inl soon ↦ rw soon (early-IsHandled asks s result soon)
      | inr later ↦
          let long : 5 < n = ground (arith, later) in
          let known : n ≡ n - 5 + 5 = omega arith in
          rw later
            (renewed result (n - 5) (ap pos known) (omega arith) refl refl (append_two s.log _ _))
    ]

process_result-IsHandled :
    (asks : Attempt) (s : TokenSubscriber) (parsed : Option TokenResult)
    → IsHandled asks s (process_result asks parsed s) parsed
unfolding process_result handle_fail_response enable_timer
process_result-IsHandled asks s none = no_token (refl, refl, refl)
process_result-IsHandled asks s (some result) =
    handle_success_response-IsHandled asks s result.token result.expiry_duration

answered-IsHandled :
    (asks : Attempt) (s : TokenSubscriber) (status : Option ℕ) (parsed : Option TokenResult)
    → IsHandled asks s
        (if is_ok status then process_result asks parsed s else handle_fail_response s)
        (answer_of status parsed)
unfolding handle_fail_response enable_timer
answered-IsHandled asks s none parsed = no_token (refl, refl, refl)
answered-IsHandled asks s (some code) parsed = elim (Bool-cases (code == 200)) [
  | inl good ↦ rw good (process_result-IsHandled asks s parsed)
  | inr bad ↦ rw bad (no_token (refl, refl, refl))
]

-- A response with status 200 whose body parses as a token is handled by its expiry: the token is
-- handed out, readiness is signalled, and the next token is asked for five seconds before this one
-- expires, or at once if it expires within five seconds, or, where that request cannot leave, after
-- two seconds. Any other response, and a network failure, hand nothing out and ask again after two
-- seconds.
pub process_response-IsHandled :
    (type : TokenType) (info : TokenInfo) (asks : Attempt) (response : Response)
    (s : TokenSubscriber)
    → IsHandled asks s
        (process_response type info asks response s)
        (answer_of response.status (parse_by type info response.body))
      × IsHandled asks s (on_failure type info s) none
unfolding process_response on_failure handle_fail_response enable_timer
process_response-IsHandled type info asks response s = (
  answered-IsHandled asks s response.status (parse_by type info response.body),
  no_token (refl, refl, refl),
)

-- ===== src/Token/Subscriber/Alive.antt =====
-- The requests and the timer of `TokenSubscriber` (src/envoy/token/token_subscriber.cc), and how
-- it treats a response.
use esp_v.Base.{ℕ, Option, none, some, ◌≡◌, inl, inr, refl, Option-cases, Bool-cases, ◌∙◌}
use esp_v.Token.Subscriber.{
  TokenType, TokenResult, TokenInfo, Response, Effect, update, ready, TokenSubscriber, Attempt,
  not_prepared, accepted, failed_at_once, refresh, process_response, process_result,
  handle_success_response, on_failure, parse_by, is_ok, expires_soon, before_expiry, Step, fire,
  succeed, failure, Reach, start, next, note, cancel_active, failed_request_retry_time,
}

-- Either one request is under way and the timer is off, or there is none and the timer is on.
pub data IsAlive (s : TokenSubscriber) : Type 0 where
  fetching : (r : ℕ) → s.active_request ≡ some r → s.refresh_timer ≡ none → IsAlive s
  waiting : (delay : ℕ) → s.active_request ≡ none → s.refresh_timer ≡ some delay → IsAlive s

cancel_active-refresh_timer :
    (o : Option ℕ) (s : TokenSubscriber) → (cancel_active o s).refresh_timer ≡ s.refresh_timer
unfolding cancel_active
cancel_active-refresh_timer none s = refl
cancel_active-refresh_timer (some r) s = refl

refresh-IsAlive :
    (a : Attempt) (s : TokenSubscriber) → s.refresh_timer ≡ none → IsAlive (refresh a s)
unfolding refresh
refresh-IsAlive not_prepared s h = waiting failed_request_retry_time refl refl
refresh-IsAlive failed_at_once s h = waiting failed_request_retry_time refl refl
refresh-IsAlive (accepted r) s h =
    fetching r refl (cancel_active-refresh_timer s.active_request s ∙ h)

IsAlive-note : (e : Effect) (s : TokenSubscriber) → IsAlive s → IsAlive (note e s)
unfolding note
IsAlive-note e s (fetching r h k) = fetching r h k
IsAlive-note e s (waiting d h k) = waiting d h k

handle_success_response-IsAlive :
    (a : Attempt) (result : TokenResult) (s : TokenSubscriber)
    → s.refresh_timer ≡ none
    → IsAlive (handle_success_response a result s)
unfolding handle_success_response note
handle_success_response-IsAlive a result s h =
    elim (Bool-cases (expires_soon result.expiry_duration)) [
      | inl soon ↦
          let s' : TokenSubscriber =
            note (update result.token) (record s { active_request = none }) in
          rw soon (IsAlive-note ready (refresh a s') (refresh-IsAlive a s' h))
      | inr later ↦
          rw later (IsAlive-note ready _ (waiting (before_expiry result.expiry_duration) refl refl))
    ]

process_response-IsAlive :
    (type : TokenType) (info : TokenInfo) (a : Attempt) (response : Response) (s : TokenSubscriber)
    → s.refresh_timer ≡ none
    → IsAlive (process_response type info a response s)
unfolding process_response process_result
process_response-IsAlive type info a response s h = elim (Bool-cases (is_ok response.status)) [
  | inl good ↦ elim (Option-cases (parse_by type info response.body)) [
    | inl bad ↦ rw (good, bad) (waiting failed_request_retry_time refl refl)
    | inr (result, parsed) ↦ rw (good, parsed) (handle_success_response-IsAlive a result s h)
  ]
  | inr bad ↦ rw bad (waiting failed_request_retry_time refl refl)
]

fetching_timer :
    {s : TokenSubscriber} {r : ℕ} → IsAlive s → s.active_request ≡ some r → s.refresh_timer ≡ none
fetching_timer (fetching r h k) e = k
fetching_timer (waiting d h k) e = cc

Step-IsAlive :
    (type : TokenType) (info : TokenInfo) {s t : TokenSubscriber}
    → Step type info s t
    → IsAlive s
    → IsAlive t
unfolding on_failure
Step-IsAlive type info (fire s d a e) h = refresh-IsAlive a _ refl
Step-IsAlive type info (succeed s r a response e) h =
    process_response-IsAlive type info a response s (fetching_timer h e)
Step-IsAlive type info (failure s r e) h = waiting failed_request_retry_time refl refl

-- Whatever the token server, the client and the timer do, exactly one of the two holds: a request
-- is under way, or the refresh timer is enabled.
pub Reach-IsAlive :
    (type : TokenType) (info : TokenInfo) {s : TokenSubscriber} → Reach type info s → IsAlive s
Reach-IsAlive type info (start a) = refresh-IsAlive a _ refl
Reach-IsAlive type info (next r st) = Step-IsAlive type info st (Reach-IsAlive type info r)

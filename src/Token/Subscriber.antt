-- ===== src/Token/Subscriber.antt =====
-- src/envoy/token/token_subscriber.{h,cc}: `TokenSubscriber`.
-- What the class does to others is its log: requests sent and cancelled by their numbers, tokens
-- handed to the callback, the timer, and the signal of the init target. Durations are seconds.
pub mod Alive
pub mod Handled
mod Tests
use esp_v.Base.{
  ℕ, ◌+◌, ◌-◌, Str, leb, ◌==◌, if◌then◌else◌, Bool, true, false, Option, none, some, List, [], ◌∷◌,
  ◌++◌, ◌≡◌, ℤ, pos, negsuc,
}

abbrev pub failed_request_retry_time : ℕ
failed_request_retry_time = 2

abbrev pub refresh_buffer : ℕ
refresh_buffer = 5

abbrev pub ok_status : ℕ
ok_status = 200

pub data TokenType : Type 0 where
  access_token identity_token : TokenType

pub record TokenResult : Type 0 where
  pub token : Str
  pub expiry_duration : ℤ

-- The parsers of a `TokenInfo`, which are given.
pub record TokenInfo : Type 0 where
  pub parse_identity_token : Str → Option TokenResult
  pub parse_access_token : Str → Option TokenResult

-- An HTTP response; no status is the exception of `getResponseStatus`.
pub record Response : Type 0 where
  pub status : Option ℕ
  pub body : Str

pub data Effect : Type 0 where
  cancel : ℕ → Effect
  send : ℕ → Effect
  update : Str → Effect
  ready : Effect

-- `active_request_`, the delay of `refresh_timer_` while it is enabled, and the log.
pub record TokenSubscriber : Type 0 where
  pub active_request : Option ℕ
  pub refresh_timer : Option ℕ
  pub log : List Effect

-- What a call of `refresh` meets: no request can be prepared, the client accepts the request under
-- a number, or the client reports a failure before `send` returns a null pointer.
pub data Attempt : Type 0 where
  not_prepared : Attempt
  accepted : ℕ → Attempt
  failed_at_once : Attempt

unfoldable pub enable_timer : ℕ → TokenSubscriber → TokenSubscriber
enable_timer delay s = record s { refresh_timer = some delay }

unfoldable pub note : Effect → TokenSubscriber → TokenSubscriber
note e s = record s { log = s.log ++ e ∷ [] }

-- `handleFailResponse`
unfoldable pub handle_fail_response : TokenSubscriber → TokenSubscriber
unfolding enable_timer
handle_fail_response s = enable_timer failed_request_retry_time (record s { active_request = none })

-- `if (active_request_) active_request_->cancel()`
unfoldable pub cancel_active : Option ℕ → TokenSubscriber → TokenSubscriber
unfolding note
cancel_active none s = s
cancel_active (some r) s = note (cancel r) s

-- The rest of `refresh`, by what it meets.
unfoldable pub attempt : Attempt → TokenSubscriber → TokenSubscriber
unfolding note handle_fail_response
attempt not_prepared s = handle_fail_response s
attempt (accepted r) s = record (note (send r) s) { active_request = some r }
attempt failed_at_once s = record (handle_fail_response s) { active_request = none }

unfoldable pub refresh : Attempt → TokenSubscriber → TokenSubscriber
unfolding cancel_active attempt
refresh a s = attempt a (cancel_active s.active_request s)

-- `expires_in <= kRefreshBuffer`
abbrev pub expires_soon : ℤ → Bool
expires_soon (pos n) = leb n refresh_buffer
expires_soon (negsuc n) = true

-- `expires_in - kRefreshBuffer`, for a duration above the buffer.
abbrev pub before_expiry : ℤ → ℕ
before_expiry (pos n) = n - refresh_buffer
before_expiry (negsuc n) = 0

-- `handleSuccessResponse`; `a` is what a refresh within it meets.
unfoldable pub handle_success_response : Attempt → TokenResult → TokenSubscriber → TokenSubscriber
unfolding note refresh enable_timer
handle_success_response a result s =
    let s' = note (update result.token) (record s { active_request = none }) in
    note ready (
      if expires_soon result.expiry_duration
      then refresh a s'
      else enable_timer (before_expiry result.expiry_duration) s')

abbrev pub parse_by : TokenType → TokenInfo → Str → Option TokenResult
parse_by identity_token info = info.parse_identity_token
parse_by access_token info = info.parse_access_token

unfoldable pub process_result : Attempt → Option TokenResult → TokenSubscriber → TokenSubscriber
unfolding handle_fail_response handle_success_response
process_result a none s = handle_fail_response s
process_result a (some result) s = handle_success_response a result s

abbrev pub is_ok : Option ℕ → Bool
is_ok none = false
is_ok (some code) = code == ok_status

module _ (type : TokenType) (info : TokenInfo) where
  -- `processResponse`, which `onSuccess` calls.
  unfoldable pub process_response : Attempt → Response → TokenSubscriber → TokenSubscriber
  unfolding handle_fail_response process_result
  process_response a response s =
      if is_ok response.status
      then process_result a (parse_by type info response.body) s
      else handle_fail_response s

  -- `onFailure`
  unfoldable pub on_failure : TokenSubscriber → TokenSubscriber
  unfolding handle_fail_response
  on_failure s = handle_fail_response s

  -- The destructor.
  unfoldable pub destroy : TokenSubscriber → TokenSubscriber
  unfolding cancel_active
  destroy s = cancel_active s.active_request s

  -- What the event loop may do next: fire the enabled timer, or finish the active request.
  pub data Step : TokenSubscriber → TokenSubscriber → Type 0 where
    fire :
        (s : TokenSubscriber) (delay : ℕ) (a : Attempt)
        → s.refresh_timer ≡ some delay
        → Step s (refresh a (record s { refresh_timer = none }))
    succeed :
        (s : TokenSubscriber) (r : ℕ) (a : Attempt) (response : Response)
        → s.active_request ≡ some r
        → Step s (process_response a response s)
    failure : (s : TokenSubscriber) (r : ℕ) → s.active_request ≡ some r → Step s (on_failure s)

  -- After `init`, the init manager calls `refresh` once.
  pub data Reach : TokenSubscriber → Type 0 where
    start :
        (a : Attempt)
        → Reach (refresh a (record { active_request = none; refresh_timer = none; log = [] }))
    next : {s t : TokenSubscriber} → Reach s → Step s t → Reach t

-- ===== src/Token/Info/Expiry.antt =====
-- When the subscribers for tokens of src/envoy/token/imds_token_info.cc ask again.
use mathlib.Core.Option.{some-injective}
use esp_v.Base.{
  ℕ, ◌^◌, ltb, Str, codes, Bool, true, Option, none, some, ◌≡◌, inl, inr, refl, arith, Option-cases,
  Bool-cases, ℤ, pos, negsuc, ap, sym, lookup,
}
use esp_v.Token.Json.{
  Struct, Value, Read, found, failed, fits_int, as_int, as_integer, get_string, get_integer,
  number_value, string_value, other_value,
}
use esp_v.Token.Info.{
  Externals, imds_token_info, imds_access_result, imds_access_fields, with_expiry,
}
use esp_v.Token.Subscriber.{
  TokenType, access_token, identity_token, TokenResult, TokenInfo, Response, update,
  TokenSubscriber, Attempt, not_prepared, accepted, failed_at_once, refresh, process_response,
  process_result, handle_success_response, on_failure, parse_by, is_ok, expires_soon, before_expiry,
  Step, fire, succeed, failure, Reach, start, next, note, cancel_active,
}

-- Whether the delay of a timer fits in an `int`.
abbrev pub timer_fits : Option ℕ → Bool
timer_fits none = true
timer_fits (some delay) = ltb delay (2 ^ 31)

cancel_active-timer_fits :
    (o : Option ℕ) (s : TokenSubscriber)
    → timer_fits s.refresh_timer ≡ true
    → timer_fits (cancel_active o s).refresh_timer ≡ true
unfolding cancel_active
cancel_active-timer_fits none s h = h
cancel_active-timer_fits (some r) s h = h

refresh-timer_fits :
    (a : Attempt) (s : TokenSubscriber)
    → timer_fits s.refresh_timer ≡ true
    → timer_fits (refresh a s).refresh_timer ≡ true
unfolding refresh
refresh-timer_fits not_prepared s h = refl
refresh-timer_fits failed_at_once s h = refl
refresh-timer_fits (accepted r) s h = cancel_active-timer_fits s.active_request s h

before_expiry-fits :
    (expiry : ℤ) → fits_int expiry ≡ true → timer_fits (some (before_expiry expiry)) ≡ true
before_expiry-fits (pos n) h = ground (arith, h)
before_expiry-fits (negsuc n) h = refl

handle_success_response-timer_fits :
    (a : Attempt) (result : TokenResult) (s : TokenSubscriber)
    → fits_int result.expiry_duration ≡ true
    → timer_fits s.refresh_timer ≡ true
    → timer_fits (handle_success_response a result s).refresh_timer ≡ true
unfolding handle_success_response note
handle_success_response-timer_fits a result s fits h =
    elim (Bool-cases (expires_soon result.expiry_duration)) [
      | inl soon ↦
          let s' : TokenSubscriber =
            note (update result.token) (record s { active_request = none }) in
          rw soon (refresh-timer_fits a s' h)
      | inr later ↦ rw later (before_expiry-fits result.expiry_duration fits)
    ]

module _ (type : TokenType) (info : TokenInfo)
    (short : (body : Str) (result : TokenResult)
      → parse_by type info body ≡ some result
      → fits_int result.expiry_duration ≡ true) where
  process_response-timer_fits :
      (a : Attempt) (response : Response) (s : TokenSubscriber)
      → timer_fits s.refresh_timer ≡ true
      → timer_fits (process_response type info a response s).refresh_timer ≡ true
  unfolding process_response process_result
  process_response-timer_fits a response s h = elim (Bool-cases (is_ok response.status)) [
    | inl good ↦ elim (Option-cases (parse_by type info response.body)) [
      | inl bad ↦ rw (good, bad) refl
      | inr (result, parsed) ↦
          rw (good, parsed)
            (handle_success_response-timer_fits a result s (short response.body result parsed) h)
    ]
    | inr bad ↦ rw bad refl
  ]

  Step-timer_fits :
      {s t : TokenSubscriber}
      → Step type info s t
      → timer_fits s.refresh_timer ≡ true
      → timer_fits t.refresh_timer ≡ true
  unfolding on_failure
  Step-timer_fits (fire s d a e) h = refresh-timer_fits a _ refl
  Step-timer_fits (succeed s r a response e) h = process_response-timer_fits a response s h
  Step-timer_fits (failure s r e) h = refl

  Reach-timer_fits : {s : TokenSubscriber} → Reach type info s → timer_fits s.refresh_timer ≡ true
  Reach-timer_fits (start a) = refresh-timer_fits a _ refl
  Reach-timer_fits (next r st) = Step-timer_fits st (Reach-timer_fits r)

module _ {D T : Type 0} (ext : Externals D T) where
  as_int-fits : (d : D) {n : ℤ} → as_int ext.doubles d ≡ found n → fits_int n ≡ true
  unfolding as_int
  as_int-fits d e = ground (arith, e, ext.doubles.to_int-fits d)

  as_integer-fits :
      (value : Option (Value D)) (n : ℤ)
      → as_integer ext.doubles value ≡ found n
      → fits_int n ≡ true
  as_integer-fits none n e = cc
  as_integer-fits (some (number_value d)) n e = as_int-fits d e
  as_integer-fits (some (string_value text)) n e = cc
  as_integer-fits (some other_value) n e = cc

  with_expiry-fits :
      (token : Str) (expiry : Read ℤ) (result : TokenResult)
      → ((n : ℤ) → expiry ≡ found n → fits_int n ≡ true)
      → with_expiry ext token expiry ≡ some result
      → fits_int result.expiry_duration ≡ true
  with_expiry-fits token (failed code message) result fits e = cc
  with_expiry-fits token (found n) result fits e =
      rw (sym (ap (λ r. r.expiry_duration) (some-injective _ result e))) (fits n refl)

  imds_access_result-fits :
      (fields : Struct D) (token : Read Str) (result : TokenResult)
      → imds_access_result ext fields token ≡ some result
      → fits_int result.expiry_duration ≡ true
  unfolding get_integer
  imds_access_result-fits fields (failed code message) result e = cc
  imds_access_result-fits fields (found token) result e =
      with_expiry-fits token (get_integer ext.doubles fields (codes "expires_in")) result
        (as_integer-fits (lookup (codes "expires_in") fields)) e

  imds_access_fields-fits :
      (fields : Option (Struct D)) (result : TokenResult)
      → imds_access_fields ext fields ≡ some result
      → fits_int result.expiry_duration ≡ true
  imds_access_fields-fits none result e = cc
  imds_access_fields-fits (some fields) result e =
      imds_access_result-fits fields (get_string fields (codes "access_token")) result e

  imds_token_info-fits :
      (type : TokenType) (body : Str) (result : TokenResult)
      → parse_by type (imds_token_info ext) body ≡ some result
      → fits_int result.expiry_duration ≡ true
  unfolding imds_token_info
  imds_token_info-fits access_token body result e =
      imds_access_fields-fits (ext.json_string_to_message body) result e
  imds_token_info-fits identity_token body result e =
      rw (sym (ap (λ r. r.expiry_duration) (some-injective _ result e))) refl

-- Whatever the metadata server answers, in every reachable state of a subscriber for its access or
-- identity tokens the delay of the refresh timer, if it is on, is less than 2^31 seconds.
pub Reach-imds_timer :
    {D T : Type 0} (ext : Externals D T) (type : TokenType) {s : TokenSubscriber}
    → Reach type (imds_token_info ext) s
    → timer_fits s.refresh_timer ≡ true
Reach-imds_timer ext type reached =
    Reach-timer_fits type (imds_token_info ext) (imds_token_info-fits ext type) reached

-- ===== src/Token/Info/Identity.antt =====
-- What a subscriber does with the identity tokens of src/envoy/token/iam_token_info.cc.
use esp_v.Base.{
  Str, codes, Option, none, some, ◌≡◌, [], ◌∷◌, ◌++◌, inl, inr, refl, Option-cases, lookup,
}
use esp_v.Token.Json.{Struct, Value, number_value, string_value, other_value, get_string, as_string}
use esp_v.Token.Info.{Externals, iam_token_info, identity_result}
use esp_v.Token.Subscriber.{
  identity_token, update, ready, TokenSubscriber, Attempt, process_response, process_result,
  handle_success_response, handle_fail_response, note, enable_timer, ok_status,
}

-- The token of a response: the string in its field `token`.
abbrev pub string_of : {D : Type 0} → Option (Value D) → Option Str
string_of none = none
string_of (some (number_value d)) = none
string_of (some (string_value text)) = some text
string_of (some other_value) = none

abbrev pub token_of : {D : Type 0} → Option (Struct D) → Option Str
token_of none = none
token_of (some fields) = string_of (lookup (codes "token") fields)

-- The subscriber after a response with a token, or without one.
abbrev pub after_token : Option Str → TokenSubscriber → TokenSubscriber
after_token none s = record s { active_request = none; refresh_timer = some 2 }
after_token (some token) s = record s {
  active_request = none;
  refresh_timer = some 3594;
  log = (s.log ++ update token ∷ []) ++ ready ∷ [];
}

module _ {D T : Type 0} (ext : Externals D T) where
  identity_result-processed :
      (value : Option (Value D)) (a : Attempt) (s : TokenSubscriber)
      → process_result a (identity_result ext (as_string value)) s ≡ after_token (string_of value) s
  unfolding process_result handle_fail_response handle_success_response note enable_timer
  identity_result-processed none a s = refl
  identity_result-processed (some (number_value d)) a s = refl
  identity_result-processed (some (string_value text)) a s = refl
  identity_result-processed (some other_value) a s = refl

-- A 200 response of the IAM server to a request for an identity token is used exactly if it is a JSON
-- object with a string as its `token`: that string is handed out, readiness is signalled and the next
-- request follows after 3594 seconds; else nothing is handed out and it follows after two.
pub process_response-after_token :
    {D T : Type 0} (ext : Externals D T) (a : Attempt) (body : Str) (s : TokenSubscriber)
    → process_response identity_token
        (iam_token_info ext)
        a
        (record { status = some ok_status; body = body })
        s
      ≡ after_token (token_of (ext.json_string_to_message body)) s
unfolding process_response process_result iam_token_info get_string handle_fail_response
    enable_timer
process_response-after_token ext a body s = elim (Option-cases (ext.json_string_to_message body)) [
  | inl bad ↦ rw bad refl
  | inr (fields, parsed) ↦
      rw parsed (identity_result-processed ext (lookup (codes "token") fields) a s)
]

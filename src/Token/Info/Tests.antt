-- ===== src/Token/Info/Tests.antt =====
-- Runs of the token subscriber with token infos, whose JSON is a table and whose doubles are
-- integers.
use esp_v.Base.{
  Str, codes, str_eq, not, if◌then◌else◌, true, false, Option, none, some, [], ◌∷◌, ◌≡◌, refl, ℤ,
  pos, arith,
}
use esp_v.Token.Json.{Struct, Doubles, number_value, string_value, fits_int}
use esp_v.Token.Info.{Externals, iam_token_info, imds_token_info}
use esp_v.Token.Subscriber.{
  access_token, identity_token, TokenSubscriber, accepted, refresh, process_response, start, next,
  succeed, ok_status,
}
use esp_v.Token.Info.Expiry.{timer_fits, Reach-imds_timer}
use esp_v.Token.Info.Identity.{token_of, after_token, process_response-after_token}

is_in_range : (n : ℤ) → not (fits_int n) ≡ false → fits_int n ≡ true
is_in_range n e = ground (arith, e)

abbrev integers : Doubles ℤ
integers = record {
  is_below_int = λ n. not (fits_int n);
  is_above_int = λ n. not (fits_int n);
  is_nan = λ n. false;
  to_int = λ n. n;
  to_int-fits = λ n low high nan. is_in_range n low;
}

abbrev one_answer : Str → Option (Struct ℤ)
one_answer body =
    if str_eq body (codes "{}")
    then some []
    else some (
        (codes "access_token", string_value (codes "ya29"))
        ∷ (codes "expires_in", number_value (pos 3600))
        ∷ (codes "token", string_value (codes "eyJ"))
        ∷ [])

abbrev externals : Externals ℤ ℤ
externals = record {
  json_string_to_message = one_answer;
  doubles = integers;
  from_string = λ text. none;
  seconds_from_now = λ time. time;
  extract_host_path_from_uri = λ uri. (uri, []);
  get_json_string_from_message = λ fields. [];
}

abbrev idle : TokenSubscriber
idle = record { active_request = none; refresh_timer = none; log = [] }

abbrev asked : TokenSubscriber
asked = refresh (accepted 1) idle

one_request : asked.active_request ≡ some 1
unfolding refresh
one_request = refl

Reach-imds_timer_example :
    timer_fits
      (process_response access_token
        (imds_token_info externals)
        (accepted 2)
        (record { status = some ok_status; body = codes "a" })
        asked).refresh_timer
    ≡ true
Reach-imds_timer_example = Reach-imds_timer externals access_token (
    next (start (accepted 1))
      (succeed _ 1 (accepted 2) (record { status = some ok_status; body = codes "a" }) one_request))

process_response-after_token_example :
    process_response identity_token
      (iam_token_info externals)
      (accepted 2)
      (record { status = some ok_status; body = codes "a" })
      idle
    ≡ after_token (token_of (one_answer (codes "a"))) idle
process_response-after_token_example =
    process_response-after_token externals (accepted 2) (codes "a") idle

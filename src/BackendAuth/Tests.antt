-- ===== src/BackendAuth/Tests.antt =====
-- Runs of the backend auth filter on headers that are a list.
use esp_v.Base.{
  Str, codes, is_empty, str_eq, str_eq_iff, if◌then◌else◌, true, false, none, some, List, [], ◌∷◌,
  ◌++◌, ◌≡◌, refl, arith,
}
use esp_v.BackendAuth
use esp_v.BackendAuth.{
  Config, imds_token, HeaderMap, goes_on, Stats, new_parser, TokenEvent, id_token_delivered,
  access_token_delivered, decode_headers, audience_or_empty,
}
use esp_v.BackendAuth.Rules.{audience_of}
use esp_v.BackendAuth.Delivered.{is_thread, deliver, last_token}
use esp_v.BackendAuth.Authorized
use esp_v.BackendAuth.Authorized.{rules_of, IsAnswer, decode_headers-IsAnswer, decode_headers-keeps}

abbrev Headers : Type 0
Headers = List (Str × Str)

unfoldable values : Str → Headers → List Str
values name [] = []
values name ((other, value) ∷ h) =
    if str_eq other name then value ∷ values name h else values name h

unfoldable remove : Str → Headers → Headers
remove name [] = []
remove name ((other, value) ∷ h) =
    if str_eq other name then remove name h else (other, value) ∷ remove name h

values-remove :
    (name asked : Str) (h : Headers)
    → values asked (remove name h) ≡ (if str_eq asked name then [] else values asked h)
unfolding values remove
values-remove name asked [] = ground arith
values-remove name asked ((first, value) ∷ h) = ground (
  arith,
  str_eq_iff first name,
  str_eq_iff first asked,
  str_eq_iff asked name,
  values-remove name asked h,
)

values-add_copy :
    (name asked value : Str) (h : Headers)
    → values name h ≡ []
    → values asked (h ++ (name, value) ∷ [])
      ≡ (if str_eq asked name then value ∷ [] else values asked h)
unfolding values
values-add_copy name asked value [] absent =
    ground (arith, str_eq_iff name asked, str_eq_iff asked name)
values-add_copy name asked value ((first, held) ∷ h) absent = ground (
  arith,
  absent,
  str_eq_iff first name,
  str_eq_iff first asked,
  str_eq_iff asked name,
  values-add_copy name asked value h,
)

abbrev header_list : HeaderMap Headers
header_list = record {
  values = values;
  remove = remove;
  add_copy = λ name value h. h ++ (name, value) ∷ [];
  values-remove = values-remove;
  values-add_copy = values-add_copy;
}

abbrev two_rules : Config
two_rules = record {
  rules =
      record { operation = codes "GetShelf"; jwt_audience = codes "shelves" }
      ∷ record { operation = codes "Ping"; jwt_audience = [] }
      ∷ [];
  id_token_info = imds_token (record { uri = codes "/token"; cluster = codes "metadata" });
}

abbrev two_threads : List Str
two_threads = codes "main" ∷ codes "worker" ∷ []

abbrev delivered : List TokenEvent
delivered =
    id_token_delivered (codes "shelves") (codes "old")
    ∷ access_token_delivered (codes "access")
    ∷ id_token_delivered (codes "shelves") (codes "new")
    ∷ []

abbrev request : Headers
request = (codes "authorization", codes "of the client") ∷ (codes "host", codes "example") ∷ []

abbrev no_requests : Stats
no_requests = record { token_added = 0 }

worker-is_thread : is_thread two_threads (codes "worker") ≡ true
unfolding is_thread str_eq
worker-is_thread = refl

get_shelf-named : is_empty (codes "GetShelf") ≡ false
unfolding is_empty
get_shelf-named = refl

shelves-asked : is_empty (codes "shelves") ≡ false
unfolding is_empty
shelves-asked = refl

get_shelf-audience : audience_of (rules_of two_rules) (codes "GetShelf") ≡ some (codes "shelves")
unfolding audience_of esp_v.BackendAuth.Authorized.kept_rules str_eq
get_shelf-audience = refl

ping-unasked : is_empty (audience_or_empty (audience_of (rules_of two_rules) (codes "Ping"))) ≡ true
unfolding audience_of esp_v.BackendAuth.Authorized.kept_rules str_eq is_empty
ping-unasked = refl

decode_headers-IsAnswer_example :
    IsAnswer header_list
      (last_token (codes "shelves") delivered none)
      request
      (decode_headers header_list
        (deliver delivered (new_parser two_rules two_threads))
        (codes "worker")
        (codes "GetShelf")
        request
        no_requests).0
decode_headers-IsAnswer_example =
    decode_headers-IsAnswer header_list two_rules two_threads (codes "worker") delivered
      (codes "GetShelf") (codes "shelves") request no_requests worker-is_thread get_shelf-named
      get_shelf-audience shelves-asked

decode_headers-keeps_example :
    decode_headers header_list
      (deliver delivered (new_parser two_rules two_threads))
      (codes "worker")
      (codes "Ping")
      request
      no_requests
    ≡ (goes_on request, no_requests)
decode_headers-keeps_example =
    decode_headers-keeps header_list two_rules two_threads (codes "worker") delivered (codes "Ping")
      request no_requests ping-unasked

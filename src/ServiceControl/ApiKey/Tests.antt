-- ===== src/ServiceControl/ApiKey/Tests.antt =====
-- A request with its key in the query, after a header that is not there.
use esp_v.Base.{codes, none, some, [], ◌∷◌, ◌≡◌}
use esp_v.ServiceControl.ApiKey.{RequestHeaders, query, header, extract_api_key}
use esp_v.ServiceControl.ApiKey.Laws.{first_key, extract_api_key-first_key}

abbrev pub keyed_request : RequestHeaders
keyed_request = record {
  path = some (codes "/a?key=k1");
  get = λ name. none;
  cookie = λ name. [];
  parse_query = λ path. (codes "key", codes "k1") ∷ [];
}

extract_api_key-first_key_example :
    extract_api_key keyed_request (header (codes "x-api-key") ∷ query (codes "key") ∷ [])
    ≡ first_key keyed_request (header (codes "x-api-key") ∷ query (codes "key") ∷ [])
extract_api_key-first_key_example =
    extract_api_key-first_key keyed_request (header (codes "x-api-key") ∷ query (codes "key") ∷ [])

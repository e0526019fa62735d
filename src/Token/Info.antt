-- ===== src/Token/Info.antt =====
-- src/envoy/token/iam_token_info.cc and imds_token_info.cc: the requests for tokens and the parsers
-- of the responses. JSON, the splitting of addresses and the clock are of other libraries.
pub mod Expiry
pub mod Identity
mod Tests
use esp_v.Base.{
  Str, codes, is_empty, if◌then◌else◌, Bool, true, false, not, ◌||◌, Option, none, some, List, [],
  ◌∷◌, ◌++◌, map, insert, ℤ, pos,
}
use esp_v.Token.Json.{Struct, Doubles, Read, found, failed, get_string, get_integer, get_timestamp}
use esp_v.Token.Subscriber.{TokenResult, TokenInfo}

-- A value in the body of a request: a list of strings, or a Boolean.
pub data BodyValue : Type 0 where
  string_list : List Str → BodyValue
  bool_value : Bool → BodyValue

-- What the parsers and requests use: JSON, doubles, timestamps with the current time, and the host
-- and path of an address.
pub record Externals (D T : Type 0) : Type 0 where
  pub json_string_to_message : Str → Option (Struct D)
  pub doubles : Doubles D
  pub from_string : Str → Option T
  pub seconds_from_now : T → ℤ
  pub extract_host_path_from_uri : Str → Str × Str
  pub get_json_string_from_message : List (Str × BodyValue) → Str

-- A request, with its one header beside the method, the host and the path.
pub record Message : Type 0 where
  pub http_method : Str
  pub host : Str
  pub path : Str
  pub header : Str × Str
  pub body : Str

-- `kDefaultTokenExpiry`
abbrev pub default_token_expiry : ℤ
default_token_expiry = pos 3599

-- `IamTokenInfo`
pub record IamTokenInfo : Type 0 where
  pub delegates : List Str
  pub scopes : List Str
  pub include_email : Bool

abbrev is_empty_list : List Str → Bool
is_empty_list [] = true
is_empty_list (s ∷ ss) = false

-- `insertStrListToProto`
unfoldable pub insert_str_list_to_proto :
    Str → List Str → Str → List (Str × BodyValue) → List (Str × BodyValue)
insert_str_list_to_proto key val_list val_prefix body =
    insert key (string_list (map (λ val. val_prefix ++ val) val_list)) body

-- The body of a request of `IamTokenInfo`: its fields, in the order of insertion.
unfoldable pub body_fields : IamTokenInfo → List (Str × BodyValue)
body_fields info =
    let b0 =
      if is_empty_list info.delegates
      then []
      else insert_str_list_to_proto (codes "delegates") info.delegates
          (codes "projects/-/serviceAccounts/") [] in
    let b1 =
      if is_empty_list info.scopes
      then b0
      else insert_str_list_to_proto (codes "scope") info.scopes [] b0 in
    if info.include_email then insert (codes "includeEmail") (bool_value true) b1 else b1

module _ {D T : Type 0} (ext : Externals D T) where
  -- `prepareRequest` of `IamTokenInfo`, with the access token that its function gives.
  unfoldable pub iam_prepare_request : IamTokenInfo → Str → Str → Option Message
  iam_prepare_request info access_token token_url =
      let (host, path) = ext.extract_host_path_from_uri token_url in
      if is_empty access_token
      then none
      else some (record {
        http_method = codes "POST";
        host = host;
        path = path;
        header = (codes "authorization", codes "Bearer " ++ access_token);
        body =
            if not (is_empty_list info.delegates)
              || not (is_empty_list info.scopes)
              || info.include_email
            then ext.get_json_string_from_message (body_fields info)
            else [];
      })

  -- `prepareRequest` of `ImdsTokenInfo`
  unfoldable pub imds_prepare_request : Str → Message
  imds_prepare_request token_url =
      let (host, path) = ext.extract_host_path_from_uri token_url in
      record {
        http_method = codes "GET";
        host = host;
        path = path;
        header = (codes "metadata-flavor", codes "Google");
        body = [];
      }

  abbrev pub with_expiry : Str → Read ℤ → Option TokenResult
  with_expiry token (failed code message) = none
  with_expiry token (found expiry) = some (record { token = token; expiry_duration = expiry })

  abbrev pub until : Read T → Read ℤ
  until (failed code message) = failed code message
  until (found time) = found (ext.seconds_from_now time)

  -- The fields of a response of the IAM server, by its token.
  abbrev pub iam_access_result : Struct D → Read Str → Option TokenResult
  iam_access_result fields (failed code message) = none
  iam_access_result fields (found token) =
      with_expiry token (until (get_timestamp ext.from_string fields (codes "expireTime")))

  abbrev pub iam_access_fields : Option (Struct D) → Option TokenResult
  iam_access_fields none = none
  iam_access_fields (some fields) =
      iam_access_result fields (get_string fields (codes "accessToken"))

  abbrev pub identity_result : Read Str → Option TokenResult
  identity_result (failed code message) = none
  identity_result (found token) =
      some (record { token = token; expiry_duration = default_token_expiry })

  abbrev pub iam_identity_fields : Option (Struct D) → Option TokenResult
  iam_identity_fields none = none
  iam_identity_fields (some fields) = identity_result (get_string fields (codes "token"))

  -- The fields of a response of the metadata server, by its token.
  abbrev pub imds_access_result : Struct D → Read Str → Option TokenResult
  imds_access_result fields (failed code message) = none
  imds_access_result fields (found token) =
      with_expiry token (get_integer ext.doubles fields (codes "expires_in"))

  abbrev pub imds_access_fields : Option (Struct D) → Option TokenResult
  imds_access_fields none = none
  imds_access_fields (some fields) =
      imds_access_result fields (get_string fields (codes "access_token"))

  -- `parseAccessToken` and `parseIdentityToken` of `IamTokenInfo`.
  unfoldable pub iam_token_info : TokenInfo
  iam_token_info = record {
    parse_identity_token = λ response. iam_identity_fields (ext.json_string_to_message response);
    parse_access_token = λ response. iam_access_fields (ext.json_string_to_message response);
  }

  -- `parseAccessToken` and `parseIdentityToken` of `ImdsTokenInfo`.
  unfoldable pub imds_token_info : TokenInfo
  imds_token_info = record {
    parse_identity_token =
        λ response. some (record { token = response; expiry_duration = default_token_expiry });
    parse_access_token = λ response. imds_access_fields (ext.json_string_to_message response);
  }

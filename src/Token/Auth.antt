-- ===== src/Token/Auth.antt =====
-- src/api_proxy/auth/auth_token.cc and json_util.cc: tokens from a service account. The JSON, the
-- Base64 and the service account keys of gRPC, and the HMAC of OpenSSL, are parameters; C strings are
-- texts, and null is `none`.
pub mod Signed
mod Tests
use esp_v.Base.{
  ℕ, ◌+◌, Str, codes, is_empty, str_eq, if◌then◌else◌, Option, none, some, List, [], ◌∷◌, ◌++◌,
  decimal,
}

pub data JsonType : Type 0 where
  json_string json_number json_other : JsonType

-- A child of a JSON object.
pub record Child : Type 0 where
  pub key : Str
  pub value : Str
  pub type : JsonType

-- `grpc_json_parse_string`, `grpc_json_dump_to_string`, `grpc_base64_encode` and
-- `grpc_base64_decode` for URLs, `HMAC`, whose empty result is a failure, and the token of
-- `grpc_jwt_encode_and_sign` for a key that is valid.
pub record Grpc : Type 0 where
  pub json_parse_string : Str → Option (List Child)
  pub json_dump_to_string : List Child → Str
  pub base64_encode : Str → Str
  pub base64_decode : Str → Str
  pub hmac : (key text : Str) → Str
  pub jwt_encode_and_sign : (json_secret audience : Str) → ℕ → Option Str

abbrev pub token_lifetime : ℕ
token_lifetime = 3600

-- `GetProperty`
unfoldable pub get_property : List Child → Str → Option Child
get_property [] key = none
get_property (child ∷ children) key =
    if str_eq child.key key then some child else get_property children key

abbrev pub string_value_of : JsonType → Str → Option Str
string_value_of json_string value = some value
string_value_of json_number value = none
string_value_of json_other value = none

abbrev pub value_if_string : Option Child → Option Str
value_if_string none = none
value_if_string (some child) = string_value_of child.type child.value

abbrev pub children_of : Option (List Child) → List Child
children_of none = []
children_of (some children) = children

-- `GetStringValue`, of an object or of null.
unfoldable pub get_string_value : Option (List Child) → Str → Option Str
get_string_value json key = value_if_string (get_property (children_of json) key)

-- The children that hang together behind one that `FillChild` has linked: one with an empty value is
-- not linked, nor is what is linked to it.
unfoldable pub linked_behind : List Child → List Child
linked_behind [] = []
linked_behind (child ∷ children) =
    if is_empty child.value then [] else child ∷ linked_behind children

-- The children of an object after calls of `FillChild`, each with the child before as brother.
unfoldable pub fill_children : List Child → List Child
fill_children [] = []
fill_children (child ∷ children) =
    if is_empty child.value then fill_children children else child ∷ linked_behind children

-- `DotConcat`
unfoldable pub dot_concat : Str → Str → Str
dot_concat str1 str2 = str1 ++ b'.' ∷ str2

abbrev pub text_child : Str → Str → Child
text_child key value = record { key = key; value = value; type = json_string }

abbrev pub number_child : Str → ℕ → Child
number_child key n = record { key = key; value = decimal n; type = json_number }

-- What `GenerateJwtClaim` fills in at a time.
abbrev pub claims : Str → Str → Str → ℕ → List Child
claims issuer subject audience now =
    text_child (codes "iss") issuer
    ∷ text_child (codes "sub") subject
    ∷ text_child (codes "aud") audience
    ∷ number_child (codes "iat") now
    ∷ number_child (codes "exp") (now + token_lifetime)
    ∷ []

module _ (g : Grpc) where
  unfoldable pub generate_jose_header : Str → Str
  generate_jose_header algorithm = g.base64_encode (
      g.json_dump_to_string (
        fill_children
          (text_child (codes "alg") algorithm ∷ text_child (codes "typ") (codes "JWT") ∷ [])))

  unfoldable pub generate_jwt_claim : Str → Str → Str → ℕ → Str
  generate_jwt_claim issuer subject audience now =
      g.base64_encode (g.json_dump_to_string (fill_children (claims issuer subject audience now)))

  unfoldable pub generate_signature_hs256 : Str → Str → Option Str
  generate_signature_hs256 text key =
      let key_buffer = g.base64_decode key in
      let res = g.hmac key_buffer text in
      if is_empty key_buffer
      then none
      else if is_empty res
      then none
      else some (g.base64_encode res)

  abbrev pub with_signature : Str → Option Str → Option Str
  with_signature signed_data none = none
  with_signature signed_data (some signature) = some (dot_concat signed_data signature)

  -- The end of `GenerateTokenSymmetricKey`, with its secret.
  abbrev pub sign : Str → Str → Option Str
  sign secret signed_data = with_signature signed_data (generate_signature_hs256 signed_data secret)

  -- `GenerateTokenSymmetricKey`, by the issuer and the subject of the key.
  unfoldable pub generate_token_symmetric_key : Str → Option Str → Option Str → Str → ℕ → Option Str
  generate_token_symmetric_key secret none subject audience now = none
  generate_token_symmetric_key secret (some issuer) none audience now = none
  generate_token_symmetric_key secret (some issuer) (some subject) audience now = sign secret (
      dot_concat (generate_jose_header (codes "HS256"))
        (generate_jwt_claim issuer subject audience now))

  -- The branches of `get_auth_token`, by the client secret of the key.
  abbrev pub token_by : Option Str → Str → Str → ℕ → Option Str
  token_by none json_secret audience now = g.jwt_encode_and_sign json_secret audience token_lifetime
  token_by (some secret) json_secret audience now =
      let json = g.json_parse_string json_secret in
      generate_token_symmetric_key secret (get_string_value json (codes "issuer"))
        (get_string_value json (codes "subject")) audience now

  unfoldable pub get_auth_token : Str → Str → ℕ → Option Str
  get_auth_token json_secret audience now =
      token_by (get_string_value (g.json_parse_string json_secret) (codes "client_secret"))
        json_secret audience now

-- ===== src/Token/Auth/Tests.antt =====
-- A token of src/api_proxy/auth/auth_token.cc with encodings that change nothing.
use esp_v.Base.{codes, is_empty, str_eq, false, none, some, [], ◌∷◌, ◌++◌, ◌≡◌, refl}
use esp_v.Token.Auth
use esp_v.Token.Auth.{Grpc, text_child, get_string_value, get_auth_token}
use esp_v.Token.Auth.Signed.{hour_claims, signed_text, get_auth_token-signed_text}

abbrev plain : Grpc
plain = record {
  json_parse_string = λ text. some (
      text_child (codes "issuer") (codes "i")
      ∷ text_child (codes "subject") (codes "s")
      ∷ text_child (codes "client_secret") (codes "key")
      ∷ []);
  json_dump_to_string = λ children. codes "{}";
  base64_encode = λ text. text;
  base64_decode = λ text. text;
  hmac = λ key text. key;
  jwt_encode_and_sign = λ secret audience lifetime. none;
}

has_secret :
    get_string_value (plain.json_parse_string []) (codes "client_secret") ≡ some (codes "key")
unfolding get_string_value esp_v.Token.Auth.get_property str_eq
has_secret = refl

has_issuer : get_string_value (plain.json_parse_string []) (codes "issuer") ≡ some (codes "i")
unfolding get_string_value esp_v.Token.Auth.get_property str_eq
has_issuer = refl

has_subject : get_string_value (plain.json_parse_string []) (codes "subject") ≡ some (codes "s")
unfolding get_string_value esp_v.Token.Auth.get_property str_eq
has_subject = refl

i_there : is_empty (codes "i") ≡ false
unfolding is_empty
i_there = refl

s_there : is_empty (codes "s") ≡ false
unfolding is_empty
s_there = refl

key_there : is_empty (codes "key") ≡ false
unfolding is_empty
key_there = refl

get_auth_token-signed_text_example :
    get_auth_token plain [] (codes "s") 7
    ≡ some (
        signed_text plain (hour_claims (codes "i") (codes "s") (codes "s") 7) ++ b'.' ∷ codes "key")
get_auth_token-signed_text_example =
    get_auth_token-signed_text plain [] (codes "s") 7 (codes "i") (codes "s") (codes "key")
      has_secret has_issuer has_subject i_there s_there s_there key_there key_there

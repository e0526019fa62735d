-- ===== src/Token/Auth/Signed.antt =====
-- The tokens of src/api_proxy/auth/auth_token.cc for a key with a client secret.
use esp_v.Base.{
  ℕ, ◌+◌, ◌/◌, ◌%◌, zero, suc, inl, inr, Bool-cases, ltb, Str, codes, is_empty, false, some, List,
  [], ◌∷◌, ◌++◌, ◌≡◌, refl, digits, decimal,
}
use esp_v.Token.Auth.{
  Grpc, Child, json_string, json_number, get_string_value, fill_children, linked_behind, dot_concat,
  claims, text_child, generate_jose_header, generate_jwt_claim, generate_signature_hs256,
  generate_token_symmetric_key, get_auth_token,
}

-- The header, and the claims of a token that is issued at a time and lasts an hour.
abbrev pub text : Str → Str → Child
text key value = record { key = key; value = value; type = json_string }

abbrev pub number : Str → ℕ → Child
number key n = record { key = key; value = decimal n; type = json_number }

abbrev pub jose_header : List Child
jose_header = text (codes "alg") (codes "HS256") ∷ text (codes "typ") (codes "JWT") ∷ []

abbrev pub hour_claims : (issuer subject audience : Str) → ℕ → List Child
hour_claims issuer subject audience now =
    text (codes "iss") issuer
    ∷ text (codes "sub") subject
    ∷ text (codes "aud") audience
    ∷ number (codes "iat") now
    ∷ number (codes "exp") (now + 3600)
    ∷ []

-- A header and claims in Base64, joined by a dot.
abbrev pub signed_text : Grpc → List Child → Str
signed_text g claimed =
    g.base64_encode (g.json_dump_to_string jose_header)
    ++ b'.' ∷ g.base64_encode (g.json_dump_to_string claimed)

is_empty-append : (s : Str) (c : ℕ) → is_empty (s ++ c ∷ []) ≡ false
unfolding is_empty
is_empty-append [] c = refl
is_empty-append (d ∷ s) c = refl

is_empty-digits : (fuel n : ℕ) → is_empty (digits fuel n) ≡ false
unfolding digits is_empty
is_empty-digits zero n = refl
is_empty-digits (suc fuel) n = elim (Bool-cases (ltb n 10)) [
  | inl t ↦ rw t refl
  | inr f ↦ rw f (is_empty-append (digits fuel (n / 10)) (48 + n % 10))
]

is_empty-decimal : (n : ℕ) → is_empty (decimal n) ≡ false
unfolding decimal
is_empty-decimal n = is_empty-digits 19 n

header_children :
    fill_children
      (text_child (codes "alg") (codes "HS256") ∷ text_child (codes "typ") (codes "JWT") ∷ [])
    ≡ jose_header
unfolding fill_children linked_behind is_empty
header_children = refl

fill_children-claims :
    (issuer subject audience : Str) (now : ℕ)
    → is_empty issuer ≡ false
    → is_empty subject ≡ false
    → is_empty audience ≡ false
    → fill_children (claims issuer subject audience now) ≡ hour_claims issuer subject audience now
unfolding fill_children linked_behind
fill_children-claims issuer subject audience now i s a =
    rw (i, s, a, is_empty-decimal now, is_empty-decimal (now + 3600)) refl

-- The signature of a text by a client secret.
abbrev pub signature_of : Grpc → Str → Str → Str
signature_of g secret text = g.hmac (g.base64_decode secret) text

-- For a key with an issuer, a subject and a client secret that decodes, none of them empty, the token
-- for an audience is the header, the claims and the HMAC of both in Base64, joined by dots, if the
-- HMAC does not fail. The claims are the issuer as iss, the subject as sub, the audience as aud, the
-- time as iat, and as exp the time 3600 seconds later.
pub get_auth_token-signed_text :
    (g : Grpc) (json_secret audience : Str) (now : ℕ) (issuer subject secret : Str)
    → get_string_value (g.json_parse_string json_secret) (codes "client_secret") ≡ some secret
    → get_string_value (g.json_parse_string json_secret) (codes "issuer") ≡ some issuer
    → get_string_value (g.json_parse_string json_secret) (codes "subject") ≡ some subject
    → is_empty issuer ≡ false
    → is_empty subject ≡ false
    → is_empty audience ≡ false
    → is_empty (g.base64_decode secret) ≡ false
    → is_empty (signature_of g secret (signed_text g (hour_claims issuer subject audience now)))
      ≡ false
    → get_auth_token g json_secret audience now
      ≡ some (
          signed_text g (hour_claims issuer subject audience now)
          ++ b'.'
            ∷ g.base64_encode
                (signature_of g secret (signed_text g (hour_claims issuer subject audience now))))
unfolding get_auth_token generate_token_symmetric_key generate_signature_hs256 dot_concat
    generate_jose_header generate_jwt_claim
get_auth_token-signed_text g json_secret audience now issuer subject secret by_secret by_issuer
      by_subject issued about asked decoded signed =
    rw
      (
        by_secret,
        by_issuer,
        by_subject,
        generate_token_symmetric_key,
        generate_signature_hs256,
        generate_jose_header,
        generate_jwt_claim,
        fill_children-claims issuer subject audience now issued about asked,
        header_children,
        decoded,
        signed,
      )
      refl

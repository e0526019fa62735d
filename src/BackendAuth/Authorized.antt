-- ===== src/BackendAuth/Authorized.antt =====
-- Which token src/envoy/http/backend_auth/filter.cc gives a request.
use esp_v.Base.{
  str_eq_refl, Str, codes, is_empty, str_eq, if◌then◌else◌, true, false, Option, none, some, List,
  [], ◌∷◌, ◌++◌, Bool-cases, lookup, inl, inr, ◌≡◌, refl, Option-cases, ◌∙◌,
}
use esp_v.BackendAuth.{
  Rule, Config, IdTokenInfo, iam_token, imds_token, id_token_not_set, new_context, add_rules,
  empty_parser, imds_subscription, parser_by, new_parser, TokenEvent, audience_or_empty,
  get_audience, HeaderMap, Answer, goes_on, refused, Stats, authorization, authorize, with_token,
  decode_headers, Subscription,
}
use esp_v.BackendAuth.Rules.{
  audience_of, audience_of-names, add_rules-operation_map, add_rules-audience_map,
}
use esp_v.BackendAuth.Delivered.{
  deliver, last_token, is_thread, deliver-last_token, deliver-operation_map,
}

-- The rules that the constructor reads: none, if the access token is not a remote one.
unfoldable pub kept_rules : Config → IdTokenInfo → List Rule
kept_rules config (iam_token server (some access) delegates) = config.rules
kept_rules config (iam_token server none delegates) = []
kept_rules config (imds_token server) = config.rules
kept_rules config id_token_not_set = config.rules

abbrev pub rules_of : Config → List Rule
rules_of config = kept_rules config config.id_token_info

-- The subscriber of the access token.
unfoldable pub access_sub : IdTokenInfo → Option Subscription
access_sub (iam_token server (some access) delegates) =
    some (imds_subscription access.cluster access.uri [])
access_sub (iam_token server none delegates) = none
access_sub (imds_token server) = none
access_sub id_token_not_set = none

module _ (config : Config) (threads : List Str) where
  parser_by_lem :
      (info : IdTokenInfo)
      → parser_by config threads info
        ≡ add_rules config.id_token_info threads
            (kept_rules config info)
            (empty_parser (access_sub info))
  unfolding parser_by kept_rules access_sub add_rules
  parser_by_lem (iam_token server (some access) delegates) = refl
  parser_by_lem (iam_token server none delegates) = refl
  parser_by_lem (imds_token server) = refl
  parser_by_lem id_token_not_set = refl

  new_parser-audience_of :
      (operation : Str)
      → lookup operation (new_parser config threads).operation_map
        ≡ audience_of (rules_of config) operation
  unfolding lookup
  new_parser-audience_of operation = rw parser_by_lem (
      add_rules-operation_map config.id_token_info threads (rules_of config) (empty_parser _)
        operation
      ∙ elim (Option-cases (audience_of (rules_of config) operation)) [
        | inl e ↦ rw e refl
        | inr (audience, e) ↦ rw e refl
      ])

  new_parser-new_context :
      (operation audience : Str)
      → audience_of (rules_of config) operation ≡ some audience
      → lookup audience (new_parser config threads).audience_map
        ≡ some (new_context config.id_token_info threads audience)
  unfolding lookup
  new_parser-new_context operation audience e =
      rw
        (
          parser_by_lem,
          add_rules-audience_map config.id_token_info threads (rules_of config),
          audience_of-names (rules_of config) operation audience e,
        )
        refl

  get_audience-deliver :
      (events : List TokenEvent) (operation : Str)
      → get_audience (deliver events (new_parser config threads)) operation
        ≡ audience_or_empty (audience_of (rules_of config) operation)
  unfolding get_audience
  get_audience-deliver events operation = rw (deliver-operation_map, new_parser-audience_of) refl

module _ {H : Type 0} (headers : HeaderMap H) where
  -- Headers whose only authorization is a token, and that are the headers before in all else.
  abbrev pub IsAuthorized : Str → H → H → Type 0
  IsAuthorized token before after =
      (name : Str)
      → headers.values name after ≡ (
          if str_eq name authorization
          then (codes "Bearer " ++ token) ∷ []
          else headers.values name before)

  -- The answer to a request by the token for its audience.
  abbrev pub IsAnswer : Option Str → H → Answer H → Type 0
  IsAnswer none before answer = answer ≡ refused 500 (codes "missing tokens")
  IsAnswer (some token) before answer =
      (after : H) × (answer ≡ goes_on after) × IsAuthorized token before after

  authorize-IsAuthorized :
      (token : Str) (before : H) → IsAuthorized token before (authorize headers token before)
  unfolding authorize
  authorize-IsAuthorized token before name =
      let value = codes "Bearer " ++ token in
      let bare = headers.remove authorization before in
      let absent : headers.values authorization bare ≡ [] =
        headers.values-remove authorization authorization before
        ∙ rw (str_eq_refl authorization) refl in
      headers.values-add_copy authorization name value bare absent
      ∙ elim (Bool-cases (str_eq name authorization)) [
        | inl t ↦ rw t refl
        | inr f ↦ rw f (headers.values-remove authorization name before ∙ rw f refl)
      ]

  with_token-IsAnswer :
      (token : Option Str) (before : H) (stats : Stats)
      → IsAnswer token before (with_token headers token before stats).0
  unfolding with_token
  with_token-IsAnswer none before stats = refl
  with_token-IsAnswer (some token) before stats =
      (authorize headers token before, refl, authorize-IsAuthorized token before)

-- On every thread, and whatever has been delivered, a request for an operation whose last rule names
-- an audience, among the rules that the constructor has kept, goes on with the last token delivered
-- for that audience as its only authorization and all its other headers, or gets the reply 500 if
-- none has been delivered. The constructor keeps all rules, or none for an access token of the IAM
-- server that is not a remote one.
pub decode_headers-IsAnswer :
    {H : Type 0} (headers : HeaderMap H) (config : Config) (threads : List Str) (thread : Str)
    (events : List TokenEvent) (operation audience : Str) (before : H) (stats : Stats)
    → is_thread threads thread ≡ true
    → is_empty operation ≡ false
    → audience_of (rules_of config) operation ≡ some audience
    → is_empty audience ≡ false
    → IsAnswer headers
        (last_token audience events none)
        before
        (decode_headers headers
          (deliver events (new_parser config threads))
          thread
          operation
          before
          stats).0
unfolding decode_headers
decode_headers-IsAnswer headers config threads thread events operation audience before stats running
      named ruled asked =
    let token =
      deliver-last_token config.id_token_info threads audience thread events
        (new_parser config threads) running
        (new_parser-new_context config threads operation audience ruled) in
    rw (get_audience-deliver, named, ruled, asked, token)
      (with_token-IsAnswer headers (last_token audience events none) before stats)

-- A request for an operation without a rule, or whose last rule names no audience, is left as it is,
-- its authorization included; so is every request if the constructor kept no rules.
pub decode_headers-keeps :
    {H : Type 0} (headers : HeaderMap H) (config : Config) (threads : List Str) (thread : Str)
    (events : List TokenEvent) (operation : Str) (before : H) (stats : Stats)
    → is_empty (audience_or_empty (audience_of (rules_of config) operation)) ≡ true
    → decode_headers headers
        (deliver events (new_parser config threads))
        thread
        operation
        before
        stats
      ≡ (goes_on before, stats)
unfolding decode_headers
decode_headers-keeps headers config threads thread events operation before stats none_asked =
    elim (Bool-cases (is_empty operation)) [
      | inl t ↦ rw t refl
      | inr f ↦ rw (f, get_audience-deliver, none_asked) refl
    ]

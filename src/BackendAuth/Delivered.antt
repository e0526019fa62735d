-- ===== src/BackendAuth/Delivered.antt =====
-- The tokens of src/envoy/http/backend_auth/config_parser_impl.cc after deliveries.
use esp_v.Base.{
  Str, str_eq, str_eq_iff, if◌then◌else◌, Bool, true, false, ◌||◌, Option, none, some, List, [],
  ◌∷◌, map, lookup, inl, inr, ◌≡◌, refl, arith, Bool-cases, ◌∙◌,
}
use esp_v.BackendAuth.{
  AudienceContext, IdTokenInfo, new_context, Parser, TokenEvent, access_token_delivered,
  id_token_delivered, set_token, deliver_to, on_token, new_tokens, get_jwt_token,
}

unfoldable pub deliver : List TokenEvent → Parser → Parser
deliver [] p = p
deliver (event ∷ events) p = deliver events (on_token event p)

-- The last token that is delivered for an audience.
unfoldable pub last_token : Str → List TokenEvent → Option Str → Option Str
last_token audience [] token = token
last_token audience (access_token_delivered other ∷ events) token = last_token audience events token
last_token audience (id_token_delivered named new ∷ events) token =
    last_token audience events (if str_eq named audience then some new else token)

-- Whether a thread is one of those on which the tokens are held.
unfoldable pub is_thread : List Str → Str → Bool
is_thread [] asked = false
is_thread (thread ∷ threads) asked = str_eq thread asked || is_thread threads asked

lookup-new_tokens :
    (threads : List Str) (thread : Str)
    → is_thread threads thread ≡ true
    → lookup thread (new_tokens threads) ≡ some none
unfolding lookup is_thread
lookup-new_tokens [] thread e = cc
lookup-new_tokens (first ∷ threads) thread e = ground (arith, e, lookup-new_tokens threads thread)

-- A context that holds a token on a thread.
abbrev pub Holds : Str → Option Str → AudienceContext → Type 0
Holds thread token context = lookup thread context.tokens ≡ some token

set_token-Holds :
    (thread new : Str) (tokens : List (Str × Option Str)) {token : Option Str}
    → lookup thread tokens ≡ some token
    → lookup thread (map (λ held. (held.0, some new)) tokens) ≡ some (some new)
unfolding lookup
set_token-Holds thread new [] e = cc
set_token-Holds thread new ((first, held) ∷ tokens) {token} e =
    ground (arith, e, set_token-Holds thread new tokens {token = token})

lookup-deliver_to :
    (audience named token : Str) (contexts : List (Str × AudienceContext))
    {context : AudienceContext}
    → lookup audience contexts ≡ some context
    → lookup audience (deliver_to named token contexts)
      ≡ (if str_eq named audience then some (set_token token context) else some context)
unfolding lookup deliver_to
lookup-deliver_to audience named token [] e = cc
lookup-deliver_to audience named token ((first, held) ∷ contexts) {context} e = ground (
  arith,
  e,
  str_eq_iff first named,
  str_eq_iff first audience,
  str_eq_iff named audience,
  lookup-deliver_to audience named token contexts {context = context},
)

deliver-Holds :
    (audience thread : Str) (events : List TokenEvent) (p : Parser) (token : Option Str)
    {context : AudienceContext}
    → lookup audience p.audience_map ≡ some context
    → Holds thread token context
    → get_jwt_token thread (deliver events p) audience ≡ last_token audience events token
unfolding deliver last_token on_token get_jwt_token set_token
deliver-Holds audience thread [] p token e held = rw (e, held) refl
deliver-Holds audience thread (access_token_delivered other ∷ events) p token e held =
    deliver-Holds audience thread events (on_token (access_token_delivered other) p) token e held
deliver-Holds audience thread (id_token_delivered named new ∷ events) p token {context} e held =
    let q = on_token (id_token_delivered named new) p in
    let there = lookup-deliver_to audience named new p.audience_map e in
    elim (Bool-cases (str_eq named audience)) [
      | inl same ↦ rw same (
          deliver-Holds audience thread events q (some new) {context = set_token new context}
            (there ∙ rw same refl) (set_token-Holds thread new context.tokens held))
      | inr other ↦ rw other (
          deliver-Holds audience thread events q token {context = context} (there ∙ rw other refl)
            held)
    ]

-- On every thread, a context that is there gives the last token that was delivered for its audience.
pub deliver-last_token :
    (info : IdTokenInfo) (threads : List Str) (audience thread : Str) (events : List TokenEvent)
    (p : Parser)
    → is_thread threads thread ≡ true
    → lookup audience p.audience_map ≡ some (new_context info threads audience)
    → get_jwt_token thread (deliver events p) audience ≡ last_token audience events none
unfolding new_context
deliver-last_token info threads audience thread events p running e =
    deliver-Holds audience thread events p none e (lookup-new_tokens threads thread running)

pub deliver-operation_map :
    (events : List TokenEvent) (p : Parser) → (deliver events p).operation_map ≡ p.operation_map
unfolding deliver on_token
deliver-operation_map [] p = refl
deliver-operation_map (access_token_delivered token ∷ events) p =
    deliver-operation_map events (on_token (access_token_delivered token) p)
deliver-operation_map (id_token_delivered named token ∷ events) p =
    deliver-operation_map events (on_token (id_token_delivered named token) p)

-- ===== src/ServiceControl/Call/Tokens.antt =====
-- The tokens of src/envoy/http/service_control/service_control_call_impl.cc.
use esp_v.Base.{
  Str, if◌then◌else◌, true, Option, none, some, List, [], ◌∷◌, map, All, All-map, Bool-cases,
  Option-cases, inl, inr, ◌≡◌, refl, ap, arith,
}
use esp_v.ServiceControl.RequestBuilder.Builder.{RequestBuilder}
use esp_v.ServiceControl.Call.{
  AccessToken, ThreadLocalCache, sc_token, quota_token, set_sc_token, set_quota_token, CallState,
  TokenEvent, imds_delivers, sc_generator_delivers, quota_generator_delivers, iam_access_delivers,
  iam_delivers, run_on_all_threads, on_token, is_subscribed, caches, token_or_empty, new_call,
  ServiceConfig, request_builder_for, has_token_source,
}

-- The state after the deliveries of the subscribers that are there.
unfoldable pub deliver : AccessToken → List TokenEvent → CallState → CallState
deliver access [] s = s
deliver access (event ∷ events) s =
    deliver access events (if is_subscribed access event then on_token event s else s)

-- The last tokens that have been delivered, for the service control and for the quota calls.
abbrev pub Tokens : Type 0
Tokens = Option Str × Option Str

unfoldable pub tokens_after : TokenEvent → Tokens → Tokens
tokens_after (imds_delivers token) tokens = (some token, some token)
tokens_after (sc_generator_delivers token) tokens = (some token, tokens.1)
tokens_after (quota_generator_delivers token) tokens = (tokens.0, some token)
tokens_after (iam_access_delivers token) tokens = tokens
tokens_after (iam_delivers token) tokens = (some token, some token)

unfoldable pub last_tokens : List TokenEvent → Tokens → Tokens
last_tokens [] tokens = tokens
last_tokens (event ∷ events) tokens = last_tokens events (tokens_after event tokens)

-- The events that can happen.
abbrev pub AllSubscribed : AccessToken → List TokenEvent → Type 0
AllSubscribed access events = All (λ event. is_subscribed access event ≡ true) events

-- A thread that has given tokens.
abbrev pub Holds : Tokens → ThreadLocalCache → Type 0
Holds tokens cache = (cache.sc_token_ptr ≡ tokens.0) × (cache.quota_token_ptr ≡ tokens.1)

map-Holds :
    (before after : Tokens) (update : ThreadLocalCache → ThreadLocalCache)
    (threads : List ThreadLocalCache)
    → ((cache : ThreadLocalCache) → Holds before cache → Holds after (update cache))
    → All (Holds before) threads
    → All (Holds after) (map update threads)
map-Holds before after update [] step all = tt
map-Holds before after update (cache ∷ threads) step all =
    (step cache all.0, map-Holds before after update threads step all.1)

on_token-Holds :
    (event : TokenEvent) (tokens : Tokens) (s : CallState)
    → All (Holds tokens) s.threads
    → All (Holds (tokens_after event tokens)) (on_token event s).threads
unfolding tokens_after on_token run_on_all_threads set_sc_token set_quota_token
on_token-Holds (imds_delivers token) tokens s all =
    map-Holds tokens (some token, some token) _ s.threads (λ cache held. (refl, refl)) all
on_token-Holds (sc_generator_delivers token) tokens s all =
    map-Holds tokens (some token, tokens.1) _ s.threads (λ cache held. (refl, held.1)) all
on_token-Holds (quota_generator_delivers token) tokens s all =
    map-Holds tokens (tokens.0, some token) _ s.threads (λ cache held. (held.0, refl)) all
on_token-Holds (iam_access_delivers token) tokens s all = all
on_token-Holds (iam_delivers token) tokens s all =
    map-Holds tokens (some token, some token) _ s.threads (λ cache held. (refl, refl)) all

deliver-Holds :
    (access : AccessToken) (events : List TokenEvent) (tokens : Tokens) (s : CallState)
    → AllSubscribed access events
    → All (Holds tokens) s.threads
    → All (Holds (last_tokens events tokens)) (deliver access events s).threads
unfolding deliver last_tokens
deliver-Holds access [] tokens s subscribed all = all
deliver-Holds access (event ∷ events) tokens s subscribed all =
    rw (deliver, subscribed.0)
      (deliver-Holds access events (tokens_after event tokens) (on_token event s) subscribed.1
        (on_token-Holds event tokens s all))

caches-Holds : (threads : List Str) → All (Holds (none, none)) (caches threads)
caches-Holds [] = tt
caches-Holds (thread ∷ threads) = ((refl, refl), caches-Holds threads)

new_call-threads :
    (access : AccessToken) (config : ServiceConfig) (name id : Str) (threads : List Str)
    {s : CallState} {b : RequestBuilder}
    → new_call access config name id threads ≡ some (s, b)
    → s.threads ≡ caches threads
unfolding new_call
new_call-threads access config name id threads made =
    elim (Option-cases (request_builder_for config name id)) [
      | inl bad ↦ ground (arith, made, bad)
      | inr (b', built) ↦ elim (Bool-cases (has_token_source access)) [
        | inl t ↦ ground (arith, made, built, t)
        | inr f ↦ ground (arith, made, built, f)
      ]
    ]

-- What the calls of a thread send.
abbrev pub Sends : Tokens → ThreadLocalCache → Type 0
Sends tokens cache =
    (sc_token cache ≡ token_or_empty tokens.0) × (quota_token cache ≡ token_or_empty tokens.1)

-- Whatever the subscribers of the configured access token have delivered, and in which order, the
-- calls of every thread send the last tokens delivered for them, each empty until its first
-- delivery.
pub deliver-Sends :
    (access : AccessToken) (config : ServiceConfig) (name id : Str) (threads : List Str)
    (events : List TokenEvent) {s : CallState} {b : RequestBuilder}
    → new_call access config name id threads ≡ some (s, b)
    → AllSubscribed access events
    → All (Sends (last_tokens events (none, none))) (deliver access events s).threads
unfolding sc_token quota_token
deliver-Sends access config name id threads events {s} made subscribed =
    let start = new_call-threads access config name id threads made in
    All-map (λ cache held. (ap token_or_empty held.0, ap token_or_empty held.1))
      (deliver access events s).threads
      (deliver-Holds access events (none, none) s subscribed (rw start (caches-Holds threads)))

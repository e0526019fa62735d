-- ===== src/BackendRouting/Paths.antt =====
-- The paths that src/envoy/http/backend_routing/filter.cc makes, seen as a path and a query.
use mathlib.Core.List.{append-nil, append_assoc}
use esp_v.Base.{
  ◌∙◌, ◌⊎◌, Str, is_empty, ◌==◌, if◌then◌else◌, All, Option, none, some, [], ◌∷◌, ◌++◌, ◌≡◌, ◌≢◌,
  arith, Bool-cases, inl, inr, refl,
}
use esp_v.PathMatcher.RequestPath.Split.{before_first}
use esp_v.BackendRouting.{Rule, from_first, with_query, new_path}

-- The text behind the first `?`.
unfoldable pub query_of : Str → Option Str
query_of [] = none
query_of (d ∷ s) = let rest = query_of s in if d == b'?' then some s else rest

-- The query with the parameters that were bound in the path.
unfoldable pub merge : Option Str → Str → Option Str
merge none params = if is_empty params then none else some params
merge (some query) params = some (if is_empty params then query else query ++ b'&' ∷ params)

query_of-prefix :
    (prefix s : Str) → All (λ c. c ≢ b'?') prefix → query_of (prefix ++ s) ≡ query_of s
unfolding query_of
query_of-prefix [] s h = refl
query_of-prefix (c ∷ prefix) s (h, hs) =
    let ih = query_of-prefix prefix s hs in ground (arith, h, ih)

before_first-prefix :
    (prefix s : Str)
    → All (λ c. c ≢ b'?') prefix
    → before_first b'?' (prefix ++ s) ≡ prefix ++ before_first b'?' s
unfolding before_first
before_first-prefix [] s h = refl
before_first-prefix (c ∷ prefix) s (h, hs) =
    let ih = before_first-prefix prefix s hs in ground (arith, h, ih)

-- What `path.find('?')` finds, and the query.
from_first-cases :
    (s : Str)
    → ((from_first b'?' s ≡ none) × (query_of s ≡ none))
      ⊎ ((q : Str) × (from_first b'?' s ≡ some (b'?' ∷ q)) × (query_of s ≡ some q))
unfolding from_first query_of
from_first-cases [] = inl (refl, refl)
from_first-cases (c ∷ s) = elim (Bool-cases (c == b'?')) [
  | inl e ↦ inr (s, ground (arith, e), ground (arith, e))
  | inr e ↦ elim (from_first-cases s) [
    | inl (f, q) ↦ inl (rw (e, f) refl, rw (e, q) refl)
    | inr (q, f, g) ↦ inr (q, rw (e, f) refl, rw (e, g) refl)
  ]
]

behind_prefix :
    (prefix q : Str)
    → All (λ c. c ≢ b'?') prefix
    → (before_first b'?' (prefix ++ b'?' ∷ q) ≡ prefix) × (query_of (prefix ++ b'?' ∷ q) ≡ some q)
unfolding before_first query_of
behind_prefix prefix q h = (
  before_first-prefix prefix (b'?' ∷ q) h ∙ append-nil prefix,
  query_of-prefix prefix (b'?' ∷ q) h,
)

no_query :
    (prefix : Str)
    → All (λ c. c ≢ b'?') prefix
    → (before_first b'?' prefix ≡ prefix) × (query_of prefix ≡ none)
unfolding before_first query_of
no_query [] h = (refl, refl)
no_query (c ∷ prefix) (h, hs) =
    let ih = no_query prefix hs in (ground (arith, h, ih), ground (arith, h, ih))

with_query_lem :
    (prefix params original : Str)
    → All (λ c. c ≢ b'?') prefix
    → (before_first b'?' (with_query prefix params (from_first b'?' original)) ≡ prefix)
      × (query_of (with_query prefix params (from_first b'?' original))
          ≡ merge (query_of original) params)
unfolding with_query merge
with_query_lem prefix params original h = elim (from_first-cases original) [
  | inl (f, q) ↦ elim (Bool-cases (is_empty params)) [
    | inl e ↦ rw (f, q, e) (no_query prefix h)
    | inr e ↦ rw (f, q, e) (behind_prefix prefix params h)
  ]
  | inr (q, f, g) ↦ elim (Bool-cases (is_empty params)) [
    | inl e ↦ rw (f, g, e) (behind_prefix prefix q h)
    | inr e ↦
        rw (f, g, e)
          (rw (append_assoc prefix (b'?' ∷ q) (b'&' ∷ params))
            (behind_prefix prefix (q ++ b'&' ∷ params) h))
  ]
]

-- With a prefix that has no `?`, the path of a backend is the prefix, followed by the path of the
-- request if the address is not constant; its query is that of the request, with the parameters
-- bound in the path joined to it if the address is constant.
pub new_path_lem :
    (rule : Rule) (params original : Str)
    → All (λ c. c ≢ b'?') rule.path_prefix
    → (before_first b'?' (new_path rule params original) ≡ (
        if rule.is_const_address
        then rule.path_prefix
        else rule.path_prefix ++ before_first b'?' original))
      × (query_of (new_path rule params original)
          ≡ (if rule.is_const_address then merge (query_of original) params else query_of original))
unfolding new_path
new_path_lem rule params original h = elim (Bool-cases rule.is_const_address) [
  | inl e ↦ rw e (with_query_lem rule.path_prefix params original h)
  | inr e ↦
      rw e (
        before_first-prefix rule.path_prefix original h,
        query_of-prefix rule.path_prefix original h,
      )
]

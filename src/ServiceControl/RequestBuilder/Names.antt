-- ===== src/ServiceControl/RequestBuilder/Names.antt =====
-- The names in the table of the metrics of src/api_proxy/service_control/request_builder.cc.
use esp_v.Base.{
  Str, codes, Bool, true, false, not, ◌&&◌, is_some, Bool-cases, and_true, List, [], ◌∷◌, All,
  every, every-All, ◌≡◌, inl, inr, refl,
}
use esp_v.PathMatcher.RequestPath.Split.{contains}
use esp_v.ServiceControl.HandlerUtils.{starts_with}
use esp_v.ServiceControl.RequestBuilder.Metrics.{SupportedMetric}
use esp_v.ServiceControl.RequestBuilder.Table.{supported_metrics}
use esp_v.ServiceControl.RequestBuilder.Builder.{
  RequestBuilder, filter_pointers, new_request_builder, new_request_builder_with, is_consumer_mark,
  is_by_consumer,
}

-- How the names of the consumer's metrics begin, and of those of a producer by its consumers.
abbrev pub consumer_prefix : Str
consumer_prefix = codes "serviceruntime.googleapis.com/api/consumer/"

abbrev pub by_consumer_prefix : Str
by_consumer_prefix = codes "serviceruntime.googleapis.com/api/producer/by_consumer/"

abbrev pub same : Bool → Bool → Bool
same true b = b
same false b = not b

pub same-eq : (a b : Bool) → same a b ≡ true → b ≡ a
same-eq true b e = e
same-eq false true e = cc
same-eq false false e = refl

-- A metric's mark is what its name says.
unfoldable pub is_marked_by_name : SupportedMetric → Bool
is_marked_by_name m =
    same (is_consumer_mark m.mark) (starts_with m.name consumer_prefix)
    && same (is_by_consumer m.mark) (starts_with m.name by_consumer_prefix)

supported_metrics-is_marked_by_name : every is_marked_by_name supported_metrics ≡ true
unfolding every is_marked_by_name starts_with
supported_metrics-is_marked_by_name = refl

pub filter_pointers-All {ℓ κ} :
    {E : Type ℓ} (P : E → Type κ) (pred : E → Bool) (es : List E)
    → All P es
    → All P (filter_pointers pred es)
unfolding filter_pointers
filter_pointers-All P pred [] all = tt
filter_pointers-All P pred (e ∷ es) all = elim (Bool-cases (pred e)) [
  | inl t ↦ rw t (all.0, filter_pointers-All P pred es all.1)
  | inr f ↦ rw f (filter_pointers-All P pred es all.1)
]

-- The builders that the constructors make.
pub data IsBuilder : RequestBuilder → Type 0 where
  all_metrics : (logs : List Str) (name id : Str) → IsBuilder (new_request_builder logs name id)
  given_metrics :
      (logs metrics labels : List Str) (name id : Str)
      → IsBuilder (new_request_builder_with logs metrics labels name id)

pub IsBuilder-marked :
    (b : RequestBuilder) → IsBuilder b → All (λ m. is_marked_by_name m ≡ true) b.metrics
unfolding new_request_builder new_request_builder_with
IsBuilder-marked _ (all_metrics logs name id) =
    filter_pointers-All (λ m. is_marked_by_name m ≡ true) (λ m. is_some m.set) supported_metrics
      (every-All is_marked_by_name supported_metrics supported_metrics-is_marked_by_name)
IsBuilder-marked _ (given_metrics logs metrics labels name id) =
    filter_pointers-All (λ m. is_marked_by_name m ≡ true)
      (λ m. is_some m.set && contains metrics m.name) supported_metrics
      (every-All is_marked_by_name supported_metrics supported_metrics-is_marked_by_name)

pub is_marked_by_name-prefixes :
    (m : SupportedMetric)
    → is_marked_by_name m ≡ true
    → (starts_with m.name consumer_prefix ≡ is_consumer_mark m.mark)
      × (starts_with m.name by_consumer_prefix ≡ is_by_consumer m.mark)
unfolding is_marked_by_name
is_marked_by_name-prefixes m e =
    let both = and_true _ _ e in (same-eq _ _ both.0, same-eq _ _ both.1)

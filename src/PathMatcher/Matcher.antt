-- ===== src/PathMatcher/Matcher.antt =====
-- src/api_proxy/path_matcher/path_matcher.h: `PathMatcherBuilder` and `PathMatcher`, with
-- `LookupInPathMatcherNode` and `TransformHttpTemplate` of path_matcher.cc.
-- A `Method` is a pointer, and the null pointer is `none`; a `MethodData*` is what it points to.
pub mod Registered
pub mod Lookup
pub mod Tests
use esp_v.Base.{
  Str, is_empty, if◌then◌else◌, Bool, true, false, Option, none, some, List, [], ◌∷◌, ◌++◌,
}
use esp_v.PathMatcher.Node.{
  PathMatcherNode, PathMatcherLookupResult, new_node, empty_result, insert_template, lookup_path,
}
use esp_v.PathMatcher.TemplateParser.{Variable, HttpTemplate, ok, fail, out_of_fuel}
use esp_v.PathMatcher.HttpTemplate.{parse}
use esp_v.PathMatcher.RequestPath.Split.{StrSplit, contains, extract_request_parts}
use esp_v.PathMatcher.RequestPath.Bindings.{VariableBinding, extract_bindings_from_path}

pub record MethodData {ℓ} (M : Type ℓ) : Type ℓ where
  pub method : M
  pub variables : List Variable
  pub body_field_path : Str

pub record PathMatcherBuilder {ℓ} (M : Type ℓ) : Type ℓ where
  pub root : PathMatcherNode (MethodData M)
  pub custom_verbs : List Str
  pub methods : List (MethodData M)

-- The root of a matcher may be null in the source.
pub record PathMatcher {ℓ} (M : Type ℓ) : Type ℓ where
  pub root : Option (PathMatcherNode (MethodData M))
  pub custom_verbs : List Str
  pub methods : List (MethodData M)

-- `TransformHttpTemplate`: the path that is inserted.
unfoldable pub transform_http_template : HttpTemplate → List Str
transform_http_template ht = if is_empty ht.verb then ht.segments else ht.segments ++ ht.verb ∷ []

-- `custom_verbs_.insert(verb)`
unfoldable pub insert_verb : Str → List Str → List Str
insert_verb verb verbs = if contains verbs verb then verbs else verb ∷ verbs

-- `LookupInPathMatcherNode`
unfoldable pub lookup_in_path_matcher_node {ℓ} :
    {D : Type ℓ} → PathMatcherNode D → List Str → Str → PathMatcherLookupResult D
lookup_in_path_matcher_node root parts http_method = lookup_path http_method parts root empty_result

module _ {ℓ} {M : Type ℓ} where
  abbrev pub new_builder : PathMatcherBuilder M
  new_builder = record { root = new_node; custom_verbs = []; methods = [] }

  abbrev pub method_data_of : HttpTemplate → Str → M → MethodData M
  method_data_of ht body method = record {
    method = method;
    variables = ht.variables;
    body_field_path = body;
  }

  -- The rest of `Register`, after its template is parsed.
  unfoldable pub register_template :
      PathMatcherBuilder M → Str → HttpTemplate → Str → M → PathMatcherBuilder M × Bool
  register_template b http_method ht body_field_path method =
      let d = method_data_of ht body_field_path method in
      let done = insert_template http_method (some d) true (transform_http_template ht) b.root in
      if done.1
      then (
        record {
          root = done.0;
          custom_verbs =
              if is_empty ht.verb then b.custom_verbs else insert_verb ht.verb b.custom_verbs;
          methods = b.methods ++ d ∷ [];
        },
        true,
      )
      else (record b { root = done.0 }, false)

  -- `Register`
  unfoldable pub register : PathMatcherBuilder M → Str → Str → Str → M → PathMatcherBuilder M × Bool
  register b http_method http_template body_field_path method = elim (parse http_template) [
    | ok ht ↦ register_template b http_method ht body_field_path method
    | fail ↦ (b, false)
    | out_of_fuel ↦ (b, false)
  ]

  -- `Build`
  unfoldable pub build : PathMatcherBuilder M → PathMatcher M
  build b = record { root = some b.root; custom_verbs = b.custom_verbs; methods = b.methods }

  abbrev pub method_of : Option (MethodData M) → Option M
  method_of none = none
  method_of (some d) = some d.method

  -- The `MethodData` that both forms of `Lookup` look for.
  unfoldable pub lookup_method_data : PathMatcher M → Str → List Str → Option (MethodData M)
  lookup_method_data m http_method parts = elim (m.root) [
    | none ↦ none
    | some root ↦ (lookup_in_path_matcher_node root parts http_method).value
  ]

  -- The answer of `Lookup` from the method that was found; `bindings` is the caller's vector.
  abbrev pub answer_with_bindings :
      Option (MethodData M)
      → List Str
      → List VariableBinding
      → Option (Option M × List VariableBinding)
  answer_with_bindings none parts bindings = some (none, bindings)
  answer_with_bindings (some d) parts bindings =
      elim (extract_bindings_from_path d.variables parts true) [
        | none ↦ none
        | some bs ↦ some (some d.method, bs)
      ]

  module _ (absl : StrSplit) where
    -- `Lookup` without bindings
    unfoldable pub lookup : PathMatcher M → Str → Str → Option M
    lookup m http_method path =
        method_of
          (lookup_method_data m http_method (extract_request_parts absl m.custom_verbs path))

    -- `Lookup` with bindings: the method and the vector. A read out of range is `none`.
    unfoldable pub lookup_with_bindings :
        PathMatcher M → Str → Str → List VariableBinding → Option (Option M × List VariableBinding)
    lookup_with_bindings m http_method path bindings =
        let parts = extract_request_parts absl m.custom_verbs path in
        answer_with_bindings (lookup_method_data m http_method parts) parts bindings

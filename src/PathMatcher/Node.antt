-- ===== src/PathMatcher/Node.antt =====
-- src/api_proxy/path_matcher/path_matcher_node.{h,cc}: the trie of path segments.
-- `D` is what a `void*` of a lookup result points to; a null pointer is `none`.
pub mod Insert
pub mod Matching
pub mod Lookup
pub mod Complete
mod Tests
use esp_v.Base.{
  Str, codes, str_eq, is_some, if◌then◌else◌, lookup, insert, Bool, true, false, Option, none, some,
  List, [], ◌∷◌,
}

abbrev pub single_parameter_key : Str
single_parameter_key = codes "/."

abbrev pub wildcard_path_part_key : Str
wildcard_path_part_key = codes "*"

abbrev pub wildcard_path_key : Str
wildcard_path_key = codes "**"

-- `HttpMethod_WILD_CARD`
abbrev pub http_method_wildcard : Str
http_method_wildcard = codes "*"

-- The keys that `LookupPath` tries after the literal child, in this order.
abbrev pub parameter_keys : List Str
parameter_keys = single_parameter_key ∷ wildcard_path_part_key ∷ wildcard_path_key ∷ []

pub record PathMatcherLookupResult {ℓ} (D : Type ℓ) : Type ℓ where
  pub value : Option D
  pub is_multiple : Bool

abbrev pub ResultMap {ℓ} : Type ℓ → Type ℓ
ResultMap D = List (Str × PathMatcherLookupResult D)

mutual
  -- `result_map_`, `children_` and `wildcard_`
  pub data PathMatcherNode {ℓ} (D : Type ℓ) : Type ℓ where
    node : ResultMap D → Children D → Bool → PathMatcherNode D

  pub data Children {ℓ} (D : Type ℓ) : Type ℓ where
    nil : Children D
    cons : Str → PathMatcherNode D → Children D → Children D

module _ {ℓ} {D : Type ℓ} where
  abbrev pub empty_result : PathMatcherLookupResult D
  empty_result = record { value = none; is_multiple = false }

  abbrev pub new_node : PathMatcherNode D
  new_node = node [] nil false

  unfoldable pub find_child : Str → Children D → Option (PathMatcherNode D)
  find_child k nil = none
  find_child k (cons j c cs) = if str_eq j k then some c else find_child k cs

  unfoldable pub put_child : Str → PathMatcherNode D → Children D → Children D
  put_child k n nil = cons k n nil
  put_child k n (cons j c cs) = if str_eq j k then cons k n cs else cons j c (put_child k n cs)

  abbrev pub set_wildcard : Bool → PathMatcherNode D → PathMatcherNode D
  set_wildcard w (node rs cs _) = node rs cs w

  -- `LookupOrInsertNew`: the child, or the new node that is put in its place.
  unfoldable pub lookup_or_insert_new : Str → Children D → PathMatcherNode D
  lookup_or_insert_new k cs = elim (find_child k cs) [ none ↦ new_node | some c ↦ c ]

  -- The base case of `InsertTemplate`.
  unfoldable pub insert_result : Str → Option D → Bool → ResultMap D → ResultMap D × Bool
  insert_result method d mark rs = elim (lookup method rs) [
    | none ↦ (insert method (record { value = d; is_multiple = false }) rs, true)
    | some existing ↦
        (if mark then insert method (record existing { is_multiple = true }) rs else rs, false)
  ]

  -- `InsertTemplate`: the new subtrie, and whether the template is new.
  unfoldable pub insert_template :
      Str → Option D → Bool → List Str → PathMatcherNode D → PathMatcherNode D × Bool
  insert_template method d mark [] (node rs cs w) =
      let done = insert_result method d mark rs in (node done.0 cs w, done.1)
  insert_template method d mark (current ∷ path) (node rs cs w) =
      let child = lookup_or_insert_new current cs in
      let flagged = if str_eq current wildcard_path_key then set_wildcard true child else child in
      let done = insert_template method d mark path flagged in
      (node rs (put_child current done.0 cs) w, done.1)

  -- `Find2KeysOrNull`
  unfoldable pub find_2_keys_or_null : ResultMap D → Str → Str → Option (PathMatcherLookupResult D)
  find_2_keys_or_null m key1 key2 = elim (lookup key1 m) [ none ↦ lookup key2 m | some v ↦ some v ]

  -- `GetResultForHttpMethod`: the result variable, and whether something was found.
  unfoldable pub get_result_for_http_method :
      ResultMap D → Str → PathMatcherLookupResult D → PathMatcherLookupResult D × Bool
  get_result_for_http_method rs key result =
      elim (find_2_keys_or_null rs key http_method_wildcard) [
        | none ↦ (result, false)
        | some found ↦ (found, true)
      ]

  -- The base case of `LookupPath`.
  unfoldable pub lookup_here :
      Str → PathMatcherNode D → PathMatcherLookupResult D → PathMatcherLookupResult D
  lookup_here method (node rs cs w) result =
      let here = get_result_for_http_method rs method result in
      if here.1 then here.0 else elim (find_child wildcard_path_key cs) [
        | none ↦ here.0
        | some (node rs' _ _) ↦ (get_result_for_http_method rs' method here.0).0
      ]

  -- `LookupPathFromChild`; `next` is `LookupPath` at `current + 1`.
  unfoldable pub lookup_path_from_child :
      (PathMatcherNode D → PathMatcherLookupResult D → PathMatcherLookupResult D)
      → Str
      → Children D
      → PathMatcherLookupResult D
      → PathMatcherLookupResult D × Bool
  lookup_path_from_child next child_key cs result = elim (find_child child_key cs) [
    | none ↦ (result, false)
    | some child ↦ let found = next child result in (found, is_some found.value)
  ]

  -- The loop of `LookupPath` over the keys of the parameter children.
  unfoldable pub lookup_by_keys :
      (PathMatcherNode D → PathMatcherLookupResult D → PathMatcherLookupResult D)
      → List Str
      → Children D
      → PathMatcherLookupResult D
      → PathMatcherLookupResult D
  lookup_by_keys next [] cs result = result
  lookup_by_keys next (key ∷ keys) cs result =
      let tried = lookup_path_from_child next key cs result in
      let rest = lookup_by_keys next keys cs tried.0 in if tried.1 then tried.0 else rest

  -- `LookupPath`
  unfoldable pub lookup_path :
      Str → List Str → PathMatcherNode D → PathMatcherLookupResult D → PathMatcherLookupResult D
  lookup_path method [] n result = lookup_here method n result
  lookup_path method (current ∷ rest) (node rs cs w) result =
      let tried = lookup_path_from_child (lookup_path method rest) current cs result in
      let stay = lookup_path method rest (node rs cs w) tried.0 in
      let params = lookup_by_keys (lookup_path method rest) parameter_keys cs tried.0 in
      if tried.1 then tried.0 else if w then stay else params

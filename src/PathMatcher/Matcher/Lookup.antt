-- ===== src/PathMatcher/Matcher/Lookup.antt =====
-- `PathMatcher::Lookup` against the list of registrations.
use esp_v.Base.{
  Str, is_empty, is_some, All, true, false, Bool-cases, Option-cases, Option, none, some, List, [],
  ◌∷◌, ◌≡◌, inl, inr, refl, sym, ap, ◌∙◌,
}
use esp_v.PathMatcher.Node.{PathMatcherNode, empty_result, lookup_path}
use esp_v.PathMatcher.Node.Insert.{entry, entry-new_node}
use esp_v.PathMatcher.Node.Matching.{
  Matches, IsFlagged, insert_template-IsFlagged, IsValidPath, is_parameter_key,
}
use esp_v.PathMatcher.Node.Lookup.{IsChosenMethod, lookup_path-IsSound}
use esp_v.PathMatcher.Node.Complete.{IsAnswering, AllPresent, lookup_path_complete}
use esp_v.PathMatcher.TemplateParser.{HttpTemplate, ok}
use esp_v.PathMatcher.HttpTemplate.{parse}
use esp_v.PathMatcher.HttpTemplate.Valid.{parse-IsValidPath, IsValidPath-append}
use esp_v.PathMatcher.RequestPath.Split.{StrSplit, extract_request_parts}
use esp_v.PathMatcher.Matcher.{
  MethodData, PathMatcher, transform_http_template, new_builder, method_data_of, build,
  lookup_in_path_matcher_node, method_of, lookup_method_data, lookup,
}
use esp_v.PathMatcher.Matcher.Registered.{
  Registration, register_all, register_all-HoldsOnly, register_all-keeps, HoldsOnly, IsRegistered,
  register_all-HasEntry,
}

transform-IsValidPath :
    (ht : Str) (t : HttpTemplate)
    → parse ht ≡ ok t
    → is_parameter_key t.verb ≡ false
    → IsValidPath false (transform_http_template t)
unfolding transform_http_template
transform-IsValidPath ht t e h = elim (Bool-cases (is_empty t.verb)) [
  | inl plain ↦ rw plain (parse-IsValidPath ht t e)
  | inr verb ↦ rw verb (IsValidPath-append false t.segments t.verb (parse-IsValidPath ht t e) h)
]

-- Some registration of the list has the template `t`, the method `k`, and the data `d`.
pub data IsSource {ℓ} {M : Type ℓ} (t : HttpTemplate) (k : Str) (d : MethodData M)
    : List (Registration M) → Type ℓ where
  here :
      {reg : Registration M} {regs : List (Registration M)}
      → parse reg.http_template ≡ ok t
      → reg.http_method ≡ k
      → d ≡ method_data_of t reg.body_field_path reg.method
      → IsSource t k d (reg ∷ regs)
  there :
      {reg : Registration M} {regs : List (Registration M)}
      → IsSource t k d regs
      → IsSource t k d (reg ∷ regs)

registered-parse {ℓ} :
    {M : Type ℓ} (regs : List (Registration M)) (t : HttpTemplate) (k : Str)
    → IsRegistered regs t k
    → (ht : Str) × (parse ht ≡ ok t)
registered-parse (reg ∷ regs) t k (inl h) = (reg.http_template, h.0)
registered-parse (reg ∷ regs) t k (inr h) = registered-parse regs t k h
registered-parse [] t k h = elim h [ ]

is_some-method_of {ℓ} :
    {M : Type ℓ} (o : Option (MethodData M)) → is_some o ≡ true → is_some (method_of o) ≡ true
is_some-method_of none h = h
is_some-method_of (some d) h = refl

IsAnswering-of {ℓ} :
    {D : Type ℓ} (hm : Str) (n : PathMatcherNode D) (t : List Str) {k : Str}
    → IsChosenMethod hm n t k
    → IsAnswering hm k
IsAnswering-of hm n t (inl e) = inl e
IsAnswering-of hm n t (inr e) = inr e.0

module _ {ℓ} {M : Type ℓ} where
  -- What the results of the trie come from.
  abbrev Comes : List (Registration M) → List Str → Str → MethodData M → Type ℓ
  Comes regs path k d =
      (t : HttpTemplate) × (transform_http_template t ≡ path) × IsSource t k d regs

  abbrev Comings : List (Registration M) → List (Registration M) → Type ℓ
  Comings all regs =
      All
        (λ (reg : Registration M).
          (t : HttpTemplate)
          → parse reg.http_template ≡ ok t
          → Comes all (transform_http_template t) reg.http_method
              (method_data_of t reg.body_field_path reg.method))
        regs

  Comings-cons :
      (reg : Registration M) (all regs : List (Registration M))
      → Comings all regs
      → Comings (reg ∷ all) regs
  Comings-cons reg all [] h = tt
  Comings-cons reg all (r ∷ regs) h =
      (λ t e. let (t', same, src) = h.0 t e in (t', same, there src), Comings-cons reg all regs h.1)

  Comings-all : (regs : List (Registration M)) → Comings regs regs
  Comings-all [] = tt
  Comings-all (reg ∷ regs) =
      (λ t e. (t, refl, here e refl refl), Comings-cons reg regs regs (Comings-all regs))

  built-Comes :
      (regs : List (Registration M)) → HoldsOnly (Comes regs) (register_all new_builder regs)
  built-Comes regs =
      register_all-HoldsOnly (Comes regs) new_builder regs
        (λ t k r e. cc (sym (entry-new_node {D = MethodData M} t k) ∙ e)) (Comings-all regs)

  built-IsFlagged :
      (regs : List (Registration M)) → IsFlagged false (register_all {M = M} new_builder regs).root
  built-IsFlagged regs =
      register_all-keeps (IsFlagged false)
        (λ hm d path n h. insert_template-IsFlagged hm (some d) true path n false h) new_builder
        regs (refl, tt)

  built-AllPresent :
      (regs : List (Registration M)) → AllPresent (register_all {M = M} new_builder regs).root
  built-AllPresent regs t k r e = let (d, h, _) = built-Comes regs t k r e in rw h

  module _ (absl : StrSplit) (regs : List (Registration M)) (hm path : Str) where
    -- The matcher after the registrations, and the parts of the request path.
    abbrev pub matcher : PathMatcher M
    matcher = build (register_all new_builder regs)

    abbrev pub parts : List Str
    parts = extract_request_parts absl matcher.custom_verbs path

    -- The answer of `Lookup` was registered with a template that matches the parts of the path, for
    -- the method of the request or for `*`.
    pub lookup_sound :
        (m : M)
        → lookup absl matcher hm path ≡ some m
        → (t : HttpTemplate) × (k : Str) × (d : MethodData M) × IsSource t k d regs
          × (d.method ≡ m)
          × IsAnswering hm k
          × Matches (transform_http_template t) parts
    unfolding lookup lookup_method_data lookup_in_path_matcher_node build
    lookup_sound m e =
        let root = (register_all new_builder regs).root in
        let r = lookup_path hm parts root empty_result in
        elim (lookup_path-IsSound hm parts false root empty_result (built-IsFlagged regs) refl) [
          | inl missing ↦ cc (ap method_of missing)
          | inr f ↦
              let (d, present, (t, same, src)) =
                built-Comes regs f.template f.chosen r f.registered in
              let method_is : some d.method ≡ some m = sym (ap method_of present) ∙ e in
              (
                t,
                f.chosen,
                d,
                src,
                cc method_is,
                IsAnswering-of hm root f.template f.is_chosen,
                rw same f.matches,
              )
        ]

    -- `Lookup` answers if some registered template matches the parts of the path, for the method of
    -- the request or for `*`. A verb that is a wildcard is left out.
    pub lookup_complete :
        (t : HttpTemplate) (k : Str)
        → IsRegistered regs t k
        → is_parameter_key t.verb ≡ false
        → IsAnswering hm k
        → Matches (transform_http_template t) parts
        → is_some (lookup absl matcher hm path) ≡ true
    unfolding lookup lookup_method_data lookup_in_path_matcher_node build
    lookup_complete t k reg verb answering m =
        let b = register_all new_builder regs in
        let (ht, parsed) = registered-parse regs t k reg in
        elim (Option-cases (entry b.root (transform_http_template t) k)) [
          | inl missing ↦
              let found = register_all-HasEntry new_builder regs t k reg in
              cc (found, ap is_some missing)
          | inr (r, e) ↦ is_some-method_of (lookup_path hm parts b.root empty_result).value (
              lookup_path_complete hm parts false b.root (transform_http_template t) k r
                (built-IsFlagged regs) (built-AllPresent regs)
                (transform-IsValidPath ht t parsed verb) answering e m empty_result)
        ]

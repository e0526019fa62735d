-- ===== src/PathMatcher/Node/Lookup.antt =====
-- `LookupPath` of src/api_proxy/path_matcher/path_matcher_node.cc: what it finds.
use esp_v.Base.{
  Str, is_some, lookup, All, Bool, true, false, Bool-cases, Option-cases, none, some, List, [], ◌∷◌,
  ◌≡◌, ◌⊎◌, inl, inr, refl, ap, arith,
}
use esp_v.PathMatcher.Node.{
  PathMatcherLookupResult, ResultMap, PathMatcherNode, node, Children, find_child,
  wildcard_path_key, parameter_keys, http_method_wildcard, find_2_keys_or_null,
  get_result_for_http_method, lookup_here, lookup_path_from_child, lookup_by_keys, lookup_path,
}
use esp_v.PathMatcher.Node.Insert.{entry}
use esp_v.PathMatcher.Node.Matching.{
  Matches, done, no_more, more, MatchesAt, MatchesAt-of, is_wildcard_path_key, MatchesAt-literal,
  IsFlagged, AreFlagged, IsFlagged-find_child, CanLead, keys_lead,
}

module _ {ℓ} {D : Type ℓ} (method : Str) where
  -- The method of a result: the one asked for, or `*` where a template has none for that one.
  abbrev pub IsChosenMethod : PathMatcherNode D → List Str → Str → Type ℓ
  IsChosenMethod n t m = (m ≡ method) ⊎ ((m ≡ http_method_wildcard) × (entry n t method ≡ none))

  pub record Found (w : Bool) (n : PathMatcherNode D) (ps : List Str)
      (r : PathMatcherLookupResult D) : Type ℓ where
    pub template : List Str
    pub chosen : Str
    pub is_chosen : IsChosenMethod n template chosen
    pub registered : entry n template chosen ≡ some r
    pub matches : MatchesAt w template ps

  pub get_result_sound :
      (rs : ResultMap D) (r : PathMatcherLookupResult D)
      → ((get_result_for_http_method rs method r).1 ≡ true)
      → (m : Str) × ((m ≡ method) ⊎ ((m ≡ http_method_wildcard) × (lookup method rs ≡ none)))
        × (lookup m rs ≡ some (get_result_for_http_method rs method r).0)
  unfolding get_result_for_http_method find_2_keys_or_null
  get_result_sound rs r h = elim (Option-cases (lookup method rs)) [
    | inl e ↦ elim (Option-cases (lookup http_method_wildcard rs)) [
      | inl e' ↦ ground arith
      | inr (v, e') ↦ (http_method_wildcard, inr (refl, e), ground arith)
    ]
    | inr (v, e) ↦ (method, inl refl, ground arith)
  ]

  get_result_missing :
      (rs : ResultMap D) (r : PathMatcherLookupResult D)
      → (get_result_for_http_method rs method r).1 ≡ false
      → (get_result_for_http_method rs method r).0 ≡ r
  unfolding get_result_for_http_method
  get_result_missing rs r h = ground arith

  -- Nothing was found, or what the record says.
  abbrev pub Outcome : Bool → PathMatcherNode D → List Str → PathMatcherLookupResult D → Type ℓ
  Outcome w n ps r = (r.value ≡ none) ⊎ Found w n ps r

  -- A result that a child holds, seen from its parent.
  Found-child :
      (w : Bool) (k p : Str) (rs : ResultMap D) (cs : Children D) (v : Bool) {ps : List Str}
      {c : PathMatcherNode D} {r : PathMatcherLookupResult D}
      → find_child k cs ≡ some c
      → ((t : List Str) → MatchesAt (is_wildcard_path_key k) t ps → Matches (k ∷ t) (p ∷ ps))
      → Found (is_wildcard_path_key k) c ps r
      → Found w (node rs cs v) (p ∷ ps) r
  unfolding entry
  Found-child w k p rs cs v {ps} {c} {r} e lift f = record {
    template = k ∷ f.template;
    chosen = f.chosen;
    is_chosen = rw (e, entry) f.is_chosen;
    registered = rw (e, entry) f.registered;
    matches = MatchesAt-of w (lift f.template f.matches);
  }

  lookup_wildcard_sound :
      (w v : Bool) (rs : ResultMap D) (cs : Children D) (r : PathMatcherLookupResult D)
      {rs' : ResultMap D} {cs' : Children D} {v' : Bool}
      → r.value ≡ none
      → find_child wildcard_path_key cs ≡ some (node rs' cs' v')
      → Outcome w (node rs cs v) [] (get_result_for_http_method rs' method r).0
  unfolding entry
  lookup_wildcard_sound w v rs cs r {rs'} {cs'} {v'} h e =
      elim (Bool-cases (get_result_for_http_method rs' method r).1) [
        | inl e' ↦
            let (m, chosen, found) = get_result_sound rs' r e' in
            inr (record {
              template = wildcard_path_key ∷ [];
              chosen = m;
              is_chosen = rw (e, entry) chosen;
              registered = rw (e, entry) found;
              matches = MatchesAt-of w no_more;
            })
        | inr e' ↦ inl (rw (get_result_missing rs' r e') h)
      ]

  lookup_here_sound :
      (w v : Bool) (rs : ResultMap D) (cs : Children D) (r : PathMatcherLookupResult D)
      → r.value ≡ none
      → Outcome w (node rs cs v) [] (lookup_here method (node rs cs v) r)
  unfolding lookup_here entry
  lookup_here_sound w v rs cs r h = elim (Bool-cases (get_result_for_http_method rs method r).1) [
    | inl e ↦
        let (m, chosen, found) = get_result_sound rs r e in
        rw e (
          inr (record {
            template = [];
            chosen = m;
            is_chosen = chosen;
            registered = found;
            matches = MatchesAt-of w done;
          }))
    | inr e ↦ rw e (elim (Option-cases (find_child wildcard_path_key cs)) [
      | inl e' ↦ inl (rw e' (rw (get_result_missing rs r e) h))
      | inr (node rs' cs' v', e') ↦
          rw (e', get_result_missing rs r e) (lookup_wildcard_sound w v rs cs r h e')
    ])
  ]

  -- What is known of `LookupPath` at `current + 1`.
  abbrev pub IsSound :
      List Str
      → (PathMatcherNode D → PathMatcherLookupResult D → PathMatcherLookupResult D)
      → Type ℓ
  IsSound ps next =
      (w : Bool) (c : PathMatcherNode D) (r : PathMatcherLookupResult D)
      → IsFlagged w c
      → r.value ≡ none
      → Outcome w c ps (next c r)

  module _ (w v : Bool) (p : Str) (ps : List Str) (rs : ResultMap D) (cs : Children D)
      (next : PathMatcherNode D → PathMatcherLookupResult D → PathMatcherLookupResult D)
      (ih : IsSound ps next) (fl : AreFlagged cs) where
    from_child_sound :
        (k : Str) (r : PathMatcherLookupResult D)
        → CanLead ps p k
        → r.value ≡ none
        → (((lookup_path_from_child next k cs r).1 ≡ false)
            × ((lookup_path_from_child next k cs r).0.value ≡ none))
          ⊎ (((lookup_path_from_child next k cs r).1 ≡ true)
              × Found w (node rs cs v) (p ∷ ps) (lookup_path_from_child next k cs r).0)
    unfolding lookup_path_from_child
    from_child_sound k r lead h = elim (Option-cases (find_child k cs)) [
      | inl e ↦ inl (rw (e, lookup_path_from_child) (refl, h))
      | inr (c, e) ↦ elim (Option-cases (next c r).value) [
        | inl missing ↦ inl (rw (e, lookup_path_from_child) (rw missing (refl, refl)))
        | inr (d, present) ↦
            elim (ih (is_wildcard_path_key k) c r (IsFlagged-find_child k cs fl e) h) [
              | inl missing ↦ cc
              | inr f ↦ inr (
                  rw (e, lookup_path_from_child)
                    (ap is_some present, Found-child w k p rs cs v e lead f))
            ]
      ]
    ]

    lookup_by_keys_sound :
        (keys : List Str) (r : PathMatcherLookupResult D)
        → All (CanLead ps p) keys
        → r.value ≡ none
        → Outcome w (node rs cs v) (p ∷ ps) (lookup_by_keys next keys cs r)
    unfolding lookup_by_keys
    lookup_by_keys_sound [] r lead h = inl h
    lookup_by_keys_sound (k ∷ keys) r lead h = elim (from_child_sound k r lead.0 h) [
      | inl (e, h') ↦ rw e (lookup_by_keys_sound keys _ lead.1 h')
      | inr (e, f) ↦ rw e (inr f)
    ]

  Found-stay :
      (w : Bool) (p : Str) (n : PathMatcherNode D) (ps : List Str) {r : PathMatcherLookupResult D}
      → true ≡ w
      → Found w n ps r
      → Found w n (p ∷ ps) r
  Found-stay false p n ps e f = cc
  Found-stay true p n ps e f = record {
    template = f.template;
    chosen = f.chosen;
    is_chosen = f.is_chosen;
    registered = f.registered;
    matches = λ x. more (f.matches p);
  }

  -- `LookupPath` in a trie whose flags are right leaves the result empty, or finds what is
  -- registered under a template that matches.
  pub lookup_path-IsSound : (ps : List Str) → IsSound ps (lookup_path method ps)
  unfolding lookup_path
  lookup_path-IsSound [] w (node rs cs v) r fl h = lookup_here_sound w v rs cs r h
  lookup_path-IsSound (p ∷ ps) w (node rs cs true) r fl h =
      elim (from_child_sound w true p ps rs cs (lookup_path method ps) (lookup_path-IsSound ps) fl.1
        p r (λ t m. MatchesAt-literal p m) h) [
          | inr (e, f) ↦ rw e (inr f)
          | inl (e, h') ↦ rw e (elim (lookup_path-IsSound ps w (node rs cs true) _ fl h') [
            | inl missing ↦ inl missing
            | inr f ↦ inr (Found-stay w p _ ps fl.0 f)
          ])
        ]
  lookup_path-IsSound (p ∷ ps) w (node rs cs false) r fl h =
      elim (from_child_sound w false p ps rs cs (lookup_path method ps) (lookup_path-IsSound ps)
        fl.1 p r (λ t m. MatchesAt-literal p m) h) [
          | inr (e, f) ↦ rw e (inr f)
          | inl (e, h') ↦ rw e (
              lookup_by_keys_sound w false p ps rs cs (lookup_path method ps)
                (lookup_path-IsSound ps) fl.1 parameter_keys _ (keys_lead ps p) h')
        ]

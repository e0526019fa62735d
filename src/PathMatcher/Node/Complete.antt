-- ===== src/PathMatcher/Node/Complete.antt =====
-- `LookupPath` of src/api_proxy/path_matcher/path_matcher_node.cc: when it finds something.
use esp_v.Base.{
  Str, if◌then◌else◌, is_some, lookup, Bool, true, false, Bool-cases, Option-cases, none, some,
  List, [], ◌∷◌, ◌≡◌, ◌⊎◌, inl, inr, arith,
}
use esp_v.PathMatcher.Node.{
  PathMatcherLookupResult, ResultMap, PathMatcherNode, node, Children, find_child,
  single_parameter_key, wildcard_path_part_key, wildcard_path_key, parameter_keys,
  http_method_wildcard, find_2_keys_or_null, get_result_for_http_method, lookup_here,
  lookup_path_from_child, lookup_by_keys, lookup_path,
}
use esp_v.PathMatcher.Node.Insert.{entry}
use esp_v.PathMatcher.Node.Lookup.{get_result_sound}
use esp_v.PathMatcher.Node.Matching.{
  Matches, is_wildcard_path_key, IsFlagged, AreFlagged, IsFlagged-find_child, IsValidPath,
  IsValidPath-weaken, Steps, by_literal, by_single, by_part, by_wildcard, Matches-cons, Remains,
  Remains-of, Remains-nil, Remains-wildcard, not_parameter,
}

module _ {ℓ} {D : Type ℓ} where
  abbrev pub IsPresent : PathMatcherLookupResult D → Type 0
  IsPresent r = is_some r.value ≡ true

  -- No null pointer was registered.
  abbrev pub AllPresent : PathMatcherNode D → Type ℓ
  AllPresent n =
      (t : List Str) (m : Str) (r : PathMatcherLookupResult D) → entry n t m ≡ some r → IsPresent r

  entry-cons :
      (rs : ResultMap D) (cs : Children D) (v : Bool) (k : Str) (t : List Str) (m : Str)
      {r : PathMatcherLookupResult D}
      → entry (node rs cs v) (k ∷ t) m ≡ some r
      → (c : PathMatcherNode D) × (find_child k cs ≡ some c) × (entry c t m ≡ some r)
  unfolding entry
  entry-cons rs cs v k t m e = elim (Option-cases (find_child k cs)) [
    | inl missing ↦ ground arith
    | inr (c, found) ↦ (c, found, ground arith)
  ]

  AllPresent-child :
      (rs : ResultMap D) (cs : Children D) (v : Bool) (k : Str) {c : PathMatcherNode D}
      → AllPresent (node rs cs v)
      → find_child k cs ≡ some c
      → AllPresent c
  unfolding entry
  AllPresent-child rs cs v k all e t m r h = all (k ∷ t) m r (rw (e, entry) h)

-- The methods under which a registration answers a request.
abbrev pub IsAnswering : Str → Str → Type 0
IsAnswering method m = (m ≡ method) ⊎ (m ≡ http_method_wildcard)

module _ {ℓ} {D : Type ℓ} (method : Str) where
  get_result-IsPresent :
      (rs : ResultMap D) (result : PathMatcherLookupResult D)
      → ((m : Str) (r : PathMatcherLookupResult D) → lookup m rs ≡ some r → IsPresent r)
      → (get_result_for_http_method rs method result).1 ≡ true
      → IsPresent (get_result_for_http_method rs method result).0
  get_result-IsPresent rs result all h =
      let (m, _, e) = get_result_sound method rs result h in all m _ e

  get_result_complete :
      (rs : ResultMap D) (m : Str) {r : PathMatcherLookupResult D}
      (result : PathMatcherLookupResult D)
      → IsAnswering method m
      → lookup m rs ≡ some r
      → ((m : Str) (r : PathMatcherLookupResult D) → lookup m rs ≡ some r → IsPresent r)
      → ((get_result_for_http_method rs method result).1 ≡ true)
        × IsPresent (get_result_for_http_method rs method result).0
  unfolding get_result_for_http_method find_2_keys_or_null
  get_result_complete rs m {r} result is_m e all = elim (Option-cases (lookup method rs)) [
    | inr (v, found) ↦ ground (arith, all method v)
    | inl missing ↦ elim is_m [
      | inl same ↦ ground arith
      | inr same ↦
          let e' : lookup http_method_wildcard rs ≡ some r = rw same at e in
          ground (arith, e', all http_method_wildcard r e')
    ]
  ]

  lookup_wildcard_complete :
      (rs : ResultMap D) (cs : Children D) (v : Bool) (c : PathMatcherNode D) (m : Str)
      {r : PathMatcherLookupResult D} (result : PathMatcherLookupResult D)
      → AllPresent (node rs cs v)
      → IsAnswering method m
      → find_child wildcard_path_key cs ≡ some c
      → entry c [] m ≡ some r
      → IsPresent (elim (find_child wildcard_path_key cs) [
        | none ↦ result
        | some (node rs' _ _) ↦ (get_result_for_http_method rs' method result).0
      ])
  unfolding entry
  lookup_wildcard_complete rs cs v (node rs' cs' v') m result all is_m found e =
      rw found
        (get_result_complete rs' m result is_m e
          (λ k r' h. all (wildcard_path_key ∷ []) k r' (rw (found, entry) h))).1

  lookup_here_complete :
      (rs : ResultMap D) (cs : Children D) (v : Bool) (t : List Str) (m : Str)
      {r : PathMatcherLookupResult D} (result : PathMatcherLookupResult D)
      → AllPresent (node rs cs v)
      → IsAnswering method m
      → entry (node rs cs v) t m ≡ some r
      → (t ≡ []) ⊎ (t ≡ wildcard_path_key ∷ [])
      → IsPresent (lookup_here method (node rs cs v) result)
  unfolding lookup_here entry
  lookup_here_complete rs cs v t m {r} result all is_m e (inl same) =
      let e' : entry (node rs cs v) [] m ≡ some r = rw same at e in
      let (found, present) = get_result_complete rs m result is_m e' (all []) in rw found present
  lookup_here_complete rs cs v t m {r} result all is_m e (inr same) =
      let e' : entry (node rs cs v) (wildcard_path_key ∷ []) m ≡ some r = rw same at e in
      elim (Bool-cases (get_result_for_http_method rs method result).1) [
        | inl here ↦ rw here (get_result-IsPresent rs result (all []) here)
        | inr not_here ↦
            let (c, found, e'') = entry-cons rs cs v wildcard_path_key [] m e' in
            rw not_here (lookup_wildcard_complete rs cs v c m _ all is_m found e'')
      ]

  -- What is shown of `LookupPath` at `current + 1`, for one node.
  abbrev IsComplete :
      (PathMatcherNode D → PathMatcherLookupResult D → PathMatcherLookupResult D)
      → PathMatcherNode D
      → Type ℓ
  IsComplete next c = (r : PathMatcherLookupResult D) → IsPresent (next c r)

  module _ (cs : Children D)
      (next : PathMatcherNode D → PathMatcherLookupResult D → PathMatcherLookupResult D) where
    from_child-IsPresent :
        (k : Str) (r : PathMatcherLookupResult D)
        → (lookup_path_from_child next k cs r).1 ≡ true
        → IsPresent (lookup_path_from_child next k cs r).0
    unfolding lookup_path_from_child
    from_child-IsPresent k r h = ground arith

    from_child_complete :
        (k : Str) {c : PathMatcherNode D}
        → find_child k cs ≡ some c
        → IsComplete next c
        → (r : PathMatcherLookupResult D) → (lookup_path_from_child next k cs r).1 ≡ true
    unfolding lookup_path_from_child
    from_child_complete k e h r = rw (e, lookup_path_from_child) (h r)

    -- One key that leads to something is enough.
    lookup_by_keys_first :
        (k : Str) (keys : List Str) (r : PathMatcherLookupResult D)
        → ((r : PathMatcherLookupResult D) → (lookup_path_from_child next k cs r).1 ≡ true)
        → IsPresent (lookup_by_keys next (k ∷ keys) cs r)
    unfolding lookup_by_keys
    lookup_by_keys_first k keys r h = rw (h r) (from_child-IsPresent k r (h r))

    lookup_by_keys_later :
        (k : Str) (keys : List Str) (r : PathMatcherLookupResult D)
        → ((r : PathMatcherLookupResult D) → IsPresent (lookup_by_keys next keys cs r))
        → IsPresent (lookup_by_keys next (k ∷ keys) cs r)
    unfolding lookup_by_keys
    lookup_by_keys_later k keys r h = elim (Bool-cases (lookup_path_from_child next k cs r).1) [
      | inl e ↦ rw e (from_child-IsPresent k r e)
      | inr e ↦ rw e (h _)
    ]

  -- The same for every node and template of which `ps` remains.
  abbrev pub IsCompleteFor :
      (PathMatcherNode D → PathMatcherLookupResult D → PathMatcherLookupResult D)
      → List Str
      → Type ℓ
  IsCompleteFor next ps =
      (w : Bool) (n : PathMatcherNode D) (t : List Str) (m : Str) (r : PathMatcherLookupResult D)
      → IsFlagged w n
      → AllPresent n
      → IsValidPath w t
      → IsAnswering method m
      → entry n t m ≡ some r
      → Remains w t ps
      → IsComplete next n

  module _ (p : Str) (ps : List Str) (rs : ResultMap D) (cs : Children D) (v : Bool)
      (next : PathMatcherNode D → PathMatcherLookupResult D → PathMatcherLookupResult D)
      (ih : IsCompleteFor next ps) (fl : AreFlagged cs) (all : AllPresent (node rs cs v)) where
    child_complete :
        (k : Str) (t : List Str) (m : Str) (r : PathMatcherLookupResult D)
        → IsValidPath (is_wildcard_path_key k) t
        → IsAnswering method m
        → entry (node rs cs v) (k ∷ t) m ≡ some r
        → Remains (is_wildcard_path_key k) t ps
        → (result : PathMatcherLookupResult D) → (lookup_path_from_child next k cs result).1 ≡ true
    child_complete k t m r valid is_m e left =
        let (c, found, e') = entry-cons rs cs v k t m e in
        from_child_complete cs next k found (
          ih (is_wildcard_path_key k) c t m r (IsFlagged-find_child k cs fl found)
            (AllPresent-child rs cs v k all found) valid is_m e' left)

    -- A node that is not below `**`.
    plain_complete :
        (s : Str) (t : List Str) (m : Str) (r result : PathMatcherLookupResult D)
        → IsValidPath (is_wildcard_path_key s) t
        → IsAnswering method m
        → entry (node rs cs v) (s ∷ t) m ≡ some r
        → Steps s t p ps
        → (lookup_path_from_child next p cs result).1 ≡ false
        → ((r' : PathMatcherLookupResult D) → IsPresent (lookup_by_keys next parameter_keys cs r'))
    plain_complete s t m r result valid is_m e (by_literal same x) no_child r' =
        let e' : entry (node rs cs v) (p ∷ t) m ≡ some r = rw same at e in
        let v' : IsValidPath (is_wildcard_path_key p) t = rw same at valid in
        let h = child_complete p t m r v' is_m e' (Remains-of _ x) result in cc
    plain_complete s t m r result valid is_m e (by_single same x) no_child r' =
        let e' : entry (node rs cs v) (single_parameter_key ∷ t) m ≡ some r = rw same at e in
        let v' : IsValidPath (is_wildcard_path_key single_parameter_key) t = rw same at valid in
        lookup_by_keys_first cs next single_parameter_key _ r'
          (child_complete single_parameter_key t m r v' is_m e' (Remains-of _ x))
    plain_complete s t m r result valid is_m e (by_part same x) no_child r' =
        let e' : entry (node rs cs v) (wildcard_path_part_key ∷ t) m ≡ some r = rw same at e in
        let v' : IsValidPath (is_wildcard_path_key wildcard_path_part_key) t = rw same at valid in
        lookup_by_keys_later cs next single_parameter_key _ r' λ r''.
          lookup_by_keys_first cs next wildcard_path_part_key _ r''
            (child_complete wildcard_path_part_key t m r v' is_m e' (Remains-of _ x))
    plain_complete s t m r result valid is_m e (by_wildcard same x) no_child r' =
        let e' : entry (node rs cs v) (wildcard_path_key ∷ t) m ≡ some r = rw same at e in
        let v' : IsValidPath (is_wildcard_path_key wildcard_path_key) t = rw same at valid in
        let x' : Matches t ps ⊎ Matches (wildcard_path_key ∷ t) ps = rw same at x in
        lookup_by_keys_later cs next single_parameter_key _ r' λ r''.
          lookup_by_keys_later cs next wildcard_path_part_key _ r'' λ r₃.
            lookup_by_keys_first cs next wildcard_path_key _ r₃
              (child_complete wildcard_path_key t m r v' is_m e' (Remains-wildcard x'))

    -- A node below `**`, where the literal child has nothing: what remains after this segment.
    stay-Remains :
        (t : List Str) (m : Str) (r result : PathMatcherLookupResult D)
        → IsValidPath true t
        → IsAnswering method m
        → entry (node rs cs v) t m ≡ some r
        → Remains true t (p ∷ ps)
        → (lookup_path_from_child next p cs result).1 ≡ false
        → Remains true t ps
    stay-Remains [] m r result valid is_m e (inl x) no_child = elim x [ ]
    stay-Remains (s ∷ t) m r result valid is_m e (inl x) no_child = elim (Matches-cons x) [
      | by_literal same y ↦
          let e' : entry (node rs cs v) (p ∷ t) m ≡ some r = rw same at e in
          let h =
            child_complete p t m r (IsValidPath-weaken _ t valid.1) is_m e' (Remains-of _ y)
              result in
          cc
      | by_single same y ↦ absurd ((not_parameter valid.0).0 same)
      | by_part same y ↦ absurd ((not_parameter valid.0).1 same)
      | by_wildcard same y ↦ absurd ((not_parameter valid.0).2 same)
    ]
    stay-Remains t m r result valid is_m e (inr x) no_child = elim (Matches-cons x) [
      | by_literal same y ↦ inl y
      | by_single same y ↦ inl y
      | by_part same y ↦ inl y
      | by_wildcard same y ↦ y
    ]

  -- Whatever the literal child holds comes first.
  literal_first :
      (cs : Children D)
      (next : PathMatcherNode D → PathMatcherLookupResult D → PathMatcherLookupResult D) (p : Str)
      (result later : PathMatcherLookupResult D)
      → ((lookup_path_from_child next p cs result).1 ≡ false → IsPresent later)
      → IsPresent (
          if (lookup_path_from_child next p cs result).1
          then (lookup_path_from_child next p cs result).0
          else later)
  literal_first cs next p result later h =
      elim (Bool-cases (lookup_path_from_child next p cs result).1) [
        | inl e ↦ rw e (from_child-IsPresent cs next p result e)
        | inr e ↦ rw e (h e)
      ]

  -- `LookupPath` finds a result whenever a valid template of the trie matches the request path and
  -- is registered for the method or for `*`.
  pub lookup_path_complete : (ps : List Str) → IsCompleteFor (lookup_path method ps) ps
  unfolding lookup_path
  lookup_path_complete [] w (node rs cs v) t m r fl all valid is_m e left result =
      lookup_here_complete rs cs v t m result all is_m e (Remains-nil w left)
  lookup_path_complete (p ∷ ps) false (node rs cs true) t m r fl all valid is_m e left result =
      cc (fl.0)
  lookup_path_complete (p ∷ ps) true (node rs cs false) t m r fl all valid is_m e left result =
      cc (fl.0)
  lookup_path_complete (p ∷ ps) false (node rs cs false) [] m r fl all valid is_m e left result =
      elim left [ ]
  lookup_path_complete (p ∷ ps) false (node rs cs false) (s ∷ t) m r fl all valid is_m e left
        result =
      literal_first cs (lookup_path method ps) p result _ λ no_child.
        plain_complete p ps rs cs false (lookup_path method ps) (lookup_path_complete ps) fl.1 all s
          t m r result valid is_m e (Matches-cons left) no_child _
  lookup_path_complete (p ∷ ps) true (node rs cs true) t m r fl all valid is_m e left result =
      literal_first cs (lookup_path method ps) p result _ λ no_child.
        lookup_path_complete ps true (node rs cs true) t m r fl all valid is_m e
          (stay-Remains p ps rs cs true (lookup_path method ps) (lookup_path_complete ps) fl.1 all t
            m r result valid is_m e left no_child)
          _

-- ===== src/PathMatcher/Matcher/Registered.antt =====
-- What the trie of a builder holds after a sequence of registrations.
use esp_v.Base.{
  Str, str_eq, str_eq_iff, is_some, if◌then◌else◌, All, true, ◌&&◌, Bool-cases, Option, none, some,
  List, [], ◌∷◌, ◌≡◌, ◌⊎◌, inl, inr, refl, sym, ap, ◌∙◌, arith,
}
use esp_v.PathMatcher.Node.{PathMatcherNode, PathMatcherLookupResult, insert_template}
use esp_v.PathMatcher.Node.Insert.{entry, after_insert, entry-insert_template, path_eq, path_eq_iff}
use esp_v.PathMatcher.TemplateParser.{HttpTemplate, Parsed, ok, fail, out_of_fuel}
use esp_v.PathMatcher.HttpTemplate.{parse}
use esp_v.PathMatcher.Matcher.{
  MethodData, PathMatcherBuilder, transform_http_template, method_data_of, register_template,
  register,
}

-- The arguments of a call of `Register`.
pub record Registration {ℓ} (M : Type ℓ) : Type ℓ where
  pub http_method : Str
  pub http_template : Str
  pub body_field_path : Str
  pub method : M

module _ {ℓ} {M : Type ℓ} where
  -- Calls of `Register`, one after the other.
  unfoldable pub register_all : PathMatcherBuilder M → List (Registration M) → PathMatcherBuilder M
  register_all b [] = b
  register_all b (reg ∷ regs) =
      register_all (register b reg.http_method reg.http_template reg.body_field_path reg.method).0
        regs

  register_template-root :
      (b : PathMatcherBuilder M) (hm : Str) (ht : HttpTemplate) (body : Str) (m : M)
      → (register_template b hm ht body m).0.root
        ≡ (insert_template hm
            (some (method_data_of ht body m))
            true
            (transform_http_template ht)
            b.root).0
  unfolding register_template
  register_template-root b hm ht body m = ground arith

  -- Every result of the trie points to a method data of which `P` holds.
  abbrev pub HoldsOnly : (List Str → Str → MethodData M → Type ℓ) → PathMatcherBuilder M → Type ℓ
  HoldsOnly P b =
      (t : List Str) (k : Str) (r : PathMatcherLookupResult (MethodData M))
      → entry b.root t k ≡ some r
      → (d : MethodData M) × (r.value ≡ some d) × P t k d

  module _ (P : List Str → Str → MethodData M → Type ℓ) where
    after_insert-holds :
        (t : List Str) (k : Str) (d : MethodData M)
        (old : Option (PathMatcherLookupResult (MethodData M)))
        → ((r : PathMatcherLookupResult (MethodData M))
            → old ≡ some r
            → (d : MethodData M) × (r.value ≡ some d) × P t k d)
        → P t k d
        → (d' : MethodData M) × ((after_insert (some d) true old).value ≡ some d') × P t k d'
    unfolding after_insert
    after_insert-holds t k d none h p = (d, refl, p)
    after_insert-holds t k d (some old) h p = h old refl

    register_template-HoldsOnly :
        (b : PathMatcherBuilder M) (hm : Str) (ht : HttpTemplate) (body : Str) (m : M)
        → HoldsOnly P b
        → P (transform_http_template ht) hm (method_data_of ht body m)
        → HoldsOnly P (register_template b hm ht body m).0
    unfolding register_template
    register_template-HoldsOnly b hm ht body m h p t k r e =
        let path = transform_http_template ht in
        let d = method_data_of ht body m in
        let after = after_insert (some d) true (entry b.root path hm) in
        let e' : (if path_eq path t && str_eq hm k then some after else entry b.root t k) ≡ some r =
          sym (entry-insert_template hm (some d) true path b.root t k)
          ∙ (ap (λ n. entry n t k) (sym (register_template-root b hm ht body m)) ∙ e) in
        elim (Bool-cases (path_eq path t && str_eq hm k)) [
          | inl same ↦
              let same_path : path ≡ t = (path_eq_iff path t).0 (ground arith) in
              let same_method : hm ≡ k = (str_eq_iff hm k).0 (ground arith) in
              let e'' : some after ≡ some r = rw same at e' in
              let is_r : after ≡ r = cc in
              rw (← is_r, ← same_path, ← same_method)
                (after_insert-holds path hm d (entry b.root path hm) (h path hm) p)
          | inr other ↦ h t k r (rw other at e')
        ]

    register-HoldsOnly :
        (b : PathMatcherBuilder M) (hm ht body : Str) (m : M)
        → HoldsOnly P b
        → ((t : HttpTemplate)
            → parse ht ≡ ok t
            → P (transform_http_template t) hm (method_data_of t body m))
        → HoldsOnly P (register b hm ht body m).0
    unfolding register
    register-HoldsOnly b hm ht body m h p = go (parse ht) refl
      where
        go : (r : Parsed HttpTemplate) → parse ht ≡ r → HoldsOnly P (register b hm ht body m).0
        go (ok t) e = rw (e, register) (register_template-HoldsOnly b hm t body m h (p t e))
        go fail e = rw (e, register) h
        go out_of_fuel e = rw (e, register) h

    pub register_all-HoldsOnly :
        (b : PathMatcherBuilder M) (regs : List (Registration M))
        → HoldsOnly P b
        → All
            (λ (reg : Registration M).
              (t : HttpTemplate)
              → parse reg.http_template ≡ ok t
              → P
                  (transform_http_template t)
                  reg.http_method
                  (method_data_of t reg.body_field_path reg.method))
            regs
        → HoldsOnly P (register_all b regs)
    unfolding register_all
    register_all-HoldsOnly b [] h p = h
    register_all-HoldsOnly b (reg ∷ regs) h p =
        register_all-HoldsOnly
          (register b reg.http_method reg.http_template reg.body_field_path reg.method).0 regs
          (register-HoldsOnly b reg.http_method reg.http_template reg.body_field_path reg.method h
            p.0)
          p.1

  -- A property of the trie that every insertion keeps holds after any registrations.
  module _ {κ} (Q : PathMatcherNode (MethodData M) → Type κ)
      (keep : (hm : Str) (d : MethodData M) (path : List Str) (n : PathMatcherNode (MethodData M))
        → Q n
        → Q (insert_template hm (some d) true path n).0) where
    register-keeps :
        (b : PathMatcherBuilder M) (hm ht body : Str) (m : M)
        → Q b.root
        → Q (register b hm ht body m).0.root
    unfolding register
    register-keeps b hm ht body m q = go (parse ht) refl
      where
        go : (r : Parsed HttpTemplate) → parse ht ≡ r → Q (register b hm ht body m).0.root
        go (ok t) e =
            rw (e, register) (rw (register_template-root b hm t body m) (keep hm _ _ b.root q))
        go fail e = rw (e, register) q
        go out_of_fuel e = rw (e, register) q

    pub register_all-keeps :
        (b : PathMatcherBuilder M) (regs : List (Registration M))
        → Q b.root
        → Q (register_all b regs).root
    unfolding register_all
    register_all-keeps b [] q = q
    register_all-keeps b (reg ∷ regs) q =
        register_all-keeps
          (register b reg.http_method reg.http_template reg.body_field_path reg.method).0 regs
          (register-keeps b reg.http_method reg.http_template reg.body_field_path reg.method q)

  abbrev pub HasEntry : List Str → Str → PathMatcherNode (MethodData M) → Type 0
  HasEntry t k n = is_some (entry n t k) ≡ true

  pub insert_template-HasEntry :
      (t : List Str) (k : Str) (hm : Str) (d : MethodData M) (path : List Str)
      (n : PathMatcherNode (MethodData M))
      → HasEntry t k n
      → HasEntry t k (insert_template hm (some d) true path n).0
  insert_template-HasEntry t k hm d path n h =
      rw (entry-insert_template hm (some d) true path n t k) (ground arith)

  -- The template of a registration that parses is there after it.
  pub register-HasEntry :
      (b : PathMatcherBuilder M) (hm ht body : Str) (m : M) (t : HttpTemplate)
      → parse ht ≡ ok t
      → HasEntry (transform_http_template t) hm (register b hm ht body m).0.root
  unfolding register
  register-HasEntry b hm ht body m t e =
      let path = transform_http_template t in
      let d = some (method_data_of t body m) in
      rw (e, register)
        (rw (register_template-root b hm t body m) (
          rw (entry-insert_template hm d true path b.root path hm)
            (ground (arith, path_eq_iff path path, str_eq_iff hm hm))))

  -- Some registration of the list parses as the template `t`, whose path and method are given.
  abbrev pub IsRegistered : List (Registration M) → HttpTemplate → Str → Type 0
  IsRegistered [] t k = ⊥
  IsRegistered (reg ∷ regs) t k =
      ((parse reg.http_template ≡ ok t) × (reg.http_method ≡ k)) ⊎ IsRegistered regs t k

  pub register_all-HasEntry :
      (b : PathMatcherBuilder M) (regs : List (Registration M)) (t : HttpTemplate) (k : Str)
      → IsRegistered regs t k
      → HasEntry (transform_http_template t) k (register_all b regs).root
  unfolding register_all
  register_all-HasEntry b (reg ∷ regs) t k (inl (e, same)) =
      let b' = (register b reg.http_method reg.http_template reg.body_field_path reg.method).0 in
      register_all-keeps (HasEntry (transform_http_template t) k)
        (insert_template-HasEntry (transform_http_template t) k) b' regs
        (rw (← same) (
          register-HasEntry b reg.http_method reg.http_template reg.body_field_path reg.method t e))
  register_all-HasEntry b (reg ∷ regs) t k (inr later) =
      register_all-HasEntry
        (register b reg.http_method reg.http_template reg.body_field_path reg.method).0 regs t k
        later
  register_all-HasEntry b [] t k h = elim h [ ]

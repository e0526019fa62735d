-- ===== src/PathMatcher/Node/Matching.antt =====
-- Which request paths a template matches, and what the wildcard flags of a trie mean.
use esp_v.Base.{
  Str, str_eq, str_eq_iff, All, Bool, true, false, ◌||◌, Bool-cases, Option-cases, Option, some,
  List, [], ◌∷◌, ◌≡◌, ◌≢◌, ◌⊎◌, inl, inr, refl, arith,
}
use esp_v.PathMatcher.Node.{
  PathMatcherNode, node, Children, nil, cons, find_child, put_child, insert_template,
  single_parameter_key, wildcard_path_part_key, wildcard_path_key, parameter_keys, set_wildcard,
  lookup_or_insert_new, new_node,
}
use esp_v.PathMatcher.Node.Insert.{next_child}

-- `**` matches one segment or more; at the end of a template it also matches none.
pub data Matches : List Str → List Str → Type 0 where
  done : Matches [] []
  no_more : Matches (wildcard_path_key ∷ []) []
  literal : {s : Str} {t ps : List Str} → Matches t ps → Matches (s ∷ t) (s ∷ ps)
  single : {p : Str} {t ps : List Str} → Matches t ps → Matches (single_parameter_key ∷ t) (p ∷ ps)
  part : {p : Str} {t ps : List Str} → Matches t ps → Matches (wildcard_path_part_key ∷ t) (p ∷ ps)
  last : {p : Str} {t ps : List Str} → Matches t ps → Matches (wildcard_path_key ∷ t) (p ∷ ps)
  more :
      {p : Str} {t ps : List Str}
      → Matches (wildcard_path_key ∷ t) ps
      → Matches (wildcard_path_key ∷ t) (p ∷ ps)

-- What is left of a request path at a node: a node below `**` may drop segments first.
abbrev pub MatchesAt : Bool → List Str → List Str → Type 0
MatchesAt true t ps = (x : Str) → Matches (wildcard_path_key ∷ t) (x ∷ ps)
MatchesAt false t ps = Matches t ps

pub MatchesAt-of : (w : Bool) {t ps : List Str} → Matches t ps → MatchesAt w t ps
MatchesAt-of true m = λ x. last m
MatchesAt-of false m = m

unfoldable pub is_wildcard_path_key : Str → Bool
is_wildcard_path_key s = str_eq s wildcard_path_key

-- A child that is entered by its own key.
pub MatchesAt-literal :
    (p : Str) {t ps : List Str} → MatchesAt (is_wildcard_path_key p) t ps → Matches (p ∷ t) (p ∷ ps)
unfolding is_wildcard_path_key
MatchesAt-literal p {t} {ps} m = elim (Bool-cases (str_eq p wildcard_path_key)) [
  | inl e ↦
      let same = (str_eq_iff p wildcard_path_key).0 e in
      let h : MatchesAt true t ps = rw e at m in rw same (h wildcard_path_key)
  | inr e ↦ let h : MatchesAt false t ps = rw e at m in literal h
]

-- How a parent's template goes on after a key.
abbrev pub CanLead : List Str → Str → Str → Type 0
CanLead ps p k = (t : List Str) → MatchesAt (is_wildcard_path_key k) t ps → Matches (k ∷ t) (p ∷ ps)

pub keys_lead : (ps : List Str) (p : Str) → All (CanLead ps p) parameter_keys
unfolding is_wildcard_path_key str_eq
keys_lead ps p = (λ t m. single m, (λ t m. part m, (λ t m. m p, tt)))

module _ {ℓ} {D : Type ℓ} where
  -- Every node is flagged exactly if its parent holds it under `**`.
  abbrev mutual
    pub IsFlagged : Bool → PathMatcherNode D → Type 0
    IsFlagged w (node rs cs v) = (v ≡ w) × AreFlagged cs

    pub AreFlagged : Children D → Type 0
    AreFlagged nil = Unit
    AreFlagged (cons k n cs) = IsFlagged (is_wildcard_path_key k) n × AreFlagged cs

  pub IsFlagged-find_child :
      (k : Str) (cs : Children D) {n : PathMatcherNode D}
      → AreFlagged cs
      → find_child k cs ≡ some n
      → IsFlagged (is_wildcard_path_key k) n
  unfolding find_child
  IsFlagged-find_child k nil fl e = cc
  IsFlagged-find_child k (cons j c cs) {n} fl e = elim (Bool-cases (str_eq j k)) [
    | inl h ↦
        let same = (str_eq_iff j k).0 h in
        let e' : some c ≡ some n = rw h at e in
        let same_node : c ≡ n = cc in rw (← same_node, ← same) fl.0
    | inr h ↦ IsFlagged-find_child k cs fl.1 (rw h at e)
  ]

  AreFlagged-put_child :
      (k : Str) (n : PathMatcherNode D) (cs : Children D)
      → IsFlagged (is_wildcard_path_key k) n
      → AreFlagged cs
      → AreFlagged (put_child k n cs)
  unfolding put_child
  AreFlagged-put_child k n nil h fl = (h, tt)
  AreFlagged-put_child k n (cons j c cs) h fl = elim (Bool-cases (str_eq j k)) [
    | inl e ↦ rw e (h, fl.1)
    | inr e ↦ rw e (fl.0, AreFlagged-put_child k n cs h fl.1)
  ]

  IsFlagged-set_wildcard :
      (v w : Bool) (n : PathMatcherNode D) → IsFlagged w n → IsFlagged v (set_wildcard v n)
  IsFlagged-set_wildcard v w (node rs cs _) fl = (refl, fl.1)

  IsFlagged-lookup_or_insert_new :
      (s : Str) (cs : Children D)
      → AreFlagged cs
      → (IsFlagged (is_wildcard_path_key s) (lookup_or_insert_new s cs))
        ⊎ (lookup_or_insert_new s cs ≡ new_node)
  unfolding lookup_or_insert_new
  IsFlagged-lookup_or_insert_new s cs fl = elim (Option-cases (find_child s cs)) [
    | inl e ↦ inr (ground (arith, e))
    | inr (c, e) ↦ inl (rw (e, lookup_or_insert_new) (IsFlagged-find_child s cs fl e))
  ]

  IsFlagged-next_child :
      (s : Str) (cs : Children D)
      → AreFlagged cs
      → IsFlagged (is_wildcard_path_key s) (next_child s cs)
  unfolding is_wildcard_path_key
  IsFlagged-next_child s cs fl = elim (Bool-cases (str_eq s wildcard_path_key)) [
    | inl w ↦ elim (IsFlagged-lookup_or_insert_new s cs fl) [
      | inl h ↦ rw w (IsFlagged-set_wildcard true _ (lookup_or_insert_new s cs) h)
      | inr e ↦ rw (w, e) (refl, tt)
    ]
    | inr w ↦ elim (IsFlagged-lookup_or_insert_new s cs fl) [
      | inl h ↦ rw w (rw w at h)
      | inr e ↦ rw (w, e) (refl, tt)
    ]
  ]

  -- Inserting keeps the flags right.
  pub insert_template-IsFlagged :
      (method : Str) (d : Option D) (mark : Bool) (path : List Str) (n : PathMatcherNode D)
      (w : Bool)
      → IsFlagged w n
      → IsFlagged w (insert_template method d mark path n).0
  unfolding insert_template
  insert_template-IsFlagged method d mark [] (node rs cs v) w fl = fl
  insert_template-IsFlagged method d mark (s ∷ path) (node rs cs v) w fl = (
    fl.0,
    AreFlagged-put_child s _ cs
        (insert_template-IsFlagged method d mark path (next_child s cs) (is_wildcard_path_key s)
          (IsFlagged-next_child s cs fl.1))
        fl.1,
  )

-- A template that `ValidateParts` accepts: only constant segments after `**`.
unfoldable pub is_parameter_key : Str → Bool
is_parameter_key s =
    str_eq s single_parameter_key || str_eq s wildcard_path_part_key || str_eq s wildcard_path_key

abbrev pub IsValidPath : Bool → List Str → Type 0
IsValidPath found [] = Unit
IsValidPath false (s ∷ t) = IsValidPath (is_wildcard_path_key s) t
IsValidPath true (s ∷ t) = (is_parameter_key s ≡ false) × IsValidPath true t

pub IsValidPath-weaken : (w : Bool) (t : List Str) → IsValidPath true t → IsValidPath w t
unfolding is_parameter_key is_wildcard_path_key
IsValidPath-weaken true t h = h
IsValidPath-weaken false [] h = tt
IsValidPath-weaken false (s ∷ t) h = IsValidPath-weaken (str_eq s wildcard_path_key) t h.1

-- The cases of a match against a request path.
pub data Steps (s : Str) (t : List Str) (p : Str) (ps : List Str) : Type 0 where
  by_literal : s ≡ p → Matches t ps → Steps s t p ps
  by_single : s ≡ single_parameter_key → Matches t ps → Steps s t p ps
  by_part : s ≡ wildcard_path_part_key → Matches t ps → Steps s t p ps
  by_wildcard : s ≡ wildcard_path_key → Matches t ps ⊎ Matches (s ∷ t) ps → Steps s t p ps

pub Matches-cons :
    {s : Str} {t : List Str} {p : Str} {ps : List Str} → Matches (s ∷ t) (p ∷ ps) → Steps s t p ps
Matches-cons (literal m) = by_literal refl m
Matches-cons (single m) = by_single refl m
Matches-cons (part m) = by_part refl m
Matches-cons (last m) = by_wildcard refl (inl m)
Matches-cons (more m) = by_wildcard refl (inr m)

pub Matches-nil : {t : List Str} → Matches t [] → (t ≡ []) ⊎ (t ≡ wildcard_path_key ∷ [])
Matches-nil done = inl refl
Matches-nil no_more = inr refl

-- What `LookupPath` has to look for at a node: below `**` the segment of `**` is gone already.
abbrev pub Remains : Bool → List Str → List Str → Type 0
Remains true t ps = Matches t ps ⊎ Matches (wildcard_path_key ∷ t) ps
Remains false t ps = Matches t ps

pub Remains-of : (w : Bool) {t ps : List Str} → Matches t ps → Remains w t ps
Remains-of true m = inl m
Remains-of false m = m

pub Remains-nil :
    (w : Bool) {t : List Str} → Remains w t [] → (t ≡ []) ⊎ (t ≡ wildcard_path_key ∷ [])
Remains-nil true (inl m) = Matches-nil m
Remains-nil true (inr m) = elim (Matches-nil m) [ inl e ↦ cc | inr e ↦ inl (cc) ]
Remains-nil false m = Matches-nil m

pub Remains-wildcard :
    {t ps : List Str}
    → Matches t ps ⊎ Matches (wildcard_path_key ∷ t) ps
    → Remains (is_wildcard_path_key wildcard_path_key) t ps
unfolding is_wildcard_path_key str_eq
Remains-wildcard m = m

pub not_parameter :
    {s : Str}
    → is_parameter_key s ≡ false
    → (s ≢ single_parameter_key) × (s ≢ wildcard_path_part_key) × (s ≢ wildcard_path_key)
unfolding is_parameter_key str_eq
not_parameter {s} h = (λ e. cc (rw e at h), λ e. cc (rw e at h), λ e. cc (rw e at h))

-- ===== src/PathMatcher/Node/Insert.antt =====
-- What `InsertTemplate` changes: the trie as a table from templates and methods to results.
use esp_v.Base.{
  Str, str_eq, str_eq_iff, if◌then◌else◌, lookup, lookup-insert, is_some, Bool, true, false, not,
  ◌&&◌, Option, Option-cases, none, some, List, [], ◌∷◌, ◌≡◌, ◌↔◌, refl, ap, ◌∙◌, inl, inr, arith,
}
use esp_v.PathMatcher.Node.{
  PathMatcherLookupResult, ResultMap, PathMatcherNode, node, Children, nil, cons, new_node,
  find_child, put_child, set_wildcard, lookup_or_insert_new, insert_result, insert_template,
  wildcard_path_key,
}

-- Equality of two templates, segment by segment.
unfoldable pub path_eq : List Str → List Str → Bool
path_eq [] [] = true
path_eq (s ∷ p) (t ∷ q) = str_eq s t && path_eq p q
path_eq [] (t ∷ q) = false
path_eq (s ∷ p) [] = false

module _ {ℓ} {D : Type ℓ} where
  -- The result registered under a template and a method.
  unfoldable pub entry : PathMatcherNode D → List Str → Str → Option (PathMatcherLookupResult D)
  entry (node rs cs w) [] method = lookup method rs
  entry (node rs cs w) (s ∷ path) method = elim (find_child s cs) [
    | none ↦ none
    | some c ↦ entry c path method
  ]

  -- What a registration leaves under its own template and method.
  unfoldable pub after_insert :
      Option D → Bool → Option (PathMatcherLookupResult D) → PathMatcherLookupResult D
  after_insert d mark none = record { value = d; is_multiple = false }
  after_insert d mark (some old) = if mark then record old { is_multiple = true } else old

  pub find_child-put_child :
      (k j : Str) (c : PathMatcherNode D) (cs : Children D)
      → find_child j (put_child k c cs) ≡ (if str_eq k j then some c else find_child j cs)
  unfolding find_child put_child
  find_child-put_child k j c nil = refl
  find_child-put_child k j c (cons i b cs) =
      ground (arith, str_eq_iff k j, str_eq_iff i k, str_eq_iff i j, find_child-put_child k j c cs)

  pub entry-new_node : (path : List Str) (method : Str) → entry new_node path method ≡ none
  unfolding entry lookup find_child
  entry-new_node [] method = refl
  entry-new_node (s ∷ path) method = refl

  entry-set_wildcard :
      (w : Bool) (n : PathMatcherNode D) (path : List Str) (method : Str)
      → entry (set_wildcard w n) path method ≡ entry n path method
  unfolding entry
  entry-set_wildcard w (node rs cs _) [] method = refl
  entry-set_wildcard w (node rs cs _) (s ∷ path) method = refl

  -- The child that `InsertTemplate` goes on with.
  abbrev pub next_child : Str → Children D → PathMatcherNode D
  next_child s cs =
      let child = lookup_or_insert_new s cs in
      if str_eq s wildcard_path_key then set_wildcard true child else child

  entry-next_child :
      (s : Str) (cs : Children D) (path : List Str) (method : Str)
      → entry (next_child s cs) path method
        ≡ (elim (find_child s cs) [ none ↦ none | some c ↦ entry c path method ])
  unfolding lookup_or_insert_new
  entry-next_child s cs path method = ground (
    arith,
    entry-set_wildcard true (lookup_or_insert_new s cs) path method,
    entry-new_node path method,
    entry-set_wildcard true new_node path method,
  )

  insert_result_lem :
      (method m : Str) (d : Option D) (mark : Bool) (rs : ResultMap D)
      → lookup m (insert_result method d mark rs).0
        ≡ (if str_eq method m then some (after_insert d mark (lookup method rs)) else lookup m rs)
  unfolding insert_result after_insert
  insert_result_lem method m d mark rs = elim (Option-cases (lookup method rs)) [
    | inl missing ↦ ground (
      arith,
      missing,
      str_eq_iff method m,
      lookup-insert method m (record { value = d; is_multiple = false }) rs,
    )
    | inr (old, found) ↦ ground (
      arith,
      found,
      str_eq_iff method m,
      lookup-insert method m (record old { is_multiple = true }) rs,
    )
  ]

  insert_result-fresh :
      (method : Str) (d : Option D) (mark : Bool) (rs : ResultMap D)
      → (insert_result method d mark rs).1 ≡ not (is_some (lookup method rs))
  unfolding insert_result
  insert_result-fresh method d mark rs = ground arith

  -- `InsertTemplate` answers whether its template and method had no result.
  pub insert_template-fresh :
      (method : Str) (d : Option D) (mark : Bool) (path : List Str) (n : PathMatcherNode D)
      → (insert_template method d mark path n).1 ≡ not (is_some (entry n path method))
  unfolding insert_template entry
  insert_template-fresh method d mark [] (node rs cs w) = insert_result-fresh method d mark rs
  insert_template-fresh method d mark (s ∷ path) (node rs cs w) =
      insert_template-fresh method d mark path (next_child s cs)
      ∙ ap (λ e. not (is_some e)) (entry-next_child s cs path method)

  -- `InsertTemplate` changes the result of its own template and method, and of no other.
  pub entry-insert_template :
      (method : Str) (d : Option D) (mark : Bool) (path : List Str) (n : PathMatcherNode D)
      (path' : List Str) (method' : Str)
      → entry (insert_template method d mark path n).0 path' method' ≡ (
          if path_eq path path' && str_eq method method'
          then some (after_insert d mark (entry n path method))
          else entry n path' method')
  unfolding insert_template entry path_eq
  entry-insert_template method d mark [] (node rs cs w) [] method' =
      insert_result_lem method method' d mark rs
  entry-insert_template method d mark [] (node rs cs w) (t ∷ path') method' = refl
  entry-insert_template method d mark (s ∷ path) (node rs cs w) [] method' = refl
  entry-insert_template method d mark (s ∷ path) (node rs cs w) (t ∷ path') method' = ground (
    arith,
    entry-insert_template method d mark path (next_child s cs) path' method',
    find_child-put_child s t (insert_template method d mark path (next_child s cs)).0 cs,
    str_eq_iff s t,
    entry-next_child s cs path method,
    entry-next_child s cs path' method',
  )

pub path_eq_iff : (p q : List Str) → (path_eq p q ≡ true) ↔ (p ≡ q)
unfolding path_eq
path_eq_iff [] [] = ground arith
path_eq_iff [] (t ∷ q) = ground arith
path_eq_iff (s ∷ p) [] = ground arith
path_eq_iff (s ∷ p) (t ∷ q) = ground (arith, str_eq_iff s t, path_eq_iff p q)

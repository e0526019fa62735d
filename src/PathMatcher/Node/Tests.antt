-- ===== src/PathMatcher/Node/Tests.antt =====
-- Runs of the trie.
use esp_v.Base.{
  ℕ, Str, codes, str_eq, if◌then◌else◌, true, not, ◌&&◌, is_some, some, List, [], ◌∷◌, ◌≡◌,
}
use esp_v.PathMatcher.Node.{PathMatcherNode, insert_template, new_node}
use esp_v.PathMatcher.Node.Insert.{
  entry, after_insert, path_eq, entry-insert_template, insert_template-fresh,
}

abbrev users : List Str
users = codes "users" ∷ codes "*" ∷ []

abbrev files : List Str
files = codes "users" ∷ codes "**" ∷ []

abbrev users_trie : PathMatcherNode ℕ
users_trie = (insert_template (codes "GET") (some 1) true users new_node).0

entry-insert_template_example :
    entry (insert_template (codes "GET") (some 2) true files users_trie).0 users (codes "GET") ≡ (
      if path_eq files users && str_eq (codes "GET") (codes "GET")
      then some (after_insert (some 2) true (entry users_trie files (codes "GET")))
      else entry users_trie users (codes "GET"))
entry-insert_template_example =
    entry-insert_template (codes "GET") (some 2) true files users_trie users (codes "GET")

insert_template-fresh_example :
    (insert_template (codes "GET") (some 2) true users users_trie).1
    ≡ not (is_some (entry users_trie users (codes "GET")))
insert_template-fresh_example = insert_template-fresh (codes "GET") (some 2) true users users_trie

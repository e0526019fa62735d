-- ===== src/BackendRouting/Tests.antt =====
-- Runs of the backend routing filter.
use esp_v.Base.{
  codes, str_eq, is_empty, lookup, insert, if◌then◌else◌, true, some, [], ◌∷◌, ◌++◌, ◌≡◌, refl,
  arith,
}
use esp_v.PathMatcher.RequestPath.Split.{before_first}
use esp_v.BackendRouting.{
  Rule, new_path, with_query, from_first, count, reroute, route, find_rule, index_rules,
  decode_headers,
}
use esp_v.BackendRouting.Paths.{query_of, merge, new_path_lem}

abbrev pets : Rule
pets = record { operation = codes "pets"; path_prefix = codes "/v1"; is_const_address = true }

pets_run :
    (decode_headers
      (pets ∷ [])
      (record {
        path = some (codes "/pets/7?a=1");
        operation = codes "pets";
        query_params = codes "id=7";
      })
      (record { constant_address_request = 0; append_path_to_address_request = 0 })).0.path
    ≡ some (codes "/v1?a=1&id=7")
unfolding decode_headers route reroute count new_path with_query from_first find_rule index_rules
    str_eq lookup insert is_empty
pets_run = refl

new_path_lem_example :
    (before_first b'?' (new_path pets (codes "id=7") (codes "/pets/7?a=1"))
      ≡ (if true then codes "/v1" else codes "/v1" ++ before_first b'?' (codes "/pets/7?a=1")))
    × (query_of (new_path pets (codes "id=7") (codes "/pets/7?a=1")) ≡ (
        if true
        then merge (query_of (codes "/pets/7?a=1")) (codes "id=7")
        else query_of (codes "/pets/7?a=1")))
new_path_lem_example =
    new_path_lem pets (codes "id=7") (codes "/pets/7?a=1")
      (ground arith, (ground arith, (ground arith, tt)))

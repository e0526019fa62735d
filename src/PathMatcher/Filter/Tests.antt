-- ===== src/PathMatcher/Filter/Tests.antt =====
-- Runs of the path matcher filter on two rules.
use esp_v.Base.{Str, codes, false, [], ◌∷◌, ◌≡◌, inl, refl, some, pos}
use esp_v.PathMatcher.Node.{wildcard_path_part_key}
use esp_v.PathMatcher.Node.Complete.{IsAnswering}
use esp_v.PathMatcher.Node.Matching.{Matches, is_parameter_key}
use esp_v.PathMatcher.TemplateParser.{HttpTemplate}
use esp_v.PathMatcher.Matcher.{MethodData, PathMatcher, transform_http_template, build, new_builder}
use esp_v.PathMatcher.Matcher.Tests
use esp_v.PathMatcher.Matcher.Tests.{splitting}
use esp_v.PathMatcher.Matcher.Registered.{IsRegistered, register_all}
use esp_v.PathMatcher.Matcher.Lookup.{IsSource, parts}
use esp_v.PathMatcher.Filter
use esp_v.PathMatcher.Filter.{
  Config, FilterConfig, new_filter_config, Stats, goes_on, rejected, decode_headers,
}
use esp_v.PathMatcher.Filter.Routes.{registrations, decode_headers-goes_on, decode_headers-rejected}

unfoldable deciding : Unit {0}
unfolding esp_v.PathMatcher.Matcher.Tests.running esp_v.PathMatcher.Filter.register_rules
    esp_v.PathMatcher.Filter.params_operations esp_v.PathMatcher.Filter.emplace_names
    esp_v.PathMatcher.Filter.new_filter_config esp_v.PathMatcher.Filter.need_parameter_extraction
    esp_v.PathMatcher.Filter.reject_request esp_v.PathMatcher.Filter.query_params
    esp_v.PathMatcher.Filter.decode_operation esp_v.PathMatcher.Filter.decode_headers
deciding = tt

abbrev shelf_config : Config
shelf_config = record {
  rules =
      record {
        http_method = codes "GET";
        uri_template = codes "/shelves/{shelf}";
        operation = codes "GetShelf";
        extract_path_parameters = false;
      }
      ∷ record {
        http_method = codes "GET";
        uri_template = codes "/shelves/all";
        operation = codes "AllShelves";
        extract_path_parameters = false;
      }
      ∷ [];
  segment_names = [];
}

abbrev no_requests : Stats
no_requests = record { allowed = 0; denied = 0 }

abbrev shelf_filter : FilterConfig
shelf_filter = record {
  path_matcher = build (register_all new_builder (registrations shelf_config));
  path_params_operations = [];
  snake_to_json_map = [];
}

shelf_config-accepted : new_filter_config shelf_config ≡ some shelf_filter
unfolding deciding
shelf_config-accepted = refl

all_shelves-goes_on :
    decode_headers splitting
      (λ s. false)
      shelf_filter
      (codes "GET")
      (codes "/shelves/all")
      no_requests
    ≡ some (goes_on (codes "AllShelves") [], record { allowed = 1; denied = 0 })
unfolding deciding
all_shelves-goes_on = refl

books-rejected :
    decode_headers splitting (λ s. false) shelf_filter (codes "GET") (codes "/books") no_requests
    ≡ some (
      rejected 404 (codes "Path does not match any requirement URI template."),
      record { allowed = 0; denied = 1 },
    )
unfolding deciding
books-rejected = refl

decode_headers-goes_on_example :
    (t : HttpTemplate) × (k : Str) × (d : MethodData Str) × IsSource t k d
      (registrations shelf_config)
    × (d.method ≡ codes "AllShelves")
    × IsAnswering (codes "GET") k
    × Matches
        (transform_http_template t)
        (parts splitting (registrations shelf_config) (codes "GET") (codes "/shelves/all"))
decode_headers-goes_on_example =
    decode_headers-goes_on splitting (λ s. false) shelf_config shelf_filter (codes "GET")
      (codes "/shelves/all") no_requests shelf_config-accepted all_shelves-goes_on

abbrev one_shelf : HttpTemplate
one_shelf = record {
  segments = codes "shelves" ∷ wildcard_path_part_key ∷ [];
  verb = [];
  variables =
      record {
        start_segment = 1;
        end_segment = pos 2;
        field_path = codes "shelf" ∷ [];
        has_wildcard_path = false;
      }
      ∷ [];
}

one_shelf-IsRegistered : IsRegistered (registrations shelf_config) one_shelf (codes "GET")
unfolding deciding
one_shelf-IsRegistered = inl (refl, refl)

one_shelf-is_plain : is_parameter_key one_shelf.verb ≡ false
unfolding is_parameter_key deciding
one_shelf-is_plain = refl

decode_headers-rejected_example :
    ¬ Matches
      (transform_http_template one_shelf)
      (parts splitting (registrations shelf_config) (codes "GET") (codes "/books"))
decode_headers-rejected_example =
    decode_headers-rejected splitting (λ s. false) shelf_config shelf_filter (codes "GET")
      (codes "/books") no_requests one_shelf (codes "GET") shelf_config-accepted books-rejected
      one_shelf-IsRegistered one_shelf-is_plain (inl refl)
